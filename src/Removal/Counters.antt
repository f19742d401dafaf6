-- ===== src/Removal/Counters.antt =====
-- The removal of actors changes none of the counters and flags of `System.Counters`.
use phactor.Base.{ℕ, zero, suc, ◌+◌, Option, none, some, List, [], ◌∷◌, arith, ◌==◌, Ptr, null}
use phactor.HashTable.{HashTable, Bucket, at}
use phactor.PhString.{PhString}
use phactor.Removal.{
  visit_worker, apply_workers, leave_supervisor, remove_workers, delete_found, delete_by_ref,
  delete_by_name, remove_with, ph_actor_mark_for_removal, ph_actor_remove_from_table, ph_actor_free,
  ph_actor_internal_free, delete_name, free_marked, perform_actor_removals,
}
use phactor.System.{ActorInternal, shutting_down, System, Platform, Supervision, update}
use phactor.System.Counters.{
  IsSteady, bind-IsSteady, pure-IsSteady, get-IsSteady, modify-IsSteady, if-IsSteady, load-IsSteady,
  store-IsSteady, load_supervision-IsSteady, out_of_fuel-IsSteady, fault-IsSteady, steady_commands,
}
use phactor.System.Machine.{Cmd, modify}
use phactor.Vector.{Vector, ph_vector_push, ph_vector_pop}
use phactor.System.Counters.{Steps}

module _ {M : Type 0} where
  pub apply_workers-IsSteady :
      (f : Ptr → Cmd M (Unit {0}))
      → Steps f
      → (rounds i : ℕ) (p : Ptr) → IsSteady (apply_workers f rounds i p)
  unfolding apply_workers visit_worker
  apply_workers-IsSteady f h zero i p = pure-IsSteady tt
  apply_workers-IsSteady f h (suc rounds) i p = bind-IsSteady (load_supervision-IsSteady p) (λ sv.
      bind-IsSteady (if-IsSteady _ (pure-IsSteady tt) (h _))
        (λ _. apply_workers-IsSteady f h rounds (i + 1) p))

  set_removals-IsSteady :
      (removals : System M → ℕ → Vector)
      → IsSteady (modify (λ s. record s { actor_removals = removals s }))
  set_removals-IsSteady removals = modify-IsSteady _ (λ s. ground arith)

  leave_supervisor-IsSteady :
      (p supervisor : Ptr) → IsSteady {M = M} (leave_supervisor p supervisor)
  unfolding leave_supervisor
  leave_supervisor-IsSteady p supervisor =
      if-IsSteady (supervisor == null) (pure-IsSteady tt) (search steady_commands)

  remove_workers-IsSteady :
      (f : Ptr → Cmd M (Unit {0}))
      → Steps f
      → (p : Ptr) (o : Option Supervision) → IsSteady (remove_workers f p o)
  unfolding remove_workers
  remove_workers-IsSteady f h p none = pure-IsSteady tt
  remove_workers-IsSteady f h p (some sv) =
      bind-IsSteady (apply_workers-IsSteady f h sv.workers.size 0 p) (λ _. search steady_commands)

  delete_found-IsSteady :
      (f : Ptr → Cmd M (Unit {0}))
      → Steps f
      → (ht : HashTable) (o : Option ℕ) → IsSteady (delete_found f ht o)
  unfolding delete_found
  delete_found-IsSteady f h ht none = pure-IsSteady tt
  delete_found-IsSteady f h ht (some index) =
      bind-IsSteady (h (at ht.values index).value) (λ _. modify-IsSteady _ (λ s. ground arith))

  module _ (destruct : Ptr → Cmd M (Unit {0})) (steady : Steps destruct) where
    internal_free-IsSteady :
        (p : Ptr) (o : Option ActorInternal) → IsSteady (ph_actor_internal_free destruct p o)
    unfolding ph_actor_internal_free
    internal_free-IsSteady p none = pure-IsSteady tt
    internal_free-IsSteady p (some i) = steady p

    ph_actor_free-IsSteady : Steps (ph_actor_free destruct)
    unfolding ph_actor_free
    ph_actor_free-IsSteady p = bind-IsSteady (load-IsSteady p) (λ a.
        bind-IsSteady (internal_free-IsSteady p a.internal)
          (λ _. modify-IsSteady _ (λ s. ground arith)))

    free_marked-IsSteady : (rounds offset : ℕ) → IsSteady (free_marked destruct rounds offset)
    unfolding free_marked
    free_marked-IsSteady zero offset = pure-IsSteady tt
    free_marked-IsSteady (suc rounds) offset = bind-IsSteady get-IsSteady (λ s.
        let popped : Ptr × Vector = ph_vector_pop (s.actor_removals offset) in
        bind-IsSteady (set_removals-IsSteady (λ t. update t.actor_removals offset popped.1)) (λ _.
          bind-IsSteady (ph_actor_free-IsSteady popped.0)
            (λ _. free_marked-IsSteady rounds offset)))

    pub perform_actor_removals-IsSteady :
        (offset : ℕ) → IsSteady (perform_actor_removals destruct offset)
    unfolding perform_actor_removals
    perform_actor_removals-IsSteady offset =
        bind-IsSteady get-IsSteady (λ s. free_marked-IsSteady _ offset)

module _ {M : Type 0} (platform : Platform) where
  delete_name-IsSteady :
      (bs : List Bucket) (name : PhString) → IsSteady {M = M} (delete_name platform bs name)
  unfolding delete_name
  delete_name-IsSteady [] name = fault-IsSteady
  delete_name-IsSteady (b ∷ bs) name = modify-IsSteady _ (λ s. ground arith)

  delete_by_name-IsSteady : (o : Option PhString) → IsSteady {M = M} (delete_by_name platform o)
  unfolding delete_by_name
  delete_by_name-IsSteady none = pure-IsSteady tt
  delete_by_name-IsSteady (some name) =
      bind-IsSteady get-IsSteady (λ s. delete_name-IsSteady s.actors_by_name.values name)

  remove_with-IsSteady : (f : Ptr → Cmd M (Unit {0})) → Steps f → Steps (remove_with platform f)
  unfolding remove_with delete_by_ref
  remove_with-IsSteady f h p = bind-IsSteady (load-IsSteady p) (λ a.
      bind-IsSteady (delete_by_name-IsSteady a.name)
        (λ _. bind-IsSteady get-IsSteady (λ s. delete_found-IsSteady f h s.actors_by_ref _)))

  pub mark_for_removal-IsSteady :
      (fuel : ℕ) → Steps {M = M} (ph_actor_mark_for_removal platform fuel)
  unfolding ph_actor_mark_for_removal
  mark_for_removal-IsSteady zero p = out_of_fuel-IsSteady
  mark_for_removal-IsSteady (suc fuel) p =
      let worker = remove_with platform (ph_actor_mark_for_removal platform fuel) in
      let h = remove_with-IsSteady _ (mark_for_removal-IsSteady fuel) in
      bind-IsSteady (load-IsSteady p) (λ a.
        bind-IsSteady (store-IsSteady p (record a { state = shutting_down })) (λ _.
          bind-IsSteady (leave_supervisor-IsSteady p a.supervisor) (λ _.
            bind-IsSteady (load-IsSteady p) (λ b.
              bind-IsSteady (remove_workers-IsSteady worker h p b.supervision) (λ _.
                set_removals-IsSteady (λ s.
                  update s.actor_removals a.thread_offset
                    (ph_vector_push (s.actor_removals a.thread_offset) p)))))))

  pub remove_from_table-IsSteady :
      (fuel : ℕ) → Steps {M = M} (ph_actor_remove_from_table platform fuel)
  unfolding ph_actor_remove_from_table
  remove_from_table-IsSteady fuel =
      remove_with-IsSteady (ph_actor_mark_for_removal platform fuel)
        (mark_for_removal-IsSteady fuel)

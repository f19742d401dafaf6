-- ===== src/Removal.antt =====
-- src/classes/actor.c, the removal of actors: from the tables by `ph_actor_remove_from_table`, whose
-- deletion from `actors_by_ref` calls `ph_actor_mark_for_removal`, which takes the actor out of its
-- supervisor's workers and removes its own workers; and `perform_actor_removals` of
-- src/classes/actor_system.c, which frees what was marked. Fuel bounds the depth of the
-- supervision tree. The lock of `actors_by_ref` is held throughout.
pub mod Leaf
pub mod Freeing
pub mod Counters
use phactor.Base.{
  ℕ, zero, suc, ◌+◌, Option, none, some, List, [], ◌∷◌, ◌==◌, if◌then◌else◌, Ptr, null,
}
use phactor.HashTable.{
  HashTable, Bucket, at, find_index, bury, ph_hashtable_delete_direct, ph_hashtable_clear,
}
use phactor.PhString.{PhString}
use phactor.System.{
  Actor, ActorInternal, Supervision, System, Platform, shutting_down, update, put_actor,
}
use phactor.System.Machine.{
  Cmd, fault, out_of_fuel, ◌>>=◌, ◌>>◌, pure, get, modify, load, store, load_supervision,
  store_workers,
}
use phactor.Vector.{Vector, ph_vector_push, ph_vector_pop, ph_vector_size}

-- a destructor that does nothing: `ph_actor_free_dummy`
abbrev pub ph_actor_free_dummy : Ptr → Unit {0} → Unit {0}
ph_actor_free_dummy p u = u

module _ {M : Type 0} where
  unfoldable pub visit_worker : (Ptr → Cmd M (Unit {0})) → Ptr → Cmd M (Unit {0})
  visit_worker f worker = if worker == null then pure tt else f worker

  -- `ph_hashtable_apply(&actor->supervision->workers, f)`: the loop reads the table as `f` leaves it
  unfoldable pub apply_workers : (Ptr → Cmd M (Unit {0})) → ℕ → ℕ → Ptr → Cmd M (Unit {0})
  unfolding visit_worker
  apply_workers f zero i actor = pure tt
  apply_workers f (suc rounds) i actor = do
    sv ← load_supervision actor
    visit_worker f (at sv.workers.values i).value
    apply_workers f rounds (i + 1) actor

  -- the branch of `ph_actor_mark_for_removal` for an actor with a supervisor
  unfoldable pub leave_supervisor : Ptr → Ptr → Cmd M (Unit {0})
  leave_supervisor actor supervisor = if supervisor == null then pure tt else do
    sv ← load_supervision supervisor
    store_workers supervisor
        (ph_hashtable_delete_direct ph_actor_free_dummy none actor sv.workers tt).0
    a ← load actor
    store actor (record a { supervisor = null })

  -- the branch for a supervisor
  unfoldable pub remove_workers :
      (Ptr → Cmd M (Unit {0})) → Ptr → Option Supervision → Cmd M (Unit {0})
  unfolding apply_workers
  remove_workers remove actor none = pure tt
  remove_workers remove actor (some sv) = do
    apply_workers remove sv.workers.size 0 actor
    left ← load_supervision actor
    store_workers actor (ph_hashtable_clear ph_actor_free_dummy left.workers tt).0

  unfoldable pub delete_found : (Ptr → Cmd M (Unit {0})) → HashTable → Option ℕ → Cmd M (Unit {0})
  delete_found dtor table none = pure tt
  delete_found dtor table (some index) = do
    dtor (at table.values index).value
    modify (λ s. record s { actors_by_ref = bury index s.actors_by_ref })

module _ {M : Type 0} (platform : Platform) where
  open platform use {zend_hash_func}

  -- `ph_hashtable_delete` on `actors_by_ref`: the destructor runs before the bucket is emptied
  unfoldable pub delete_by_ref : (Ptr → Cmd M (Unit {0})) → PhString → Cmd M (Unit {0})
  unfolding delete_found
  delete_by_ref dtor ref = do
    s ← get
    delete_found dtor s.actors_by_ref (find_index s.actors_by_ref (some ref) (zend_hash_func ref))

  -- a deletion from `actors_by_name`, which reads the array of buckets; the array that
  -- `ph_hashtable_destroy` has freed has no bucket
  unfoldable pub delete_name : List Bucket → PhString → Cmd M (Unit {0})
  delete_name [] name = λ _. fault
  delete_name (b ∷ bs) name = modify λ s. record s {
    actors_by_name =
        (ph_hashtable_delete_direct ph_actor_free_dummy (some name) (zend_hash_func name)
          s.actors_by_name tt).0;
  }

  unfoldable pub delete_by_name : Option PhString → Cmd M (Unit {0})
  unfolding delete_name
  delete_by_name none = pure tt
  delete_by_name (some name) = do s ← get; delete_name s.actors_by_name.values name

  -- `ph_actor_remove_from_table`, given `ph_actor_mark_for_removal`
  unfoldable pub remove_with : (Ptr → Cmd M (Unit {0})) → Ptr → Cmd M (Unit {0})
  unfolding delete_by_name delete_by_ref
  remove_with mark actor = do a ← load actor; delete_by_name a.name; delete_by_ref mark a.ref

  unfoldable pub ph_actor_mark_for_removal : ℕ → Ptr → Cmd M (Unit {0})
  unfolding leave_supervisor remove_workers remove_with
  ph_actor_mark_for_removal zero actor = λ _. out_of_fuel
  ph_actor_mark_for_removal (suc fuel) actor = do
    a ← load actor
    store actor (record a { state = shutting_down })
    leave_supervisor actor a.supervisor
    b ← load actor
    remove_workers (remove_with (ph_actor_mark_for_removal fuel)) actor b.supervision
    modify λ s. record s {
      actor_removals =
          update s.actor_removals a.thread_offset
            (ph_vector_push (s.actor_removals a.thread_offset) actor);
    }

  unfoldable pub ph_actor_remove_from_table : ℕ → Ptr → Cmd M (Unit {0})
  unfolding remove_with
  ph_actor_remove_from_table fuel actor = remove_with (ph_actor_mark_for_removal fuel) actor

module _ {M : Type 0} where
  -- `destruct` is what PHP's destruction of the actor's object does, its `__destruct` included
  unfoldable pub ph_actor_internal_free :
      (Ptr → Cmd M (Unit {0})) → Ptr → Option ActorInternal → Cmd M (Unit {0})
  ph_actor_internal_free destruct actor none = pure tt
  ph_actor_internal_free destruct actor (some internal) = destruct actor

  -- The address holds no actor afterwards.
  unfoldable pub ph_actor_free : (Ptr → Cmd M (Unit {0})) → Ptr → Cmd M (Unit {0})
  unfolding ph_actor_internal_free
  ph_actor_free destruct actor = do
    a ← load actor
    ph_actor_internal_free destruct actor a.internal
    modify λ s. record s { actors = update s.actors actor none }

  -- the loop of `perform_actor_removals`, with `rounds` elements left
  unfoldable pub free_marked : (Ptr → Cmd M (Unit {0})) → ℕ → ℕ → Cmd M (Unit {0})
  unfolding ph_actor_free
  free_marked destruct zero offset = pure tt
  free_marked destruct (suc rounds) offset = do
    s ← get
    let popped : Ptr × Vector = ph_vector_pop (s.actor_removals offset)
    modify (λ t. record t { actor_removals = update t.actor_removals offset popped.1 })
    ph_actor_free destruct popped.0
    free_marked destruct rounds offset

  unfoldable pub perform_actor_removals : (Ptr → Cmd M (Unit {0})) → ℕ → Cmd M (Unit {0})
  unfolding free_marked
  perform_actor_removals destruct offset = do
    s ← get
    free_marked destruct (ph_vector_size (s.actor_removals offset)) offset

-- ===== src/Supervisor/Methods/Lock.antt =====
-- The lock of `actors_by_ref` in the methods of `Supervisor`.
use phactor.ActorRef.{ActorArg, ph_valid_actor_arg}
use phactor.Base.{ℕ, ◌≡◌, refl, ◌≢◌, Bool, true, false, none, some, arith, ◌==◌, Ptr, null}
use phactor.HashTable.{ph_hashtable_search, ph_hashtable_init}
use phactor.Messaging.{ph_actor_retrieve_from_object}
use phactor.PhString.{PhString, ph_str_create}
use phactor.Supervisor.{ph_supervision_tree_create}
use phactor.Supervisor.Methods.{
  already_supervisor, returned, thrown, resolve, construct, construct_for, refuse, found_supervisor,
  add_worker, add_worker_for,
}
use phactor.System.{Actor, System, Supervision, Platform, one_for_one, put_actor}
use phactor.Base.Words.{incr}
use phactor.System.Machine.{blocked, ok}

module _ {M : Type 0} where
  -- the supervision of a new supervisor
  abbrev pub new_supervision : System M → Supervision
  new_supervision s = record {
    strategy = one_for_one;
    workers = ph_hashtable_init 1;
    restart_count_streak_max = 5;
    tree_number = s.global_tree_number;
  }

module _ {M : Type 0} (platform : Platform) where
  open platform use {zend_hash_func}

  -- `addWorker` with a valid argument, on a supervisor whose ref the table does not hold any
  -- more, takes the lock, returns and does not release it: the next lookup of an actor waits
  -- for the lock.
  pub add_worker-dead :
      (fuel : ℕ) (ref ref' : PhString) (worker : ActorArg) (name : Bool × PhString) (s : System M)
      → ph_valid_actor_arg worker ≡ some name
      → s.actors_by_ref_lock ≡ false
      → ph_hashtable_search zend_hash_func s.actors_by_ref ref ≡ null
      → (t : System M) × (add_worker platform fuel ref worker s ≡ ok (returned tt) t)
        × (ph_actor_retrieve_from_object platform ref' t ≡ blocked)
  unfolding add_worker add_worker_for ph_actor_retrieve_from_object
  add_worker-dead fuel ref ref' worker name s valid free dead =
      (record s { actors_by_ref_lock = true }, rw (valid, free, dead) refl, refl)

  -- `Supervisor::__construct` with an actor that the tables lead to and that does not supervise
  -- gives it the next tree number, no workers and a limit of 5, and the lock, which was free,
  -- is free again. To do so again is refused, changes nothing and leaves the lock free.
  pub construct-construct :
      (arg : ActorArg) (name : Bool × PhString) (p : Ptr) (a : Actor M) (s : System M)
      → ph_valid_actor_arg arg ≡ some name
      → s.actors_by_ref_lock ≡ false
      → resolve platform name s ≡ p
      → p ≢ null
      → s.actors p ≡ some a
      → a.supervision ≡ none
      → (t : System M) × (construct platform arg 0 s
          ≡ ok (returned (ph_str_create a.ref.val a.ref.len)) t)
        × (t.actors p ≡ some (record a { supervision = some (new_supervision s) }))
        × (t.global_tree_number ≡ incr s.global_tree_number)
        × (t.actors_by_ref_lock ≡ false)
        × (construct platform arg 0 t ≡ ok (thrown already_supervisor) t)
  unfolding construct construct_for refuse found_supervisor ph_supervision_tree_create resolve
  construct-construct arg name p a s valid free found ne at none_yet =
      let here : (p == p) ≡ true = ground arith in
      let far : (p == null) ≡ false = ground arith in
      (
        record (put_actor p (record a { supervision = some (new_supervision s) }) s) {
          global_tree_number = incr s.global_tree_number;
          actors_by_ref_lock = false;
        },
        rw (valid, free, found, far, at, none_yet, at) refl,
        ground arith,
        refl,
        refl,
        rw (valid, found, far, here) refl,
      )

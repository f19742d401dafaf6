-- ===== src/Supervisor/Methods.antt =====
-- The methods of the class `Supervisor`: `__construct`, `addWorker` and `newWorker`.
pub mod Lock
use phactor.ActorRef.{ActorArg, Creation, ph_valid_actor_arg, ph_actor_ref_create}
use phactor.Base.{
  ℕ, zero, suc, Bool, true, false, Option, none, some, List, ◌==◌, if◌then◌else◌, Ptr, null,
}
use phactor.HashTable.{ph_hashtable_search}
use phactor.PhString.{PhString, ph_str_set, ph_str_create}
use phactor.Supervisor.{
  ph_supervision_tree_create, ph_supervisor_cycle_detection, ph_supervisor_add_worker,
}
use phactor.System.{Actor, System, Supervision, one_for_one, Platform, minus_one}
use phactor.System.Machine.{
  Cmd, ◌>>=◌, ◌>>◌, pure, get, modify, load, lock_actors_by_ref, unlock_actors_by_ref,
}
use phactor.Value.{PhpTypes, Zval, Entry, Php}

pub data Error : Type 0 where
  invalid_supervisor_given invalid_strategy invalid_supervisor already_supervisor : Error
  invalid_worker_given already_supervised cycle_detected : Error

pub data Outcome (A : Type 0) : Type 0 where
  returned : A → Outcome A
  thrown : Error → Outcome A

module _ {M : Type 0} (platform : Platform) where
  open platform use {zend_hash_func}

  -- the search by name or by ref
  unfoldable pub resolve : Bool × PhString → System M → Ptr
  resolve (using_actor_name, name) s =
      ph_hashtable_search zend_hash_func
        (if using_actor_name then s.actors_by_name else s.actors_by_ref) name

  refuse : {A : Type 0} → Error → Cmd M (Outcome A)
  refuse e = do unlock_actors_by_ref; pure (thrown e)

  found_supervisor : Ptr → Actor M → Option Supervision → Cmd M (Outcome PhString)
  unfolding refuse
  found_supervisor p a (some _) = refuse already_supervisor
  found_supervisor p a none = do
    ph_supervision_tree_create p one_for_one
    unlock_actors_by_ref
    pure (returned (ph_str_create a.ref.val a.ref.len))

  construct_for : Option (Bool × PhString) → ℕ → Cmd M (Outcome PhString)
  unfolding resolve found_supervisor
  construct_for none strategy = pure (thrown invalid_supervisor_given)
  construct_for (some name) (suc strategy) = pure (thrown invalid_strategy)
  construct_for (some name) zero = do
    lock_actors_by_ref
    s ← get
    let p = resolve name s
    if p == null
        then refuse invalid_supervisor
        else do a ← load p; found_supervisor p a a.supervision

  -- The result is the `ref` that the object keeps. The one strategy is the number 0.
  unfoldable pub construct : ActorArg → ℕ → Cmd M (Outcome PhString)
  unfolding construct_for
  construct supervisor strategy = construct_for (ph_valid_actor_arg supervisor) strategy

  join_checked : ℕ → Ptr → Ptr → Actor M → Cmd M (Outcome (Unit {0}))
  join_checked fuel supervisor worker w =
      if w.tree_number == minus_one
      then (do
        cycle ← ph_supervisor_cycle_detection fuel supervisor worker
        if cycle
            then pure (thrown cycle_detected)
            else do ph_supervisor_add_worker fuel supervisor worker; pure (returned tt))
      else pure (thrown already_supervised)

  add_worker_for : ℕ → PhString → Option (Bool × PhString) → Cmd M (Outcome (Unit {0}))
  unfolding resolve join_checked
  add_worker_for fuel ref none = pure (thrown invalid_worker_given)
  add_worker_for fuel ref (some name) = do
    lock_actors_by_ref
    s ← get
    let supervisor = ph_hashtable_search zend_hash_func s.actors_by_ref ref
    let worker = resolve name s
    -- the return for a dead supervisor, which does not unlock
    if supervisor == null then pure (returned tt) else do
      outcome ←
          (if worker == null
            then pure (thrown invalid_worker_given)
            else do w ← load worker; join_checked fuel supervisor worker w)
      unlock_actors_by_ref
      pure outcome

  -- `ref` is the one that the object keeps
  unfoldable pub add_worker : ℕ → PhString → ActorArg → Cmd M (Outcome (Unit {0}))
  unfolding add_worker_for
  add_worker fuel ref worker = add_worker_for fuel ref (ph_valid_actor_arg worker)

-- `newWorker` creates an actor under the supervisor that the object stands for.
unfoldable pub new_worker :
    {T : PhpTypes}
    → Platform
    → Php T
    → ℕ
    → Ptr
    → ℕ
    → PhString
    → List ℕ
    → List (Zval T)
    → Option (List ℕ)
    → Cmd (Entry T) Creation
new_worker platform php fuel new_actor thread_offset ref actor_class ctor_args actor_name =
    ph_actor_ref_create platform php fuel new_actor thread_offset true actor_class ctor_args
      actor_name (some ref)

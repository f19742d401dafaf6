-- ===== src/Supervisor.antt =====
-- src/classes/supervisor.h and src/classes/supervisor.c: crashes, restarts and the supervision tree.
-- Fuel bounds the depth of the recursion over the tree, and the rounds of its breadth-first loops.
pub mod Counters
pub mod Methods
pub mod Tree
pub mod Termination
pub mod Restart
pub mod Crash
pub mod Detection
pub mod Cycle
use phactor.Base.{
  ℕ, zero, suc, ◌+◌, Bool, true, false, Option, none, some, List, [], ◌∷◌, ◌++◌, ◌==◌,
  if◌then◌else◌, Ptr, null,
}
use phactor.Base.Words.{incr}
use phactor.Context.{ph_vmcontext_reset}
use phactor.HashTable.{HashTable, Bucket, ph_hashtable_init, ph_hashtable_insert_ind}
use phactor.PhString.{PhString, ph_str_create}
use phactor.Removal.{apply_workers, ph_actor_remove_from_table}
use phactor.System.{
  Actor, ActorInternal, Supervision, SupervisionStrategy, one_for_one, System, Platform, terminated,
  restarting, is_crashed, put_actor, push_task,
}
use phactor.System.Machine.{
  Cmd, fault, out_of_fuel, ◌>>=◌, ◌>>◌, pure, get, modify, load, store, load_supervision,
  supervision_from, store_workers, lock_actors_by_ref, unlock_actors_by_ref,
}
use phactor.Task.{ph_task_create_new_actor, ph_task_create_vm_stack_free}

module _ {M : Type 0} where
  -- `ph_hashtable_apply` over the workers of an actor that supervises
  unfoldable pub for_workers :
      (Ptr → Cmd M (Unit {0})) → Ptr → Option Supervision → Cmd M (Unit {0})
  unfolding apply_workers
  for_workers f actor none = pure tt
  for_workers f actor (some sv) = apply_workers f sv.workers.size 0 actor

  unfoldable pub ph_actor_terminate_workers : ℕ → Ptr → Cmd M (Unit {0})
  unfolding for_workers
  ph_actor_terminate_workers zero actor = λ _. out_of_fuel
  ph_actor_terminate_workers (suc fuel) actor = do
    a ← load actor
    store actor (record a { state = terminated })
    if is_crashed a.state
        then pure tt
        else for_workers (ph_actor_terminate_workers fuel) actor a.supervision

module _ {M : Type 0} (platform : Platform) where
  open platform use {vm_stack_header}

  -- the reset of the contexts, where the actor's object has been allocated
  unfoldable pub reset_context : Ptr → Actor M → Option ActorInternal → Cmd M (Unit {0})
  reset_context crashed_actor a none = pure tt
  reset_context crashed_actor a (some internal) = do
    modify (push_task a.thread_offset (ph_task_create_vm_stack_free internal.vmc))
    store crashed_actor (record a {
      internal = some (record internal { vmc = ph_vmcontext_reset vm_stack_header internal.vmc });
    })

  unfoldable pub ph_supervisor_one_for_one : Ptr → Cmd M (Unit {0})
  unfolding reset_context
  ph_supervisor_one_for_one crashed_actor = do
    a ← load crashed_actor
    reset_context crashed_actor a a.internal
    b ← load crashed_actor
    store crashed_actor (record b { state = restarting })
    modify (
        push_task a.thread_offset (
          ph_task_create_new_actor (ph_str_create a.ref.val a.ref.len)
            (ph_str_create a.class_name.val a.class_name.len)))

  -- `ph_supervisor_handle_crash`, given `ph_actor_crash`
  unfoldable pub handle_crash_with : (Ptr → Cmd M (Unit {0})) → Ptr → Ptr → Cmd M (Unit {0})
  unfolding ph_supervisor_one_for_one
  handle_crash_with crash supervisor crashed_actor = do
    a ← load crashed_actor
    let streak = incr a.restart_count_streak
    store crashed_actor (record a { restart_count_streak = streak })
    sv ← load_supervision supervisor
    if streak == sv.restart_count_streak_max
        then crash supervisor
        else ph_supervisor_one_for_one crashed_actor

  -- the end of `ph_actor_crash`: with a supervisor, or without
  unfoldable pub after_crash : ℕ → (Ptr → Cmd M (Unit {0})) → Ptr → Ptr → Cmd M (Unit {0})
  unfolding handle_crash_with
  after_crash fuel crash actor supervisor =
      if supervisor == null
      then (do
        lock_actors_by_ref
        ph_actor_remove_from_table platform fuel actor
        unlock_actors_by_ref)
      else handle_crash_with crash supervisor actor

  -- The state CRASHED ends a crash at once.
  unfoldable pub ph_actor_crash : ℕ → Ptr → Cmd M (Unit {0})
  unfolding ph_actor_terminate_workers after_crash
  ph_actor_crash zero actor = λ _. out_of_fuel
  ph_actor_crash (suc fuel) actor = do
    a ← load actor
    if is_crashed a.state then pure tt else do
      ph_actor_terminate_workers fuel actor
      b ← load actor
      after_crash fuel (ph_actor_crash fuel) actor b.supervisor

  unfoldable pub ph_supervisor_handle_crash : ℕ → Ptr → Ptr → Cmd M (Unit {0})
  unfolding handle_crash_with ph_actor_crash
  ph_supervisor_handle_crash fuel = handle_crash_with (ph_actor_crash fuel)

enqueue_supervisor : List Ptr → Ptr → Option Supervision → List Ptr
enqueue_supervisor queue actor none = queue
enqueue_supervisor queue actor (some sv) = queue ++ actor ∷ []

renumber_supervision : ℕ → Option Supervision → Option Supervision
renumber_supervision n none = none
renumber_supervision n (some sv) = some (record sv { tree_number = n })

module _ {M : Type 0} where
  unfoldable pub ph_supervision_tree_create : Ptr → SupervisionStrategy → Cmd M (Unit {0})
  ph_supervision_tree_create supervisor strategy = do
    a ← load supervisor
    s ← get
    store supervisor (record a {
      supervision = some (record {
        strategy = strategy;
        workers = ph_hashtable_init 1;
        restart_count_streak_max = 5;
        tree_number = s.global_tree_number;
      });
    })
    modify (λ t. record t { global_tree_number = incr t.global_tree_number })

  -- The inner loop of `ph_supervisor_cycle_detection`, which writes nothing: `none` where it meets
  -- the bad tree number, the queue otherwise.
  unfoldable pub scan_workers : ℕ → List Bucket → List Ptr → Cmd M (Option (List Ptr))
  unfolding enqueue_supervisor
  scan_workers bad_tree_number [] queue = pure (some queue)
  scan_workers bad_tree_number (b ∷ bs) queue =
      let next = λ (q : List Ptr). scan_workers bad_tree_number bs q in
      if b.value == null then next queue else do
        actor ← load b.value
        if actor.tree_number == bad_tree_number
            then pure none
            else next (enqueue_supervisor queue b.value actor.supervision)

  after_scan : (List Ptr → Cmd M Bool) → Option (List Ptr) → Cmd M Bool
  after_scan loop none = pure true
  after_scan loop (some []) = pure false
  after_scan loop (some (p ∷ queue)) = loop (p ∷ queue)

  unfoldable pub detection_loop : ℕ → ℕ → List Ptr → Cmd M Bool
  unfolding scan_workers after_scan
  detection_loop zero bad_tree_number queue = λ _. out_of_fuel
  detection_loop (suc fuel) bad_tree_number [] = λ _. fault
  detection_loop (suc fuel) bad_tree_number (worker ∷ queue) = do
    sv ← load_supervision worker
    found ← scan_workers bad_tree_number sv.workers.values queue
    after_scan (detection_loop fuel bad_tree_number) found

  unfoldable pub detect_below : ℕ → Ptr → Ptr → Option Supervision → Cmd M Bool
  unfolding detection_loop
  detect_below fuel supervisor worker none = pure false
  detect_below fuel supervisor worker (some _) = do
    sv ← load_supervision supervisor
    detection_loop fuel sv.tree_number (worker ∷ [])

  unfoldable pub ph_supervisor_cycle_detection : ℕ → Ptr → Ptr → Cmd M Bool
  unfolding detect_below
  ph_supervisor_cycle_detection fuel supervisor worker = do
    w ← load worker
    detect_below fuel supervisor worker w.supervision

  -- the inner loop of `ph_supervisor_add_worker`; its writes leave the table that it runs over
  unfoldable pub renumber_workers : ℕ → List Bucket → List Ptr → Cmd M (List Ptr)
  unfolding renumber_supervision enqueue_supervisor
  renumber_workers n [] queue = pure queue
  renumber_workers n (b ∷ bs) queue =
      let next = λ (q : List Ptr). renumber_workers n bs q in
      if b.value == null then next queue else do
        actor ← load b.value
        store b.value (record actor {
          tree_number = n;
          supervision = renumber_supervision n actor.supervision;
        })
        next (enqueue_supervisor queue b.value actor.supervision)

  unfoldable pub renumber_loop : ℕ → ℕ → List Ptr → Cmd M (Unit {0})
  unfolding renumber_workers
  renumber_loop fuel n [] = pure tt
  renumber_loop zero n (worker ∷ queue) = λ _. out_of_fuel
  renumber_loop (suc fuel) n (worker ∷ queue) = do
    sv ← load_supervision worker
    longer ← renumber_workers n sv.workers.values queue
    renumber_loop fuel n longer

  renumber_below : ℕ → ℕ → Ptr → Option Supervision → Cmd M (Unit {0})
  unfolding renumber_loop
  renumber_below fuel n worker none = pure tt
  renumber_below fuel n worker (some _) = renumber_loop fuel n (worker ∷ [])

  unfoldable pub ph_supervisor_add_worker : ℕ → Ptr → Ptr → Cmd M (Unit {0})
  unfolding renumber_below renumber_supervision
  ph_supervisor_add_worker fuel supervisor worker = do
    sv ← load_supervision supervisor
    store_workers supervisor (ph_hashtable_insert_ind sv.workers worker worker)
    w ← load worker
    store worker (record w {
      supervisor = supervisor;
      tree_number = sv.tree_number;
      supervision = renumber_supervision sv.tree_number w.supervision;
    })
    renumber_below fuel sv.tree_number worker w.supervision

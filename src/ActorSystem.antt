-- ===== src/ActorSystem.antt =====
-- src/classes/actor_system.c: the loop of a thread, the creation of an actor on its thread, and the
-- life of the system. What PHP does in between is an input: the object of a new actor, and the code of
-- constructors and destructors.
pub mod Counters
pub mod Threads
pub mod Life
use phactor.Base.{
  ℕ, zero, suc, ◌+◌, Bool, true, false, ◌||◌, Option, none, some, List, [], ◌∷◌, ◌==◌, ltb,
  if◌then◌else◌, Ptr, null,
}
use phactor.Base.Words.{incr}
use phactor.Context.{ph_vmcontext_clear}
use phactor.HashTable.{ph_hashtable_init, ph_hashtable_search}
use phactor.Messaging.{Ending, exception, Code, send_message}
use phactor.PhString.{PhString}
use phactor.Removal.{perform_actor_removals}
use phactor.Supervisor.{ph_actor_crash, ph_supervisor_one_for_one, for_workers}
use phactor.System.{Actor, ActorInternal, System, Platform, Supervision, is_restarting, update}
use phactor.System.Machine.{
  Cmd, fault, ◌>>=◌, ◌>>◌, pure, get, modify, load, store, lock_actors_by_ref, unlock_actors_by_ref,
}
use phactor.Task.{
  Task, send_message as send_task, resume_actor, new_actor as new_task, free_vm_stack,
}
use phactor.Vector.{Vector, ph_vector_init}

-- Where a thread goes after a task: into `receive` of a new actor, back into `receive_block` of an
-- actor, or on in its loop, with the VM pages that it freed.
pub data Next : Type 0 where
  starts resumes : Ptr → Next
  goes_on : List Ptr → Next

module _ {M : Type 0} (platform : Platform) where
  open platform use {zend_hash_func}

  -- `ph_hashtable_apply(&new_actor->supervision->workers, ph_supervisor_one_for_one)`
  restart_workers : Ptr → Actor M → Cmd M (Unit {0})
  restart_workers p a =
      if is_restarting a.state
      then for_workers (ph_supervisor_one_for_one platform) p a.supervision
      else pure tt

  -- after the constructor, if the class has one; the result NULL stops the actor's start
  constructed : ℕ → Ptr → Option Ending → Cmd M Ptr
  unfolding restart_workers
  constructed fuel p (some exception) = do ph_actor_crash platform fuel p; pure null
  constructed fuel p _ = do a ← load p; restart_workers p a; pure p

  -- `object` is `none` where `object_init_ex` fails
  unfoldable pub new_actor : ℕ → PhString → Option ActorInternal → Code M → Cmd M Ptr
  unfolding constructed
  new_actor fuel actor_ref none code = pure null
  new_actor fuel actor_ref (some object) code = do
    lock_actors_by_ref
    s ← get
    let p = ph_hashtable_search zend_hash_func s.actors_by_ref actor_ref
    if p == null then (do unlock_actors_by_ref; pure null) else do
      a ← load p
      store p (record a { internal = some (record object { ref = a.ref }) })
      unlock_actors_by_ref
      ending ← code.construct p
      constructed fuel p ending

  assert_internal : Ptr → Option ActorInternal → Cmd M Next
  assert_internal p none = λ _. fault
  assert_internal p (some _) = pure (resumes p)

  -- the switch of `message_handling_loop`; a failing `assert` is a fault
  unfoldable pub handle_task : ℕ → Task M → Option ActorInternal → Code M → Cmd M Next
  unfolding new_actor assert_internal
  handle_task fuel (send_task t) object code = do send_message platform t; pure (goes_on [])
  handle_task fuel (resume_actor ref) object code = do
    lock_actors_by_ref
    s ← get
    unlock_actors_by_ref
    let p = ph_hashtable_search zend_hash_func s.actors_by_ref ref
    if p == null then (λ _. fault) else do a ← load p; assert_internal p a.internal
  handle_task fuel (new_task ref class_name) object code = do
    p ← new_actor fuel ref object code
    pure (if p == null then goes_on [] else starts p)
  handle_task fuel (free_vm_stack pages) object code = pure (goes_on (ph_vmcontext_clear pages))

  -- One round of the loop of the thread at `offset`: `none` where it ends.
  round_with : ℕ → ℕ → Option ActorInternal → Code M → List (Task M) → Cmd M (Option Next)
  unfolding handle_task
  round_with fuel offset object code [] = do
    s ← get
    pure (if s.shutdown then none else some (goes_on []))
  round_with fuel offset object code (task ∷ tasks) = do
    modify (λ s. record s { threads = update s.threads offset tasks })
    next ← handle_task fuel task object code
    pure (some next)

  unfoldable pub message_handling_round :
      ℕ → ℕ → Option ActorInternal → Code M → Cmd M (Option Next)
  unfolding round_with
  message_handling_round fuel offset object code = do
    perform_actor_removals code.destruct offset
    s ← get
    round_with fuel offset object code (s.threads offset)

pub data Construction : Type 0 where
  invalid_thread_count already_created created waits : Construction

module _ {M : Type 0} where
  -- `phactor_actor_system_ctor`, on memory that `ecalloc` cleared. `processors` is what `sysconf`
  -- returns.
  unfoldable pub phactor_actor_system_ctor : ℕ → System M
  phactor_actor_system_ctor processors = record {
    initialised = false;
    shutdown = false;
    actors_by_ref_lock = false;
    actors_by_ref = ph_hashtable_init 64;
    actors_by_name = ph_hashtable_init 64;
    thread_count = processors + 10;
    prepared_thread_count = 0;
    finished_thread_count = 0;
    threads = λ _. [];
    actor_removals = λ _. record { values = []; size = 0; used = 0 };
    actors = λ _. none;
    global_tree_number = 0;
    global_actor_id = 0;
  }

  -- `initialise_actor_system` up to the loop in which it waits
  unfoldable pub create_threads : ℕ → System M → System M
  create_threads thread_count s = record s {
    thread_count = thread_count;
    actor_removals = λ i.
        if ltb i thread_count then ph_vector_init 4 else record { values = []; size = 0; used = 0 };
    threads = λ _. [];
  }

  -- `prepared` is the count of prepared threads when the loop tests it. Where the test fails, it goes
  -- on waiting.
  unfoldable pub initialise_actor_system : ℕ → ℕ → System M → Construction × System M
  unfolding create_threads
  initialise_actor_system thread_count prepared s =
      let t = record (create_threads thread_count s) { prepared_thread_count = prepared } in
      if thread_count == prepared then (created, record t { initialised = true }) else (waits, t)

  unfoldable pub force_shutdown_actor_system : System M → System M
  force_shutdown_actor_system s = record s { shutdown = true }

  -- `ActorSystem::__construct`, with the number given or the default; a number is not negative
  unfoldable pub construct : Option ℕ → ℕ → System M → Construction × System M
  unfolding initialise_actor_system
  construct given prepared s =
      let thread_count = chosen given s.thread_count in
      if ltb thread_count 1 || ltb 1024 thread_count
      then (invalid_thread_count, s)
      else if s.initialised
      then (already_created, record s { shutdown = true })
      else initialise_actor_system thread_count prepared s
    where
      chosen : Option ℕ → ℕ → ℕ
      chosen none default = default
      chosen (some n) default = n

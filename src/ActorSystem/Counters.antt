-- ===== src/ActorSystem/Counters.antt =====
-- What a thread does in `message_handling_loop` of src/classes/actor_system.c changes none of the
-- counters and flags of `System.Counters`.
use phactor.ActorSystem.{
  resumes, goes_on, restart_workers, constructed, new_actor, assert_internal, handle_task,
  round_with, message_handling_round,
}
use phactor.Base.{
  ℕ, Option, none, some, List, [], ◌∷◌, ◌++◌, length, arith, ◌==◌, if◌then◌else◌, Ptr, null,
}
use phactor.HashTable.{ph_hashtable_search}
use phactor.Messaging.{
  Ending, returned, exception, Code, wake, ph_task_create_resume_actor, send_local_message,
  send_message,
}
use phactor.PhString.{PhString}
use phactor.Supervisor.{ph_supervisor_one_for_one}
use phactor.System.{Actor, ActorInternal, Platform, is_restarting, is_idle, update}
use phactor.System.Counters.{
  IsSteady, bind-IsSteady, pure-IsSteady, get-IsSteady, modify-IsSteady, if-IsSteady, load-IsSteady,
  store-IsSteady, lock-IsSteady, unlock-IsSteady, fault-IsSteady, steady_commands,
}
use phactor.System.Machine.{◌>>=◌, ◌>>◌, pure, load}
use phactor.Task.{
  Task, SendMessageTask, ph_msg_create, send_message as send_task, resume_actor,
  new_actor as new_task, free_vm_stack,
}
use phactor.System.Counters.{Steps}
use phactor.Removal.Counters.{perform_actor_removals-IsSteady}
use phactor.Supervisor.Counters.{
  for_workers-IsSteady, push_task-IsSteady, one_for_one-IsSteady, crash-IsSteady,
}

module _ {M : Type 0} where
  create_resume-IsSteady :
      (o : Option ActorInternal) → IsSteady {M = M} (ph_task_create_resume_actor o)
  unfolding ph_task_create_resume_actor
  create_resume-IsSteady none = fault-IsSteady
  create_resume-IsSteady (some i) = pure-IsSteady _

  wake-IsSteady : Steps {M = M} wake
  unfolding wake
  wake-IsSteady p = bind-IsSteady (load-IsSteady p) (λ a.
      bind-IsSteady (create_resume-IsSteady a.internal)
        (λ task. push_task-IsSteady a.thread_offset task))

  send_local_message-IsSteady :
      (p : Ptr) (task : SendMessageTask M) → IsSteady (send_local_message p task)
  unfolding send_local_message
  send_local_message-IsSteady p task = bind-IsSteady (load-IsSteady p) (λ a.
      let mailbox = a.mailbox ++ ph_msg_create task.from_actor_ref task.message ∷ [] in
      bind-IsSteady (store-IsSteady p (record a { mailbox = mailbox })) (λ _.
        if-IsSteady (is_idle a.state)
          (if-IsSteady (length mailbox == 1) (wake-IsSteady p) (pure-IsSteady tt))
          (pure-IsSteady tt)))

-- The PHP code changes none of them.
pub record IsSteadyCode {M : Type 0} (code : Code M) : Type 0 where
  pub constructs : (p : Ptr) → IsSteady (code.construct p)
  pub destructs : Steps code.destruct

module _ {M : Type 0} (platform : Platform) where
  open platform use {zend_hash_func}

  restart_workers-IsSteady : (p : Ptr) (a : Actor M) → IsSteady (restart_workers platform p a)
  unfolding restart_workers
  restart_workers-IsSteady p a =
      if-IsSteady (is_restarting a.state)
        (for_workers-IsSteady (ph_supervisor_one_for_one platform) (one_for_one-IsSteady platform) p
          a.supervision)
        (pure-IsSteady tt)

  started-IsSteady :
      (p : Ptr) → IsSteady {M = M} (do a ← load p; restart_workers platform p a; pure p)
  started-IsSteady p =
      bind-IsSteady (load-IsSteady p)
        (λ a. bind-IsSteady (restart_workers-IsSteady p a) (λ _. pure-IsSteady p))

  constructed-IsSteady :
      (fuel : ℕ) (p : Ptr) (o : Option Ending) → IsSteady {M = M} (constructed platform fuel p o)
  unfolding constructed
  constructed-IsSteady fuel p none = started-IsSteady p
  constructed-IsSteady fuel p (some returned) = started-IsSteady p
  constructed-IsSteady fuel p (some exception) =
      bind-IsSteady (crash-IsSteady platform fuel p) (λ _. pure-IsSteady null)

  new_actor-IsSteady :
      (fuel : ℕ) (ref : PhString) (object : Option ActorInternal) (code : Code M)
      → IsSteadyCode code
      → IsSteady {M = M} (new_actor platform fuel ref object code)
  unfolding new_actor
  new_actor-IsSteady fuel ref none code k = pure-IsSteady null
  new_actor-IsSteady fuel ref (some object) code k = bind-IsSteady lock-IsSteady (λ _.
      bind-IsSteady get-IsSteady (λ s.
        let p = ph_hashtable_search zend_hash_func s.actors_by_ref ref in
        if-IsSteady (p == null) (search steady_commands)
          (search (steady_commands, constructed-IsSteady, k.constructs))))

  send_message-IsSteady : (task : SendMessageTask M) → IsSteady (send_message platform task)
  unfolding send_message
  send_message-IsSteady task = bind-IsSteady lock-IsSteady (λ _. bind-IsSteady get-IsSteady (λ s.
      let actor =
        ph_hashtable_search zend_hash_func
          (if task.using_actor_name then s.actors_by_name else s.actors_by_ref)
          task.to_actor_name in
      bind-IsSteady
        (if-IsSteady (actor == null) (pure-IsSteady tt) (send_local_message-IsSteady actor task))
        (λ _. unlock-IsSteady)))

  assert_internal-IsSteady :
      (p : Ptr) (o : Option ActorInternal) → IsSteady {M = M} (assert_internal platform p o)
  unfolding assert_internal
  assert_internal-IsSteady p none = fault-IsSteady
  assert_internal-IsSteady p (some i) = pure-IsSteady (resumes p)

  handle_task-IsSteady :
      (fuel : ℕ) (task : Task M) (object : Option ActorInternal) (code : Code M)
      → IsSteadyCode code
      → IsSteady (handle_task platform fuel task object code)
  unfolding handle_task
  handle_task-IsSteady fuel (send_task t) object code k =
      bind-IsSteady (send_message-IsSteady t) (λ _. pure-IsSteady (goes_on []))
  handle_task-IsSteady fuel (resume_actor ref) object code k = bind-IsSteady lock-IsSteady (λ _.
      bind-IsSteady get-IsSteady (λ s. bind-IsSteady unlock-IsSteady (λ _.
        let p = ph_hashtable_search zend_hash_func s.actors_by_ref ref in
        if-IsSteady (p == null) fault-IsSteady
          (bind-IsSteady (load-IsSteady p) (λ a. assert_internal-IsSteady p a.internal)))))
  handle_task-IsSteady fuel (new_task ref class_name) object code k =
      bind-IsSteady (new_actor-IsSteady fuel ref object code k) (λ p. pure-IsSteady _)
  handle_task-IsSteady fuel (free_vm_stack pages) object code k = pure-IsSteady _

  round_with-IsSteady :
      (fuel offset : ℕ) (object : Option ActorInternal) (code : Code M) (l : List (Task M))
      → IsSteadyCode code
      → IsSteady (round_with platform fuel offset object code l)
  unfolding round_with
  round_with-IsSteady fuel offset object code [] k = search steady_commands
  round_with-IsSteady fuel offset object code (task ∷ tasks) k =
      bind-IsSteady
        (modify-IsSteady (λ s. record s { threads = update s.threads offset tasks })
          (λ s. ground arith))
        (λ _.
          bind-IsSteady (handle_task-IsSteady fuel task object code k)
            (λ next. pure-IsSteady (some next)))

  -- Where a round of a thread's loop returns, and the PHP code that it runs leaves the flag
  -- `initialised` and the three counts of threads as they were, so does the round.
  pub round-IsSteady :
      (fuel offset : ℕ) (object : Option ActorInternal) (code : Code M)
      → IsSteadyCode code
      → IsSteady {M = M} (message_handling_round platform fuel offset object code)
  unfolding message_handling_round
  round-IsSteady fuel offset object code k =
      bind-IsSteady (perform_actor_removals-IsSteady code.destruct k.destructs offset) (λ _.
        bind-IsSteady get-IsSteady
          (λ s. round_with-IsSteady fuel offset object code (s.threads offset) k))

-- ===== src/Messaging.antt =====
-- src/classes/actor.c and src/classes/actor_system.c, the life of an actor: its creation, sending
-- and receiving. `receive_block` gives up the thread in its middle, so it is two functions, up to
-- the context switch and after it; so is the call of `receive`, whose end is
-- `process_message_handler`'s. The switches themselves are of src/ph_context_switch.S.
pub mod WakeUp
pub mod Delivery
use phactor.Base.{
  ℕ, zero, suc, Bool, true, false, Option, none, some, List, [], ◌∷◌, ◌++◌, ◌==◌, if◌then◌else◌,
  Ptr, null, length,
}
use phactor.HashTable.{ph_hashtable_init, ph_hashtable_search}
use phactor.PhString.{PhString, ph_str_create}
use phactor.Removal.{ph_actor_remove_from_table}
use phactor.Supervisor.{ph_actor_crash}
use phactor.System.{
  Actor, ActorInternal, System, Platform, spawning, idle, active, is_idle, is_active,
  is_constructing, minus_one, push_task,
}
use phactor.System.Machine.{
  Cmd, fault, ◌>>=◌, ◌>>◌, pure, get, modify, load, store, lock_actors_by_ref, unlock_actors_by_ref,
}
use phactor.Task.{Message, SendMessageTask, Task, ph_msg_create, resume_task}

-- `ph_actor_create`, over memory that `calloc` cleared
unfoldable pub ph_actor_create :
    {M : Type 0} → Option PhString → PhString → PhString → List M → Actor M
ph_actor_create name ref class_name ctor_args = record {
  name = name;
  ref = ref;
  mailbox = [];
  class_name = class_name;
  ctor_args = ctor_args;
  thread_offset = 0;
  state = spawning;
  restart_count_streak = 0;
  tree_number = minus_one;
  supervisor = null;
  supervision = none;
  internal = none;
}

-- What `receive_block` does before it gives up the thread: throw, return at once, or wait.
pub data Blocking : Type 0 where
  throws returns waits : Blocking

module _ {M : Type 0} where
  -- the ref is read through the actor's object
  unfoldable pub ph_task_create_resume_actor : Option ActorInternal → Cmd M (Task M)
  ph_task_create_resume_actor none = λ _. fault
  ph_task_create_resume_actor (some internal) = pure (resume_task internal.ref)

  -- the resume task for an actor that is idle with a message in its mailbox
  unfoldable pub wake : Ptr → Cmd M (Unit {0})
  unfolding ph_task_create_resume_actor
  wake p = do
    a ← load p
    task ← ph_task_create_resume_actor a.internal
    modify (push_task a.thread_offset task)

  unfoldable pub send_local_message : Ptr → SendMessageTask M → Cmd M (Unit {0})
  unfolding wake
  send_local_message to_actor task = do
    a ← load to_actor
    let mailbox = a.mailbox ++ ph_msg_create task.from_actor_ref task.message ∷ []
    store to_actor (record a { mailbox = mailbox })
    if is_idle a.state then (if length mailbox == 1 then wake to_actor else pure tt) else pure tt

  unfoldable pub receive_block : Ptr → Cmd M Blocking
  unfolding wake
  receive_block actor = do
    a ← load actor
    if is_constructing a.state
        then pure throws
        else if is_active a.state
        then (do
          store actor (record a { state = idle; restart_count_streak = 0 })
          (if length a.mailbox == 0 then pure tt else wake actor)
          pure waits)
        else pure returns

  take_message : Ptr → Actor M → List (Message M) → Cmd M (Message M)
  take_message actor a [] = λ _. fault
  take_message actor a (m ∷ mailbox) = do
    store actor (record a { mailbox = mailbox; state = active })
    pure m

  -- `receive_block` after the switch back: it reads through the message that the mailbox gives
  unfoldable pub receive_block_resumed : Ptr → Cmd M (Message M)
  unfolding take_message
  receive_block_resumed actor = do a ← load actor; take_message actor a a.mailbox

  enter : Ptr → Actor M → Option ActorInternal → Cmd M (Unit {0})
  enter actor a none = λ _. fault
  enter actor a (some internal) = store actor (record a { state = active })

  -- `process_message`, which switches to the context in the actor's object, and
  -- `process_message_handler` up to the call of `receive`
  unfoldable pub process_message : Ptr → Cmd M (Unit {0})
  unfolding enter
  process_message actor = do a ← load actor; enter actor a a.internal

-- How a call of PHP code ended.
pub data Ending : Type 0 where
  returned exception : Ending

-- The PHP code that a thread runs within a round of its loop: the constructor of an actor, `none`
-- where its class has none, and what the destruction of its object runs. It may call any method.
pub record Code (M : Type 0) : Type 0 where
  pub construct : Ptr → Cmd M (Option Ending)
  pub destruct : Ptr → Cmd M (Unit {0})

module _ {M : Type 0} (platform : Platform) where
  open platform use {zend_hash_func}

  unfoldable pub send_message : SendMessageTask M → Cmd M (Unit {0})
  unfolding send_local_message
  send_message task = do
    lock_actors_by_ref
    s ← get
    let actor =
        ph_hashtable_search zend_hash_func
          (if task.using_actor_name then s.actors_by_name else s.actors_by_ref) task.to_actor_name
    if actor == null then pure tt else send_local_message actor task
    unlock_actors_by_ref

  unfoldable pub ph_actor_retrieve_from_object : PhString → Cmd M Ptr
  ph_actor_retrieve_from_object ref = do
    lock_actors_by_ref
    s ← get
    unlock_actors_by_ref
    pure (ph_hashtable_search zend_hash_func s.actors_by_ref ref)

  -- `process_message_handler` after the call of `receive`
  unfoldable pub process_message_handler : ℕ → Ptr → Ending → Cmd M (Unit {0})
  process_message_handler fuel actor exception = ph_actor_crash platform fuel actor
  process_message_handler fuel actor returned = do
    lock_actors_by_ref
    ph_actor_remove_from_table platform fuel actor
    unlock_actors_by_ref

-- ===== src/Send.antt =====
-- `Actor::send` of src/classes/actor.c: it makes a task for the main thread, which delivers the
-- message by `send_message`.
pub mod Delivered
use phactor.ActorRef.{ActorArg, ph_valid_actor_arg}
use phactor.Base.{Bool, Option, none, some, ◌==◌, if◌then◌else◌, Ptr, null}
use phactor.Messaging.{ph_actor_retrieve_from_object}
use phactor.PhString.{PhString, ph_str_create}
use phactor.System.{Actor, ActorInternal, Platform, push_task}
use phactor.System.Machine.{Cmd, fault, ◌>>=◌, ◌>>◌, pure, get, modify, load}
use phactor.Task.{Task, ph_task_create_send_message}
use phactor.Value.{PhpTypes, Zval, Entry, Php}

pub data Sent : Type 0 where
  sent invalid_recipient no_sender message_not_serialised : Sent

module _ {T : PhpTypes} (platform : Platform) (php : Php T) where
  -- the queue of the main thread, which stands behind those of the workers
  queue_for_main : Option (Task (Entry T)) → Cmd (Entry T) Sent
  queue_for_main none = pure message_not_serialised
  queue_for_main (some task) = do s ← get; modify (push_task s.thread_count task); pure sent

  send_from : Bool × PhString → Zval T → Option ActorInternal → Cmd (Entry T) Sent
  unfolding queue_for_main
  send_from (using_actor_name, to_actor_name) message none = λ _. fault
  send_from (using_actor_name, to_actor_name) message (some internal) = queue_for_main (
      ph_task_create_send_message php (ph_str_create internal.ref.val internal.ref.len)
        to_actor_name using_actor_name message)

  send_to : PhString → Zval T → Option (Bool × PhString) → Cmd (Entry T) Sent
  unfolding send_from
  send_to this message none = pure invalid_recipient
  send_to this message (some name) = do
    from_actor ← ph_actor_retrieve_from_object platform this
    if from_actor == null
        then pure no_sender
        else do a ← load from_actor; send_from name message a.internal

  -- `this` is the ref in the sender's object
  unfoldable pub send : PhString → ActorArg → Zval T → Cmd (Entry T) Sent
  unfolding send_to
  send this to_actor message = send_to this message (ph_valid_actor_arg to_actor)

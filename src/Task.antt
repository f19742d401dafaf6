-- ===== src/Task.antt =====
-- src/ph_task.h, src/ph_task.c, src/ph_message.h and src/ph_message.c: what threads and mailboxes
-- queue. `M` is the type of the copied values, `ph_entry_t`. A string that a task takes over is
-- that string; one that it copies is a new one with the same bytes.
use phactor.Base.{Bool, Option, none, some, List, Ptr}
use phactor.Context.{VmContext}
use phactor.PhString.{PhString, ph_str_create}
use phactor.Value.{PhpTypes, Zval, Entry, Php, ph_entry_convert_from_zval}

pub record Message (M : Type 0) : Type 0 where
  pub from_actor_ref : PhString
  pub message : M

unfoldable pub ph_msg_create : {M : Type 0} → PhString → M → Message M
ph_msg_create from_actor_ref message = record { from_actor_ref = from_actor_ref; message = message }

pub record SendMessageTask (M : Type 0) : Type 0 where
  pub from_actor_ref : PhString
  pub to_actor_name : PhString
  pub message : M
  pub using_actor_name : Bool

-- A VM stack is its pages.
pub data Task (M : Type 0) : Type 0 where
  send_message : SendMessageTask M → Task M
  resume_actor : PhString → Task M
  new_actor : PhString → PhString → Task M
  free_vm_stack : List Ptr → Task M

make_send_message : {M : Type 0} → PhString → PhString → Bool → Option M → Option (Task M)
make_send_message from_actor_ref to_actor_name using_actor_name none = none
make_send_message from_actor_ref to_actor_name using_actor_name (some message) = some (
    send_message (record {
      from_actor_ref = from_actor_ref;
      to_actor_name = to_actor_name;
      message = message;
      using_actor_name = using_actor_name;
    }))

-- `none` where the message cannot be serialised
unfoldable pub ph_task_create_send_message :
    {T : PhpTypes} → Php T → PhString → PhString → Bool → Zval T → Option (Task (Entry T))
unfolding make_send_message
ph_task_create_send_message php from_actor_ref to_actor_name using_actor_name message =
    make_send_message from_actor_ref to_actor_name using_actor_name
      (ph_entry_convert_from_zval php message)

-- the task for a ref, which it copies
unfoldable pub resume_task : {M : Type 0} → PhString → Task M
resume_task ref = resume_actor (ph_str_create ref.val ref.len)

unfoldable pub ph_task_create_new_actor : {M : Type 0} → PhString → PhString → Task M
ph_task_create_new_actor actor_ref actor_class = new_actor actor_ref actor_class

unfoldable pub ph_task_create_vm_stack_free : {M : Type 0} → VmContext → Task M
ph_task_create_vm_stack_free vmc = free_vm_stack vmc.vm_stack

-- ===== src/Memory.antt =====
-- The blocks of `malloc` that strings, entries, tasks and messages hold, and the functions that free
-- them: src/ph_string.c, src/ph_entry.c, src/ph_task.c and src/ph_message.c, with what `Actor::send`
-- of src/classes/actor.c and `message_handling_loop` of src/classes/actor_system.c free. A string is
-- the address of its buffer. What the blocks contain is in the modules PhString, Value and Task.
pub mod Release
pub mod Delivery
pub mod Lost
use phactor.Base.{
  Bool, true, false, Option, none, some, List, [], ◌∷◌, ◌==◌, if◌then◌else◌, Ptr, null,
}
use phactor.Value.{PhpTypes, Zval, Entry, Php}
use phactor.Value.{ph_entry_convert_from_zval}

-- A command on the list of the blocks in use. `none` is a free of a block that is not in use.
abbrev pub Heap : Type 0 → Type 0
Heap A = List Ptr → Option (A × List Ptr)

abbrev pub and_then : {A B : Type 0} → Option (A × List Ptr) → (A → Heap B) → Option (B × List Ptr)
and_then none f = none
and_then (some (a, live)) f = f a live

infixl 5 ◌>>=◌ ◌>>◌
abbrev pub ◌>>=◌ : {A B : Type 0} → Heap A → (A → Heap B) → Heap B
m >>= f = λ live. and_then (m live) f

abbrev pub ◌>>◌ : {A B : Type 0} → Heap A → Heap B → Heap B
m >> n = m >>= λ _. n

abbrev pub pure : {A : Type 0} → A → Heap A
pure a = λ live. some (a, live)

-- the list without a block
unfoldable pub release : Ptr → Heap (Unit {0})
release p [] = none
release p (q ∷ live) =
    let rest = release p live in
    if p == q then some (tt, live) else and_then rest λ _ live'. some (tt, q ∷ live')

unfoldable pub free : Ptr → Heap (Unit {0})
unfolding release
free p = if p == null then pure tt else release p

unfoldable pub ph_str_value_free : Ptr → Heap (Unit {0})
unfolding free
ph_str_value_free val = free val

-- an entry in a block of its own, with the buffer of its string or op array
pub record HeapEntry (T : PhpTypes) : Type 0 where
  pub block : Ptr
  pub entry : Entry T
  pub buffer : Ptr

pub record HeapMessage (T : PhpTypes) : Type 0 where
  pub block : Ptr
  pub from_actor_ref : Ptr
  pub message : HeapEntry T

-- each with its block
pub data HeapTask (T : PhpTypes) : Type 0 where
  send_message : Ptr → Ptr → Ptr → HeapEntry T → HeapTask T
  resume_actor : Ptr → Ptr → HeapTask T
  new_actor : Ptr → Ptr → Ptr → HeapTask T
  free_vm_stack : Ptr → HeapTask T

module _ {T : PhpTypes} where
  -- The switch has no case for `IS_OBJECT`.
  unfoldable pub ph_entry_value_free : Entry T → Ptr → Heap (Unit {0})
  unfolding free ph_str_value_free
  ph_entry_value_free (Entry.store_func f) buffer = free buffer
  ph_entry_value_free (Entry.array s) buffer = ph_str_value_free buffer
  ph_entry_value_free (Entry.string s) buffer = ph_str_value_free buffer
  ph_entry_value_free _ buffer = pure tt

  unfoldable pub ph_entry_free : HeapEntry T → Heap (Unit {0})
  unfolding ph_entry_value_free free
  ph_entry_free e = do ph_entry_value_free e.entry e.buffer; free e.block

  unfoldable pub ph_msg_free : HeapMessage T → Heap (Unit {0})
  unfolding ph_entry_free
  ph_msg_free message = do
    ph_str_value_free message.from_actor_ref
    ph_entry_free message.message
    free message.block

  unfoldable pub ph_task_free : HeapTask T → Heap (Unit {0})
  unfolding ph_entry_free
  ph_task_free (send_message block from_actor_ref to_actor_name message) = do
    ph_entry_free message
    free block
  ph_task_free (new_actor block actor_ref actor_class) = do
    ph_str_value_free actor_ref
    ph_str_value_free actor_class
    free block
  ph_task_free (resume_actor block actor_ref) = do ph_str_value_free actor_ref; free block
  ph_task_free (free_vm_stack block) = free block

module _ {T : PhpTypes} (malloc_of : List Ptr → Ptr) (php : Php T) where
  -- the buffer of a new block
  abbrev pub malloc : Heap Ptr
  malloc live = let p = malloc_of live in some (p, p ∷ live)

  -- what the conversion allocates for the entry that it makes
  unfoldable pub allocate_buffer : Entry T → Heap Ptr
  allocate_buffer (Entry.store_func f) = malloc
  allocate_buffer (Entry.array s) = malloc
  allocate_buffer (Entry.string s) = malloc
  allocate_buffer (Entry.object s) = malloc
  allocate_buffer _ = pure null

  fill_entry : Ptr → Option (Entry T) → Heap (Option (HeapEntry T))
  unfolding free allocate_buffer
  fill_entry block none = do free block; pure none
  fill_entry block (some e) = do
    buffer ← allocate_buffer e
    pure (some (record { block = block; entry = e; buffer = buffer }))

  unfoldable pub ph_entry_create_from_zval : Zval T → Heap (Option (HeapEntry T))
  unfolding fill_entry
  ph_entry_create_from_zval value = do
    block ← malloc
    fill_entry block (ph_entry_convert_from_zval php value)

  task_of : Ptr → Ptr → Ptr → Option (HeapEntry T) → Heap (Option (HeapTask T))
  unfolding free
  task_of block from_actor_ref to_actor_name none = do free block; pure none
  task_of block from_actor_ref to_actor_name (some message) =
      pure (some (send_message block from_actor_ref to_actor_name message))

  unfoldable pub ph_task_create_send_message : Ptr → Ptr → Zval T → Heap (Option (HeapTask T))
  unfolding ph_entry_create_from_zval task_of
  ph_task_create_send_message from_actor_ref to_actor_name message = do
    block ← malloc
    e ← ph_entry_create_from_zval message
    task_of block from_actor_ref to_actor_name e

  unfoldable pub ph_task_create_resume_actor : Heap (HeapTask T)
  ph_task_create_resume_actor = do
    block ← malloc
    actor_ref ← malloc
    pure (resume_actor block actor_ref)

  unfoldable pub ph_msg_create : Ptr → HeapEntry T → Heap (HeapMessage T)
  ph_msg_create from_actor_ref message = do
    block ← malloc
    pure (record { block = block; from_actor_ref = from_actor_ref; message = message })

  task_or_failure : Ptr → Ptr → Option (HeapTask T) → Heap (Option (HeapTask T))
  unfolding ph_str_value_free
  task_or_failure from_actor_ref to_actor_name none = do
    ph_str_value_free from_actor_ref
    ph_str_value_free to_actor_name
    pure none
  task_or_failure from_actor_ref to_actor_name (some task) = pure (some task)

  -- `Actor::send` to a valid recipient, whose name `ph_valid_actor_arg` has copied; `has_sender` is
  -- whether the table has the sender
  unfoldable pub send : Bool → Zval T → Heap (Option (HeapTask T))
  unfolding ph_task_create_send_message task_or_failure
  send has_sender message = do
    to_actor_name ← malloc
    if has_sender
        then (do
          from_actor_ref ← malloc
          task ← ph_task_create_send_message from_actor_ref to_actor_name message
          task_or_failure from_actor_ref to_actor_name task)
        else pure none

  -- what a task leaves: the message in a mailbox, and the task that wakes its actor
  pub record Handled : Type 0 where
    pub message : Option (HeapMessage T)
    pub task : Option (HeapTask T)

  unfoldable pub send_local_message : Bool → Ptr → HeapEntry T → Heap Handled
  unfolding ph_msg_create ph_task_create_resume_actor
  send_local_message wakes from_actor_ref entry = do
    message ← ph_msg_create from_actor_ref entry
    if wakes
        then (do
          task ← ph_task_create_resume_actor
          pure (record { message = some message; task = some task }))
        else pure (record { message = some message; task = none })

  -- a task in `message_handling_loop`; `found` is whether the table has the recipient, and `wakes`
  -- whether it waits for the message
  unfoldable pub handle_task : Bool → Bool → HeapTask T → Heap Handled
  unfolding send_local_message ph_str_value_free free
  handle_task found wakes (send_message block from_actor_ref to_actor_name message) = do
    handled ←
        (if found
          then send_local_message wakes from_actor_ref message
          else pure (record { message = none; task = none }))
    ph_str_value_free to_actor_name
    free block
    pure handled
  handle_task found wakes (resume_actor block actor_ref) = do
    ph_str_value_free actor_ref
    free block
    pure (record { message = none; task = none })
  handle_task found wakes (new_actor block actor_ref actor_class) = do
    free block
    pure (record { message = none; task = none })
  handle_task found wakes (free_vm_stack block) = do
    free block
    pure (record { message = none; task = none })

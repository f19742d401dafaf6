-- ===== src/Memory/Delivery.antt =====
-- What is left in memory of a message, from `Actor::send` to its receipt.
use phactor.Base.{
  ℕ, ◌≡◌, refl, Bool, true, false, Option, none, some, List, [], ◌∷◌, ◌++◌, Ptr, null, map,
}
use phactor.Memory.{
  Heap, ◌>>=◌, ◌>>◌, pure, free, ph_str_value_free, HeapMessage, HeapTask, ph_task_free,
  send_message, ph_entry_value_free, ph_msg_free, malloc, allocate_buffer, fill_entry,
  ph_entry_create_from_zval, task_of, ph_task_create_send_message, ph_task_create_resume_actor,
  ph_msg_create, task_or_failure, send, send_local_message, handle_task,
}
use phactor.Memory.Release.{IsMalloc, grown, block, all_later, free-block}
use phactor.Value.{PhpTypes, Zval, Entry, Php, ph_entry_convert_from_zval}

-- What becomes of a message: its task is destroyed with the queue of the main thread, the main thread
-- does not find the recipient, or the message is received, by an actor that it has to wake_up or not.
pub data Fate : Type 0 where
  destroyed not_found : Fate
  received : Bool → Fate

module _ {T : PhpTypes} where
  -- the buffer of an entry, where it has one, and where `ph_entry_value_free` does not free it
  unfoldable pub buffers : Entry T → Ptr → List Ptr
  buffers (Entry.store_func f) buffer = buffer ∷ []
  buffers (Entry.array s) buffer = buffer ∷ []
  buffers (Entry.string s) buffer = buffer ∷ []
  buffers (Entry.object s) buffer = buffer ∷ []
  buffers _ buffer = []

  unfoldable pub kept_buffers : Entry T → Ptr → List Ptr
  kept_buffers (Entry.object s) buffer = buffer ∷ []
  kept_buffers _ buffer = []

module _ {T : PhpTypes} (malloc_of : List Ptr → Ptr) (php : Php T) where
  -- the thread of the recipient, where a task wakes it
  unfoldable pub wake_up : Option (HeapTask T) → Heap (Unit {0})
  wake_up none = pure tt
  wake_up (some task) = do _ ← handle_task malloc_of php false false task; pure tt

  unfoldable pub receive : Option (HeapMessage T) → Heap (Unit {0})
  receive none = pure tt
  receive (some message) = ph_msg_free message

  unfoldable pub handle : Bool → Bool → HeapTask T → Heap (Unit {0})
  unfolding wake_up receive
  handle found wakes task = do
    handled ← handle_task malloc_of php found wakes task
    wake_up handled.task
    receive handled.message

  unfoldable pub meet : Fate → Option (HeapTask T) → Heap (Unit {0})
  unfolding handle
  meet fate none = pure tt
  meet destroyed (some task) = ph_task_free task
  meet not_found (some task) = handle false false task
  meet (received wakes) (some task) = handle true wakes task

  -- `Actor::send`, and then what the task meets
  unfoldable pub send_and_meet : Bool → Fate → Zval T → Heap (Unit {0})
  unfolding meet
  send_and_meet has_sender fate value = do
    task ← send malloc_of php has_sender value
    meet fate task

  -- Whether the conversion allocates a buffer for an entry, and `ph_entry_value_free` frees it.
  pub data Kind (e : Entry T) : Type 0 where
    freed :
        allocate_buffer malloc_of php e ≡ malloc malloc_of php
        → ph_entry_value_free e ≡ free
        → ((p : Ptr) → buffers e p ≡ p ∷ [])
        → ((p : Ptr) → kept_buffers e p ≡ [])
        → Kind e
    kept :
        allocate_buffer malloc_of php e ≡ malloc malloc_of php
        → ph_entry_value_free e ≡ (λ _. pure tt)
        → ((p : Ptr) → buffers e p ≡ p ∷ [])
        → ((p : Ptr) → kept_buffers e p ≡ p ∷ [])
        → Kind e
    unneeded :
        allocate_buffer malloc_of php e ≡ pure null
        → ph_entry_value_free e ≡ (λ _. pure tt)
        → ((p : Ptr) → buffers e p ≡ [])
        → ((p : Ptr) → kept_buffers e p ≡ [])
        → Kind e

  pub kind : (e : Entry T) → Kind e
  unfolding allocate_buffer ph_entry_value_free ph_str_value_free buffers kept_buffers
  kind (Entry.string s) = freed refl refl (λ p. refl) (λ p. refl)
  kind (Entry.long n) = unneeded refl refl (λ p. refl) (λ p. refl)
  kind (Entry.double d) = unneeded refl refl (λ p. refl) (λ p. refl)
  kind (Entry.pseudo_bool b) = unneeded refl refl (λ p. refl) (λ p. refl)
  kind Entry.is_true = unneeded refl refl (λ p. refl) (λ p. refl)
  kind Entry.is_false = unneeded refl refl (λ p. refl) (λ p. refl)
  kind Entry.is_null = unneeded refl refl (λ p. refl) (λ p. refl)
  kind (Entry.array s) = freed refl refl (λ p. refl) (λ p. refl)
  kind (Entry.store_func f) = freed refl refl (λ p. refl) (λ p. refl)
  kind (Entry.object s) = kept refl refl (λ p. refl) (λ p. refl)

  abbrev pub task_with : Entry T → Ptr → List Ptr → HeapTask T
  task_with e buffer live =
      send_message (block malloc_of live 2) (block malloc_of live 1) (block malloc_of live 0)
        (record { block = block malloc_of live 3; entry = e; buffer = buffer })

  pub send-some :
      (value : Zval T) (e : Entry T) (live : List Ptr)
      → ph_entry_convert_from_zval php value ≡ some e
      → allocate_buffer malloc_of php e ≡ malloc malloc_of php
      → send malloc_of php true value live
        ≡ some (some (task_with e (block malloc_of live 4) live), grown malloc_of live 5)
  unfolding send ph_task_create_send_message ph_entry_create_from_zval fill_entry task_of
      task_or_failure
  send-some value e live h a = rw (h, a) refl

  pub send-plain :
      (value : Zval T) (e : Entry T) (live : List Ptr)
      → ph_entry_convert_from_zval php value ≡ some e
      → allocate_buffer malloc_of php e ≡ pure null
      → send malloc_of php true value live
        ≡ some (some (task_with e null live), grown malloc_of live 4)
  unfolding send ph_task_create_send_message ph_entry_create_from_zval fill_entry task_of
      task_or_failure
  send-plain value e live h a = rw (h, a) refl

  module _ (law : IsMalloc malloc_of) (live : List Ptr) where
    abbrev b : ℕ → Ptr
    b n = block malloc_of live n

    pub freed_at :
        (j : ℕ) (ns : List ℕ) (ys : List Ptr)
        → all_later j ns ≡ true
        → free (b j) (map b ns ++ b j ∷ ys) ≡ some (tt, map b ns ++ ys)
    freed_at = free-block law live

    -- the handling of a task whose entry has a buffer, up to the receipt of its message
    pub handled-buffer :
        (wakes : Bool) (e : Entry T)
        → handle true wakes (task_with e (b 4) live) (grown malloc_of live 5)
          ≡ ph_msg_free
              (record {
                block = b 5;
                from_actor_ref = b 1;
                message = record { block = b 3; entry = e; buffer = b 4 };
              })
              (b 5 ∷ b 4 ∷ b 3 ∷ b 1 ∷ live)
    unfolding handle handle_task send_local_message ph_msg_create ph_str_value_free wake_up receive
        ph_task_create_resume_actor
    handled-buffer false e =
        rw
          (
            freed_at 0 (5 ∷ 4 ∷ 3 ∷ 2 ∷ 1 ∷ []) live refl,
            freed_at 2 (5 ∷ 4 ∷ 3 ∷ []) (b 1 ∷ live) refl,
          )
          refl
    handled-buffer true e =
        rw
          (
            freed_at 0 (7 ∷ 6 ∷ 5 ∷ 4 ∷ 3 ∷ 2 ∷ 1 ∷ []) live refl,
            freed_at 2 (7 ∷ 6 ∷ 5 ∷ 4 ∷ 3 ∷ []) (b 1 ∷ live) refl,
            freed_at 7 [] (b 6 ∷ b 5 ∷ b 4 ∷ b 3 ∷ b 1 ∷ live) refl,
            freed_at 6 [] (b 5 ∷ b 4 ∷ b 3 ∷ b 1 ∷ live) refl,
          )
          refl

    pub handled-plain :
        (wakes : Bool) (e : Entry T)
        → handle true wakes (task_with e null live) (grown malloc_of live 4)
          ≡ ph_msg_free
              (record {
                block = b 4;
                from_actor_ref = b 1;
                message = record { block = b 3; entry = e; buffer = null };
              })
              (b 4 ∷ b 3 ∷ b 1 ∷ live)
    unfolding handle handle_task send_local_message ph_msg_create ph_str_value_free wake_up receive
        ph_task_create_resume_actor
    handled-plain false e =
        rw (freed_at 0 (4 ∷ 3 ∷ 2 ∷ 1 ∷ []) live refl, freed_at 2 (4 ∷ 3 ∷ []) (b 1 ∷ live) refl)
          refl
    handled-plain true e =
        rw
          (
            freed_at 0 (6 ∷ 5 ∷ 4 ∷ 3 ∷ 2 ∷ 1 ∷ []) live refl,
            freed_at 2 (6 ∷ 5 ∷ 4 ∷ 3 ∷ []) (b 1 ∷ live) refl,
            freed_at 6 [] (b 5 ∷ b 4 ∷ b 3 ∷ b 1 ∷ live) refl,
            freed_at 5 [] (b 4 ∷ b 3 ∷ b 1 ∷ live) refl,
          )
          refl

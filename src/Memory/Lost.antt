-- ===== src/Memory/Lost.antt =====
-- The blocks that are lost of a message, by what becomes of it.
use phactor.Base.{ℕ, Bool, true, false, Option, none, some, List, [], ◌∷◌, ◌++◌, Ptr}
use phactor.Memory.Release.{IsMalloc, block}
use phactor.Value.{PhpTypes, Entry, Php}
use phactor.Memory.Delivery.{Fate, destroyed, not_found, received, buffers, kept_buffers}

-- The blocks in the order of their allocation: the name that `ph_valid_actor_arg` copies, the ref of
-- the sender, the task, the entry and its buffer.
module _ (malloc_of : List Ptr → Ptr) (live : List Ptr) where
  abbrev pub name_block : Ptr
  name_block = block malloc_of live 0

  abbrev pub ref_block : Ptr
  ref_block = block malloc_of live 1

  abbrev pub entry_block : Ptr
  entry_block = block malloc_of live 3

  abbrev pub buffer_block : Ptr
  buffer_block = block malloc_of live 4

module _ {T : PhpTypes} where
  -- the blocks that are lost
  pub lost_blocks : (List Ptr → Ptr) → List Ptr → Bool → Fate → Option (Entry T) → List Ptr
  lost_blocks m live false fate e = name_block m live ∷ []
  lost_blocks m live true fate none = []
  lost_blocks m live true destroyed (some e) =
      kept_buffers e (buffer_block m live) ++ ref_block m live ∷ name_block m live ∷ []
  lost_blocks m live true not_found (some e) =
      buffers e (buffer_block m live) ++ entry_block m live ∷ ref_block m live ∷ []
  lost_blocks m live true (received wakes) (some e) = kept_buffers e (buffer_block m live)

module _ {T : PhpTypes} (malloc_of : List Ptr → Ptr) (php : Php T) (law : IsMalloc malloc_of)
    (live : List Ptr) where
  abbrev b : ℕ → Ptr
  b n = block malloc_of live n

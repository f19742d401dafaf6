-- ===== src/Tests/Leaks.antt =====
-- The blocks of a message, with a `malloc` that counts up.
use phactor.Base.{◌+◌, List, [], ◌∷◌, Ptr}

-- above every block in use
next_block : List Ptr → Ptr
next_block [] = 1
next_block (p ∷ live) = p + next_block live

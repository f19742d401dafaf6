-- ===== src/Vector.antt =====
-- src/ds/ph_vector.h and src/ds/ph_vector.c: a growing array of pointers. The bytes that `realloc`
-- adds are not set; they read as NULL here. `realloc` and `calloc` do not fail. The lock is the
-- callers'.
pub mod Stack
use phactor.Base.{
  ℕ, zero, suc, ◌+◌, ◌-◌, List, [], ◌∷◌, ◌++◌, ◌==◌, if◌then◌else◌, Ptr, null, get_or, set,
  replicate, take,
}
use phactor.Base.Words.{incr, decr, shl_one}

pub record Vector : Type 0 where
  pub values : List Ptr
  pub size : ℕ
  pub used : ℕ

-- `realloc(values, new_size * sizeof(void *))`
abbrev pub realloc : List Ptr → ℕ → ℕ → List Ptr
realloc values old_size new_size = take new_size (values ++ replicate (new_size - old_size) null)

unfoldable pub ph_vector_space_check : Vector → Vector
ph_vector_space_check vector =
    let size = if vector.size == 0 then 1 else shl_one vector.size in
    if vector.used == vector.size
    then record vector { size = size; values = realloc vector.values vector.size size }
    else vector

unfoldable pub ph_vector_init : ℕ → Vector
ph_vector_init size = record { values = replicate size null; size = size; used = 0 }

unfoldable pub ph_vector_push : Vector → Ptr → Vector
ph_vector_push vector value =
    let v = ph_vector_space_check vector in
    record v { values = set v.values v.used value; used = incr v.used }

unfoldable pub ph_vector_pop : Vector → Ptr × Vector
ph_vector_pop vector =
    if vector.used == 0
    then (null, vector)
    else let used = decr vector.used in
      (get_or vector.values used null, record vector { used = used })

unfoldable pub ph_vector_size : Vector → ℕ
ph_vector_size vector = vector.used

-- the loop of `ph_vector_destroy`, with `rounds` values left
unfoldable pub destroy_loop : {S : Type 0} → (Ptr → S → S) → List Ptr → ℕ → ℕ → S → S
destroy_loop dtor values zero i s = s
destroy_loop dtor values (suc rounds) i s =
    destroy_loop dtor values rounds (i + 1) (dtor (get_or values i null) s)

unfoldable pub ph_vector_destroy : {S : Type 0} → (Ptr → S → S) → Vector → S → S
ph_vector_destroy dtor vector s = destroy_loop dtor vector.values vector.used 0 s

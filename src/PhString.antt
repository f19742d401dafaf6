-- ===== src/PhString.antt =====
-- src/ph_string.h and src/ph_string.c: counted byte strings. `val` is the buffer that the C
-- pointer leads to. A byte past the buffer reads as NUL. What is freed is in Memory.
pub mod Equality
use phactor.Base.{
  ℕ, zero, suc, Bool, true, ◌&&◌, false, List, [], ◌∷◌, ◌==◌, if◌then◌else◌, take, replicate,
}

pub record PhString : Type 0 where
  pub len : ℕ
  pub val : List ℕ

-- `ph_str_alloc`: the buffer's bytes are not set; they read as NUL here
unfoldable pub ph_str_alloc : ℕ → PhString
ph_str_alloc len = record { len = len; val = replicate len 0 }

-- `ph_str_create` and `ph_str_set`: a buffer of its own, filled from `s`
unfoldable pub ph_str_create : List ℕ → ℕ → PhString
ph_str_create s len = record { len = len; val = take len s }

unfoldable pub ph_str_set : PhString → List ℕ → ℕ → PhString
ph_str_set str s len = record str { len = len; val = take len s }

-- `!strncmp(a, b, n)`: the comparison ends at the first NUL
unfoldable pub strncmp_eq : ℕ → List ℕ → List ℕ → Bool
strncmp_eq zero a b = true
strncmp_eq (suc n) [] [] = true
strncmp_eq (suc n) [] (y ∷ b) = y == 0
strncmp_eq (suc n) (x ∷ a) [] = x == 0
strncmp_eq (suc n) (x ∷ a) (y ∷ b) =
    if x == y then (if x == 0 then true else strncmp_eq n a b) else false

unfoldable pub ph_str_eq : PhString → PhString → Bool
ph_str_eq str1 str2 = (str1.len == str2.len) && strncmp_eq str2.len str1.val str2.val

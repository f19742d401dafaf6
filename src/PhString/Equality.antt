-- ===== src/PhString/Equality.antt =====
-- `ph_str_eq` as a relation, on strings with and without NUL bytes.
use phactor.Base.{ℕ, zero, suc, ◌≡◌, refl, ◌≢◌, ◌↔◌, true, List, [], ◌∷◌, ◌++◌, arith, length}
use phactor.PhString.{PhString, strncmp_eq, ph_str_eq}

strncmp_eq_symm : (n : ℕ) (a b : List ℕ) → strncmp_eq n a b ≡ strncmp_eq n b a
unfolding strncmp_eq
strncmp_eq_symm zero a b = refl
strncmp_eq_symm (suc n) [] [] = refl
strncmp_eq_symm (suc n) [] (y ∷ b) = refl
strncmp_eq_symm (suc n) (x ∷ a) [] = refl
strncmp_eq_symm (suc n) (x ∷ a) (y ∷ b) = ground (arith, strncmp_eq_symm n a b)

strncmp_eq_trans :
    (n : ℕ) (a b c : List ℕ)
    → strncmp_eq n a b ≡ true
    → strncmp_eq n b c ≡ true
    → strncmp_eq n a c ≡ true
unfolding strncmp_eq
strncmp_eq_trans zero a b c p q = refl
strncmp_eq_trans (suc n) [] [] c p q = q
strncmp_eq_trans (suc n) [] (y ∷ b) [] p q = refl
strncmp_eq_trans (suc n) [] (y ∷ b) (z ∷ c) p q = ground arith
strncmp_eq_trans (suc n) (x ∷ a) [] [] p q = p
strncmp_eq_trans (suc n) (x ∷ a) [] (z ∷ c) p q = ground arith
strncmp_eq_trans (suc n) (x ∷ a) (y ∷ b) [] p q = ground arith
strncmp_eq_trans (suc n) (x ∷ a) (y ∷ b) (z ∷ c) p q = ground (arith, strncmp_eq_trans n a b c)

strncmp_eq_refl : (n : ℕ) (a : List ℕ) → strncmp_eq n a a ≡ true
unfolding strncmp_eq
strncmp_eq_refl zero a = refl
strncmp_eq_refl (suc n) [] = refl
strncmp_eq_refl (suc n) (x ∷ a) = ground (arith, strncmp_eq_refl n a)

pub ph_str_eq_refl : (a : PhString) → ph_str_eq a a ≡ true
unfolding ph_str_eq
ph_str_eq_refl a = ground (arith, strncmp_eq_refl a.len a.val)

pub ph_str_eq_symm : (a b : PhString) → ph_str_eq a b ≡ ph_str_eq b a
unfolding ph_str_eq
ph_str_eq_symm a b = ground (arith, strncmp_eq_symm a.len a.val b.val)

pub ph_str_eq_trans :
    (a b c : PhString) → ph_str_eq a b ≡ true → ph_str_eq b c ≡ true → ph_str_eq a c ≡ true
unfolding ph_str_eq
ph_str_eq_trans a b c p q = ground (arith, strncmp_eq_trans c.len a.val b.val c.val)

-- No byte is NUL.
abbrev pub NoNul : List ℕ → Type 0
NoNul [] = Unit
NoNul (x ∷ xs) = (x ≢ 0) × NoNul xs

abbrev pub IsValid : PhString → Type 0
IsValid s = length s.val ≡ s.len

strncmp_eq-eq :
    (n : ℕ) (a b : List ℕ) → NoNul a → length a ≡ n → length b ≡ n → strncmp_eq n a b ≡ true → a ≡ b
unfolding strncmp_eq
strncmp_eq-eq zero [] [] na la lb h = refl
strncmp_eq-eq zero [] (y ∷ b) na la lb h = absurd (omega arith)
strncmp_eq-eq zero (x ∷ a) b na la lb h = absurd (omega arith)
strncmp_eq-eq (suc n) [] b na la lb h = absurd (omega arith)
strncmp_eq-eq (suc n) (x ∷ a) [] na la lb h = absurd (omega arith)
strncmp_eq-eq (suc n) (x ∷ a) (y ∷ b) na la lb h = ground (arith, strncmp_eq-eq n a b na.1)

-- Two strings whose buffers have the stated lengths, the first without a NUL byte, are equal
-- for `ph_str_eq` exactly when they have the same length and the same bytes.
pub ph_str_eq_iff :
    (a b : PhString)
    → IsValid a
    → IsValid b
    → NoNul a.val
    → (ph_str_eq a b ≡ true) ↔ ((a.len ≡ b.len) × (a.val ≡ b.val))
unfolding ph_str_eq
ph_str_eq_iff a b va vb na = (
  λ h. (ground arith, strncmp_eq-eq b.len a.val b.val na (ground arith) vb (ground arith)),
  λ e. ground (arith, strncmp_eq_refl b.len b.val),
)

strncmp_eq-nul : (n : ℕ) (p s t : List ℕ) → strncmp_eq n (p ++ 0 ∷ s) (p ++ 0 ∷ t) ≡ true
unfolding strncmp_eq
strncmp_eq-nul zero p s t = refl
strncmp_eq-nul (suc n) [] s t = refl
strncmp_eq-nul (suc n) (x ∷ p) s t = ground (arith, strncmp_eq-nul n p s t)

-- Two strings of one length that agree up to a NUL byte are equal for `ph_str_eq`, whatever
-- bytes follow the NUL.
pub ph_str_eq_nul :
    (a b : PhString) (p s t : List ℕ)
    → a.val ≡ p ++ 0 ∷ s
    → b.val ≡ p ++ 0 ∷ t
    → a.len ≡ b.len
    → ph_str_eq a b ≡ true
unfolding ph_str_eq
ph_str_eq_nul a b p s t ea eb e = rw (ea, eb, e) (ground (arith, strncmp_eq-nul b.len p s t))

-- ===== src/Copy/Tables.antt =====
-- PHP hash tables by their contents: what a search finds after an addition.
use phactor.Base.{
  ℕ, ◌≡◌, refl, ap, ◌∙◌, true, false, Option, none, some, List, [], ◌∷◌, ◌++◌, arith, if◌then◌else◌,
  Bool-cases, inl, inr,
}
use mathlib.Core.Path.{ap₂}
use phactor.Copy.Zend.{ZendString, bytes_eq, Table, find, add, add_new}

pub bytes_eq_refl : (xs : List ℕ) → bytes_eq xs xs ≡ true
bytes_eq_refl [] = refl
bytes_eq_refl (x ∷ xs) = ground (arith, bytes_eq_refl xs)

pub bytes_eq_sound : (xs ys : List ℕ) → bytes_eq xs ys ≡ true → xs ≡ ys
bytes_eq_sound [] [] h = refl
bytes_eq_sound [] (y ∷ ys) h = cc
bytes_eq_sound (x ∷ xs) [] h = cc
bytes_eq_sound (x ∷ xs) (y ∷ ys) h = ground (arith, bytes_eq_sound xs ys)

pub bytes_eq-sym : (xs ys : List ℕ) → bytes_eq xs ys ≡ bytes_eq ys xs
bytes_eq-sym [] [] = refl
bytes_eq-sym [] (y ∷ ys) = refl
bytes_eq-sym (x ∷ xs) [] = refl
bytes_eq-sym (x ∷ xs) (y ∷ ys) = ground (arith, bytes_eq-sym xs ys)

abbrev pub All {ℓ κ} : {A : Type ℓ} → (A → Type κ) → List A → Type κ
All P [] = Unit
All P (x ∷ xs) = P x × All P xs

pub All-map {ℓ κ μ} :
    {A : Type ℓ} {P : A → Type κ} {Q : A → Type μ} (xs : List A)
    → ((x : A) → P x → Q x)
    → All P xs
    → All Q xs
All-map [] f h = tt
All-map (x ∷ xs) f h = (f x h.0, All-map xs f h.1)

pub All-append {ℓ κ} :
    {A : Type ℓ} (P : A → Type κ) (xs ys : List A) → All P xs → All P ys → All P (xs ++ ys)
All-append P [] ys hx hy = hy
All-append P (x ∷ xs) ys hx hy = (hx.0, All-append P xs ys hx.1 hy)

-- No key of the first table is in the second.
abbrev pub IsFresh : {A B : Type 0} → Table A → Table B → Type 0
IsFresh old new = All (λ e. find new e.0 ≡ none) old

-- No key occurs twice.
abbrev pub IsDistinct : {A : Type 0} → Table A → Type 0
IsDistinct [] = Unit {0}
IsDistinct ((k, v) ∷ rest) = All (λ e. bytes_eq k.val e.0.val ≡ false) rest × IsDistinct rest

abbrev pub keys : {A : Type 0} → Table A → List (List ℕ)
keys [] = []
keys ((k, v) ∷ t) = k.val ∷ keys t

pub IsFresh-nil : {A : Type 0} (B : Type 0) (old : Table A) → IsFresh {B = B} old []
IsFresh-nil B [] = tt
IsFresh-nil B (e ∷ old) = (refl, IsFresh-nil B old)

module _ {A : Type 0} where
  pub keys-snoc :
      (t : Table A) (k : ZendString) (v : A) (ks : List (List ℕ))
      → keys (t ++ (k, v) ∷ []) ++ ks ≡ keys t ++ k.val ∷ ks
  keys-snoc [] k v ks = refl
  keys-snoc ((j, u) ∷ t) k v ks = ap (λ l. j.val ∷ l) (keys-snoc t k v ks)

  pub find-append :
      (t : Table A) (k key : ZendString) (v : A)
      → find t key ≡ none
      → find (t ++ (k, v) ∷ []) key ≡ (if bytes_eq k.val key.val then some v else none)
  find-append [] k key v h = refl
  find-append ((j, u) ∷ t) k key v h = elim (Bool-cases (bytes_eq j.val key.val)) [
    | inl e ↦ absurd (ground arith)
    | inr e ↦ rw e (find-append t k key v (ground arith))
  ]

  pub find-append_old :
      (t : Table A) (k key : ZendString) (v u : A)
      → find t key ≡ some u
      → find (t ++ (k, v) ∷ []) key ≡ some u
  find-append_old [] k key v u h = cc
  find-append_old ((j, w) ∷ t) k key v u h = elim (Bool-cases (bytes_eq j.val key.val)) [
    | inl e ↦ ground arith
    | inr e ↦ rw e (find-append_old t k key v u (ground arith))
  ]

  -- an addition under a new key
  pub add-append :
      (t : Table A) (key : ZendString) (v : A)
      → find t key ≡ none
      → add t key v ≡ t ++ (key, v) ∷ []
  add-append t key v h = rw h

  pub find-val :
      (t : Table A) (key key' : ZendString) → key.val ≡ key'.val → find t key ≡ find t key'
  find-val [] key key' e = refl
  find-val ((j, u) ∷ t) key key' e =
      ap₂ (λ v r. if bytes_eq j.val v then some u else r) e (find-val t key key' e)

module _ {A B : Type 0} where
  -- the keys that are left stay fresh when one is added
  pub IsFresh-append :
      (old : Table A) (new : Table B) (k : ZendString) (v : B)
      → All (λ e. bytes_eq k.val e.0.val ≡ false) old
      → IsFresh old new
      → IsFresh old (new ++ (k, v) ∷ [])
  IsFresh-append [] new k v apart h = tt
  IsFresh-append ((j, u) ∷ old) new k v apart h =
      (find-append new k j v h.0 ∙ rw apart.0, IsFresh-append old new k v apart.1 h.1)

add_new-All :
    {A : Type 0} (P : ZendString × A → Type 0) (t : Table A) (k : ZendString) (v : A) (o : Option A)
    → All P t
    → P (k, v)
    → All P (add_new t k v o)
add_new-All P t k v none h p = All-append P t ((k, v) ∷ []) h (p, tt)
add_new-All P t k v (some u) h p = h

-- An addition under any key.
pub add-All :
    {A : Type 0} (P : ZendString × A → Type 0) (t : Table A) (k : ZendString) (v : A)
    → All P t
    → P (k, v)
    → All P (add t k v)
add-All P t k v = add_new-All P t k v (find t k)

-- ===== src/HashTable/Entries.antt =====
-- The abstract view of a table: the entries of its occupied buckets, up to order.
use mathlib.Core.List.{append_assoc, perm_append_comm}
use mathlib.Core.List.Perm
use mathlib.Core.List.Permᴰ
use mathlib.Core.Logic.{∥∥₁_elim}
use native.Mathlib.Nat.{ℕ_set}
use phactor.Base.{
  ℕ, zero, suc, ◌+◌, ◌≤◌, ◌<◌, ◌≡◌, refl, ◌∙◌, Bool, true, ◌&&◌, Option, none, some, List, [], ◌∷◌,
  ◌++◌, Perm, arith, ◌==◌, if◌then◌else◌, Ptr, null, length, set,
}
use phactor.PhString.{PhString}
use phactor.PhString.Equality.{ph_str_eq_refl, ph_str_eq_symm, ph_str_eq_trans}
use phactor.HashTable.{Bucket, at, key_eq}

pub record Entry : Type 0 where
  pub key : Option PhString
  pub hash : ℕ
  pub value : Ptr

abbrev pub entry : Bucket → Entry
entry b = record { key = b.key; hash = b.hash; value = b.value }

abbrev pub bucket_entries : Bucket → List Entry
bucket_entries b = if b.value == null then [] else entry b ∷ []

unfoldable pub entries : List Bucket → List Entry
entries [] = []
entries (b ∷ bs) = bucket_entries b ++ entries bs

abbrev pub hits : Entry → Option PhString → ℕ → Bool
hits e key hash = (e.hash == hash) && key_eq e.key key

unfoldable pub count : Option PhString → ℕ → List Entry → ℕ
count key hash [] = 0
count key hash (e ∷ es) = (if hits e key hash then 1 else 0) + count key hash es

-- the value of the first entry under a key, as the table's clients read it
unfoldable pub lookup : Option PhString → ℕ → List Entry → Ptr
lookup key hash [] = null
lookup key hash (e ∷ es) = if hits e key hash then e.value else lookup key hash es

pub key_eq_refl : (a : Option PhString) → key_eq a a ≡ true
unfolding key_eq
key_eq_refl none = refl
key_eq_refl (some a) = ph_str_eq_refl a

key_eq_symm : (a b : Option PhString) → key_eq a b ≡ key_eq b a
unfolding key_eq
key_eq_symm none none = refl
key_eq_symm none (some b) = refl
key_eq_symm (some a) none = refl
key_eq_symm (some a) (some b) = ph_str_eq_symm a b

key_eq_trans : (a b c : Option PhString) → key_eq a b ≡ true → key_eq b c ≡ true → key_eq a c ≡ true
unfolding key_eq
key_eq_trans none none c p q = q
key_eq_trans none (some b) c p q = ground arith
key_eq_trans (some a) none c p q = ground arith
key_eq_trans (some a) (some b) none p q = q
key_eq_trans (some a) (some b) (some c) p q = ph_str_eq_trans a b c p q

-- Keys that are equal hit the same entries.
pub hits_congr :
    (e : Entry) (key key' : Option PhString) (hash : ℕ)
    → key_eq key key' ≡ true
    → hits e key hash ≡ hits e key' hash
hits_congr e key key' hash h =
    ground (arith, key_eq_symm key key', key_eq_trans e.key key key', key_eq_trans e.key key' key)

pub count_congr :
    (key key' : Option PhString) (hash : ℕ) (es : List Entry)
    → key_eq key key' ≡ true
    → count key hash es ≡ count key' hash es
unfolding count
count_congr key key' hash [] h = refl
count_congr key key' hash (e ∷ es) h =
    rw (hits_congr e key key' hash h, count_congr key key' hash es h)

pub key_eq_congr_left : (a b c : Option PhString) → key_eq a b ≡ true → key_eq a c ≡ key_eq b c
key_eq_congr_left a b c h = ground (arith, key_eq_symm a b, key_eq_trans a b c, key_eq_trans b a c)

pub lookup_congr :
    (key key' : Option PhString) (hash : ℕ) (es : List Entry)
    → key_eq key key' ≡ true
    → lookup key hash es ≡ lookup key' hash es
unfolding lookup
lookup_congr key key' hash [] h = refl
lookup_congr key key' hash (e ∷ es) h =
    rw (hits_congr e key key' hash h, lookup_congr key key' hash es h)

pub count-append :
    (key : Option PhString) (hash : ℕ) (xs ys : List Entry)
    → count key hash (xs ++ ys) ≡ count key hash xs + count key hash ys
unfolding count
count-append key hash [] ys = omega arith
count-append key hash (e ∷ xs) ys = omega (arith, count-append key hash xs ys)

pub lookup-eq-null :
    (key : Option PhString) (hash : ℕ) (es : List Entry)
    → count key hash es ≡ 0
    → lookup key hash es ≡ null
unfolding count lookup
lookup-eq-null key hash [] h = refl
lookup-eq-null key hash (e ∷ es) h = ground (arith, lookup-eq-null key hash es)

count-permᴰ :
    (key : Option PhString) (hash : ℕ) {xs ys : List Entry}
    → Permᴰ.Permᴰ xs ys
    → count key hash xs ≡ count key hash ys
unfolding count
count-permᴰ key hash Permᴰ.nil = refl
count-permᴰ key hash (Permᴰ.cons e p) = rw (e, count-permᴰ key hash p)
count-permᴰ key hash (Permᴰ.swap e f) = rw (e, f) (omega arith)
count-permᴰ key hash (Permᴰ.trans p q) = count-permᴰ key hash p ∙ count-permᴰ key hash q

pub count-perm :
    (key : Option PhString) (hash : ℕ) {xs ys : List Entry}
    → Perm xs ys
    → count key hash xs ≡ count key hash ys
count-perm key hash p = ∥∥₁_elim p (ℕ_set _ _) (count-permᴰ key hash)

lookup-permᴰ :
    (key : Option PhString) (hash : ℕ) {xs ys : List Entry}
    → Permᴰ.Permᴰ xs ys
    → count key hash xs ≤ 1
    → lookup key hash xs ≡ lookup key hash ys
unfolding count lookup
lookup-permᴰ key hash Permᴰ.nil h = refl
lookup-permᴰ key hash (Permᴰ.cons {a} {b} {l₁} {l₂} e p) h =
    rw (← e) (ground (arith, lookup-permᴰ key hash p))
lookup-permᴰ key hash (Permᴰ.swap {a} {b} e f) h = rw (← e, ← f) (ground arith)
lookup-permᴰ key hash (Permᴰ.trans p q) h =
    lookup-permᴰ key hash p h ∙ lookup-permᴰ key hash q (omega (arith, count-permᴰ key hash p))

-- The order of the entries does not matter to a lookup, where no key occurs twice.
pub lookup-perm :
    (key : Option PhString) (hash : ℕ) {xs ys : List Entry}
    → Perm xs ys
    → count key hash xs ≤ 1
    → lookup key hash xs ≡ lookup key hash ys
lookup-perm key hash p h = ∥∥₁_elim p (ℕ_set _ _) (λ q. lookup-permᴰ key hash q h)

length-permᴰ : {xs ys : List Entry} → Permᴰ.Permᴰ xs ys → length xs ≡ length ys
length-permᴰ Permᴰ.nil = refl
length-permᴰ (Permᴰ.cons e p) = omega (arith, length-permᴰ p)
length-permᴰ (Permᴰ.swap e f) = refl
length-permᴰ (Permᴰ.trans p q) = length-permᴰ p ∙ length-permᴰ q

pub length-perm : {xs ys : List Entry} → Perm xs ys → length xs ≡ length ys
length-perm p = ∥∥₁_elim p (ℕ_set _ _) length-permᴰ

perm_left_comm : (a b c : List Entry) → Perm (a ++ (b ++ c)) (b ++ (a ++ c))
perm_left_comm a b c =
    rw (← append_assoc a b c, ← append_assoc b a c) (Perm.append_right c (perm_append_comm a b))

-- A write to a bucket trades its entry for the new one.
pub entries-set :
    (bs : List Bucket) (i : ℕ) (b : Bucket)
    → i < length bs
    → Perm (bucket_entries (at bs i) ++ entries (set bs i b)) (bucket_entries b ++ entries bs)
unfolding entries
entries-set [] i b h = absurd (omega arith)
entries-set (x ∷ bs) zero b h = perm_left_comm (bucket_entries x) (bucket_entries b) (entries bs)
entries-set (x ∷ bs) (suc i) b h =
    Perm.trans (perm_left_comm (bucket_entries (at bs i)) (bucket_entries x) (entries (set bs i b)))
      (Perm.trans (Perm.append_left (bucket_entries x) (entries-set bs i b (omega arith)))
        (perm_left_comm (bucket_entries x) (bucket_entries b) (entries bs)))

-- ===== src/HashTable/Probe.antt =====
-- The probe sequence: where it leads, and the buckets that a search passes.
use phactor.Base.{
  ℕ, zero, suc, ◌+◌, ◌-◌, ◌≤◌, ◌<◌, ◌≡◌, ◌⊎◌, inl, inr, Bool, false, ◌&&◌, List, [], ◌∷◌, arith,
  Bool-cases, ◌==◌, ltb, null, length, set, get_or-set,
}
use phactor.Base.Words.{bit_and-le}
use phactor.HashTable.{Bucket, empty_bucket, at, home, next_index}
use phactor.HashTable.Entries.{entries}

pub home-lt : (hash size : ℕ) → 0 < size → home hash size < size
unfolding home
home-lt hash size h = omega (arith, bit_and-le hash (size - 1))

pub next_index-lt : (size i : ℕ) → i < size → next_index size i < size
next_index-lt size i h = ground arith

-- a bucket that ends a search: no value, and no tombstone
abbrev pub is_virgin : Bucket → Bool
is_virgin b = (b.value == null) && (b.hash == 0)

-- From `i` the probe sequence comes to `j` in `d` steps, past buckets that end no search.
abbrev pub Walk : ℕ → List Bucket → ℕ → ℕ → ℕ → Type 0
Walk size bs zero i j = i ≡ j
Walk size bs (suc d) i j = (is_virgin (at bs i) ≡ false) × Walk size bs d (next_index size i) j

-- One step more at the far end.
pub Walk-suc :
    (size : ℕ) (bs : List Bucket) (d i j : ℕ)
    → Walk size bs d i j
    → is_virgin (at bs j) ≡ false
    → Walk size bs (suc d) i (next_index size j)
Walk-suc size bs zero i j w h = (rw w h, rw w)
Walk-suc size bs (suc d) i j w h = (w.0, Walk-suc size bs d (next_index size i) j w.1 h)

-- A change that makes no bucket virgin keeps every walk.
pub Walk-mono :
    (size : ℕ) (bs bs' : List Bucket)
    → ((k : ℕ) → is_virgin (at bs k) ≡ false → is_virgin (at bs' k) ≡ false)
    → (d i j : ℕ) → Walk size bs d i j
    → Walk size bs' d i j
Walk-mono size bs bs' keep zero i j w = w
Walk-mono size bs bs' keep (suc d) i j w =
    (keep i w.0, Walk-mono size bs bs' keep d (next_index size i) j w.1)

pub set-not-virgin :
    (bs : List Bucket) (i : ℕ) (b : Bucket)
    → i < length bs
    → is_virgin b ≡ false
    → (k : ℕ) → is_virgin (at bs k) ≡ false
    → is_virgin (at (set bs i b) k) ≡ false
set-not-virgin bs i b h nv k v = elim (Bool-cases (i == k)) [
  | inl e ↦ rw (get_or-set bs i k b empty_bucket h, e) nv
  | inr e ↦ rw (get_or-set bs i k b empty_bucket h, e) v
]

-- A bucket without a value is at most `d` steps ahead of `i`.
abbrev pub FreeWithin : ℕ → List Bucket → ℕ → ℕ → Type 0
FreeWithin size bs zero i = (at bs i).value ≡ null
FreeWithin size bs (suc d) i = ((at bs i).value ≡ null) ⊎ FreeWithin size bs d (next_index size i)

free_forward :
    (size : ℕ) (bs : List Bucket) (d i j : ℕ)
    → i + d ≡ j
    → j < size
    → (at bs j).value ≡ null
    → FreeWithin size bs d i
free_forward size bs zero i j e h free = let e' : i ≡ j = omega arith in rw e' free
free_forward size bs (suc d) i j e h free =
    let n : next_index size i ≡ i + 1 = ground arith in
    inr (rw n (free_forward size bs d (i + 1) j (omega arith) h free))

free_wrap :
    (size : ℕ) (bs : List Bucket) (d k r i : ℕ)
    → r ≡ suc k + d
    → i + suc k ≡ size
    → FreeWithin size bs d 0
    → FreeWithin size bs r i
free_wrap size bs d k zero i e h free = absurd (omega arith)
free_wrap size bs d zero (suc r) i e h free =
    let n : next_index size i ≡ 0 = ground arith in
    let e' : r ≡ d = omega arith in inr (rw (n, e') free)
free_wrap size bs d (suc k) (suc r) i e h free =
    let n : next_index size i ≡ i + 1 = ground arith in
    inr (rw n (free_wrap size bs d k r (i + 1) (omega arith) (omega arith) free))

free_bucket :
    (bs : List Bucket)
    → length (entries bs) < length bs
    → (j : ℕ) × (j < length bs) × ((at bs j).value ≡ null)
unfolding entries
free_bucket [] h = absurd (omega arith)
free_bucket (b ∷ bs) h = elim (Bool-cases (b.value == null)) [
  | inl e ↦ (0, omega arith, ground arith)
  | inr e ↦ let (j, small, free) = free_bucket bs (ground arith) in (suc j, omega arith, free)
]

-- In a table that is not full, every probe sequence comes to a bucket without a value in less than
-- `size` steps.
pub free_ahead :
    (size : ℕ) (bs : List Bucket) (i : ℕ)
    → length bs ≡ size
    → length (entries bs) < size
    → i < size
    → (d : ℕ) × (d < size) × FreeWithin size bs d i
free_ahead size bs i width few h =
    let (j, small, free) = free_bucket bs (omega arith) in
    elim (Bool-cases (ltb j i)) [
      | inl e ↦
          let lt : j < i = ground arith in
          (
            size - i + j,
            omega arith,
            free_wrap size bs j (size - i - 1) (size - i + j) i (omega arith) (omega arith)
                (free_forward size bs j 0 j (omega arith) (omega arith) free),
          )
      | inr e ↦
          let le : i ≤ j = ground arith in
          (j - i, omega arith, free_forward size bs (j - i) i j (omega arith) (omega arith) free)
    ]

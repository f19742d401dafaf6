-- ===== src/HashTable/Insert.antt =====
-- `ph_hashtable_insert_direct`: the entry in hand, and the entries that it moves on the way.
use mathlib.Core.List.Perm
use phactor.Base.{
  ℕ, zero, suc, ◌+◌, ◌≤◌, ◌<◌, ◌≡◌, refl, ◌∙◌, ◌≢◌, inl, inr, true, false, Option, Ptr, List, ◌∷◌,
  Perm, arith, Bool-cases, ◌==◌, ltb, null, length, set, length-set, get_or-set,
}
use phactor.Base.Words.{incr}
use phactor.PhString.{PhString}
use phactor.HashTable.{
  Bucket, empty_bucket, HashTable, at, home, next_index, insert_loop, ph_hashtable_insert_direct,
}
use phactor.HashTable.Entries.{Entry, length-perm, entry, entries, entries-set}
use phactor.HashTable.Probe.{
  is_virgin, Walk, Walk-suc, Walk-mono, set-not-virgin, FreeWithin, next_index-lt, home-lt,
  free_ahead,
}
use phactor.HashTable.Valid.{IsPlaced, IsShaped}

module _ (size : ℕ) (bs : List Bucket) (i : ℕ) (b : Bucket) (small : i < length bs) where
  -- A write of a placed entry, or of a tombstone, keeps the other entries placed.
  pub set-IsPlaced :
      is_virgin b ≡ false
      → (b.value ≢ null → (b.variance < size) × Walk size bs b.variance (home b.hash size) i)
      → IsPlaced size bs
      → IsPlaced size (set bs i b)
  set-IsPlaced nv new placed j = elim (Bool-cases (i == j)) [
    | inl e ↦
        let same : i ≡ j = ground arith in
        rw (get_or-set bs i j b empty_bucket small, e)
          λ h. (
            (new h).0,
            Walk-mono size bs (set bs i b) keep b.variance (home b.hash size) j
                (rw same at (new h).1),
          )
    | inr e ↦
        rw (get_or-set bs i j b empty_bucket small, e)
          λ h. (
            (placed j h).0,
            Walk-mono size bs (set bs i b) keep (at bs j).variance (home (at bs j).hash size) j
                (placed j h).1,
          )
  ]
    where
      keep : (k : ℕ) → is_virgin (at bs k) ≡ false → is_virgin (at (set bs i b) k) ≡ false
      keep = set-not-virgin bs i b small nv

  -- A write to an occupied bucket leaves the free ones ahead.
  FreeWithin-set :
      (at bs i).value ≢ null → (d k : ℕ) → FreeWithin size bs d k → FreeWithin size (set bs i b) d k
  FreeWithin-set taken zero k free = rw (get_or-set bs i k b empty_bucket small) (ground arith)
  FreeWithin-set taken (suc d) k (inl free) =
      inl (rw (get_or-set bs i k b empty_bucket small) (ground arith))
  FreeWithin-set taken (suc d) k (inr free) = inr (FreeWithin-set taken d (next_index size k) free)

-- an entry in hand, one step on
abbrev moved_on : Bucket → Bucket
moved_on b = record b { variance = b.variance + 1 }

-- What the insertion of `e` makes of the buckets.
record Inserts (size : ℕ) (e : Bucket) (bs bs' : List Bucket) : Type 0 where
  width : length bs' ≡ size
  perm : Perm (entries bs') (entry e ∷ entries bs)
  placed : IsPlaced size bs'

pass-Inserts :
    {size : ℕ} {e : Bucket} {bs bs' : List Bucket}
    → Inserts size (moved_on e) bs bs'
    → Inserts size e bs bs'
pass-Inserts r = record { width = r.width; perm = r.perm; placed = r.placed }

Walk-add-one :
    (size : ℕ) (bs : List Bucket) (d i j : ℕ)
    → Walk size bs d i j
    → is_virgin (at bs j) ≡ false
    → Walk size bs (d + 1) i (next_index size j)
Walk-add-one size bs d i j w h =
    let one : d + 1 ≡ suc d = omega arith in rw one (Walk-suc size bs d i j w h)

-- The entry in hand stands at `i`, with `rounds` left.
record InHand (size rounds i : ℕ) (e : Bucket) (bs : List Bucket) : Type 0 where
  inside : i < size
  width : length bs ≡ size
  value : e.value ≢ null
  near : e.variance + rounds ≤ size
  walk : Walk size bs e.variance (home e.hash size) i
  placed : IsPlaced size bs

module _ {size rounds i : ℕ} {e : Bucket} {bs : List Bucket} where
  put-Inserts :
      InHand size (suc rounds) i e bs → (at bs i).value ≡ null → Inserts size e bs (set bs i e)
  put-Inserts h free = record {
    width = length-set bs i e ∙ h.width;
    perm = perm;
    placed =
        set-IsPlaced size bs i e (omega (arith, h.inside, h.width)) (ground (arith, h.value))
          (λ _. (omega (arith, h.near), h.walk)) h.placed;
  }
    where
      perm : Perm (entries (set bs i e)) (entry e ∷ entries bs)
      perm =
          let p = entries-set bs i e (omega (arith, h.inside, h.width)) in
          ground (arith, h.value, p)

  swap-InHand :
      InHand size (suc rounds) i e bs
      → (at bs i).value ≢ null
      → ltb (at bs i).variance e.variance ≡ true
      → InHand size rounds (next_index size i) (moved_on (at bs i)) (set bs i e)
  swap-InHand h taken richer =
      let small : i < length bs = omega (arith, h.inside, h.width) in
      let nv : is_virgin e ≡ false = ground (arith, h.value) in
      let here : is_virgin (at (set bs i e) i) ≡ false =
        rw (get_or-set bs i i e empty_bucket small) (ground arith) in
      let (near, walk) = h.placed i taken in
      record {
        inside = next_index-lt size i h.inside;
        width = length-set bs i e ∙ h.width;
        value = taken;
        near = ground (arith, h.near);
        walk =
            Walk-add-one size (set bs i e) (at bs i).variance (home (at bs i).hash size) i
              (Walk-mono size bs (set bs i e) (set-not-virgin bs i e small nv) (at bs i).variance
                (home (at bs i).hash size) i walk)
              here;
        placed = set-IsPlaced size bs i e small nv (λ _. (omega (arith, h.near), h.walk)) h.placed;
      }

  pass-InHand :
      InHand size (suc rounds) i e bs
      → (at bs i).value ≢ null
      → InHand size rounds (next_index size i) (moved_on e) bs
  pass-InHand h taken = record {
    inside = next_index-lt size i h.inside;
    width = h.width;
    value = h.value;
    near = omega (arith, h.near);
    walk = Walk-add-one size bs e.variance (home e.hash size) i h.walk (ground arith);
    placed = h.placed;
  }

  -- What the rest of the loop makes of the displaced entry, seen from here.
  swap-Inserts :
      (bs' : List Bucket)
      → InHand size (suc rounds) i e bs
      → (at bs i).value ≢ null
      → Inserts size (moved_on (at bs i)) (set bs i e) bs'
      → Inserts size e bs bs'
  swap-Inserts bs' h taken r = record {
    width = r.width;
    perm = Perm.trans r.perm perm;
    placed = r.placed;
  }
    where
      perm : Perm (entry (at bs i) ∷ entries (set bs i e)) (entry e ∷ entries bs)
      perm =
          let p = entries-set bs i e (omega (arith, h.inside, h.width)) in
          ground (arith, h.value, p)

-- With a free bucket ahead, the loop puts the entry into the table.
insert_loop-Inserts :
    (size rounds d i : ℕ) (e : Bucket) (bs : List Bucket)
    → d < rounds
    → FreeWithin size bs d i
    → InHand size rounds i e bs
    → Inserts size e bs (insert_loop size rounds i e bs)
unfolding insert_loop
insert_loop-Inserts size zero d i e bs near free h = absurd (omega arith)
insert_loop-Inserts size (suc rounds) zero i e bs near free h = rw free (put-Inserts h free)
insert_loop-Inserts size (suc rounds) (suc d) i e bs near (inl free) h =
    rw free (put-Inserts h free)
insert_loop-Inserts size (suc rounds) (suc d) i e bs near (inr free) h =
    elim (Bool-cases ((at bs i).value == null)) [
      | inl empty ↦ rw empty (put-Inserts h (ground arith))
      | inr full ↦
          let taken : (at bs i).value ≢ null = ground arith in
          elim (Bool-cases (ltb (at bs i).variance e.variance)) [
            | inl richer ↦
                rw (full, richer)
                  (swap-Inserts _ h taken (
                    insert_loop-Inserts size rounds d (next_index size i) (moved_on (at bs i))
                      (set bs i e) (omega arith)
                      (FreeWithin-set size bs i e (omega (arith, h.inside, h.width)) taken d _ free)
                      (swap-InHand h taken richer)))
            | inr poorer ↦
                rw (full, poorer)
                  (pass-Inserts (
                    insert_loop-Inserts size rounds d (next_index size i) (moved_on e) bs
                      (omega arith) free (pass-InHand h taken)))
          ]
    ]

-- What an operation that adds the entry `e` makes of the table.
pub record Adds (e : Entry) (ht ht' : HashTable) : Type 0 where
  pub shaped : IsShaped ht'
  pub perm : Perm (entries ht'.values) (e ∷ entries ht.values)
  pub used : ht'.used ≡ ht.used + 1
  pub size : ht'.size ≡ ht.size

-- In a table that is not full, `ph_hashtable_insert_direct` adds exactly the given entry, keeps
-- the others, leaves every entry where a search finds it, and counts it.
pub insert_direct-Adds :
    (ht : HashTable) (key : Option PhString) (hash : ℕ) (value : Ptr)
    → IsShaped ht
    → ht.used < ht.size
    → value ≢ null
    → Adds
        (record { key = key; hash = hash; value = value })
        ht
        (ph_hashtable_insert_direct ht key hash value)
unfolding ph_hashtable_insert_direct
insert_direct-Adds ht key hash value v room ne =
    let start = home-lt hash ht.size v.positive in
    let (d, near, free) =
      free_ahead ht.size ht.values (home hash ht.size) v.width (omega (arith, v.counted)) start in
    let r =
      insert_loop-Inserts ht.size ht.size d (home hash ht.size)
        (record { key = key; value = value; hash = hash; variance = 0 }) ht.values near free
        (record {
          inside = start;
          width = v.width;
          value = ne;
          near = omega arith;
          walk = refl;
          placed = v.placed;
        }) in
    let next : incr ht.used ≡ ht.used + 1 = omega (arith, v.small) in
    record {
      shaped = record {
        width = r.width;
        positive = v.positive;
        small = v.small;
        counted = next ∙ omega (arith, v.counted, length-perm r.perm);
        placed = r.placed;
      };
      perm = r.perm;
      used = next;
      size = refl;
    }

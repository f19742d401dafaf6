-- ===== src/HashTable/Search.antt =====
-- `ph_hashtable_search_direct` and the abstract view of a table.
use phactor.Base.{
  ℕ, zero, suc, ◌≤◌, ◌<◌, ◌≡◌, refl, sym, ◌∙◌, ◌≢◌, ◌⊎◌, inl, inr, true, Option, List, [], ◌∷◌,
  arith, ◌==◌, Ptr, null, Bool-cases,
}
use phactor.PhString.{PhString}
use phactor.HashTable.{
  Bucket, HashTable, at, home, next_index, matches, search_loop, ph_hashtable_search_direct,
}
use phactor.HashTable.Entries.{entries, count, lookup}
use phactor.HashTable.Probe.{Walk}
use phactor.HashTable.Valid.{IsValid}

-- the bucket at `j` holds an entry under the key
abbrev pub HitAt : List Bucket → Option PhString → ℕ → ℕ → Type 0
HitAt bs key hash j = ((at bs j).value ≢ null) × (matches (at bs j) key hash ≡ true)

module _ (bs : List Bucket) (size : ℕ) (key : Option PhString) (hash : ℕ) where
  search_loop_sound :
      (rounds i : ℕ)
      → search_loop bs size key hash rounds i ≢ null
      → (j : ℕ) × HitAt bs key hash j × (search_loop bs size key hash rounds i ≡ (at bs j).value)
  unfolding search_loop
  search_loop_sound zero i h = absurd (h refl)
  search_loop_sound (suc rounds) i h = elim (Bool-cases ((at bs i).value == null)) [
    | inl free ↦
        let (j, hit, e) = search_loop_sound rounds (next_index size i) (ground arith) in
        (j, hit, ground arith)
    | inr taken ↦ elim (Bool-cases (matches (at bs i) key hash)) [
      | inl m ↦ (i, (ground arith, m), ground arith)
      | inr m ↦
          let (j, hit, e) = search_loop_sound rounds (next_index size i) (ground arith) in
          (j, hit, ground arith)
    ]
  ]

  search_loop_complete :
      (rounds d i j : ℕ)
      → d < rounds
      → Walk size bs d i j
      → HitAt bs key hash j
      → search_loop bs size key hash rounds i ≢ null
  unfolding search_loop
  search_loop_complete zero d i j h w hit = absurd (omega arith)
  search_loop_complete (suc rounds) zero i j h w hit =
      let hit' : HitAt bs key hash i = rw w hit in ground arith
  search_loop_complete (suc rounds) (suc d) i j h w hit =
      let rest = search_loop_complete rounds d (next_index size i) j (omega arith) w.1 hit in
      ground arith

module _ (key : Option PhString) (hash : ℕ) where
  count_pos : (bs : List Bucket) (j : ℕ) → HitAt bs key hash j → 0 < count key hash (entries bs)
  unfolding entries count
  count_pos [] j hit = absurd (hit.0 refl)
  count_pos (b ∷ bs) zero hit = ground arith
  count_pos (b ∷ bs) (suc j) hit = ground (arith, count_pos bs j hit)

  -- A hit is the entry that the abstract lookup finds, where no key occurs twice.
  pub hit-lookup :
      (bs : List Bucket) (j : ℕ)
      → HitAt bs key hash j
      → count key hash (entries bs) ≤ 1
      → (at bs j).value ≡ lookup key hash (entries bs)
  unfolding entries count lookup
  hit-lookup [] j hit h = absurd (hit.0 refl)
  hit-lookup (b ∷ bs) zero hit h = ground arith
  hit-lookup (b ∷ bs) (suc j) hit h = ground (arith, count_pos bs j hit, hit-lookup bs j hit)

  pub lookup-hit :
      (bs : List Bucket) → lookup key hash (entries bs) ≢ null → (j : ℕ) × HitAt bs key hash j
  unfolding entries lookup
  lookup-hit [] h = absurd (h refl)
  lookup-hit (b ∷ bs) h = elim (Bool-cases (b.value == null)) [
    | inl free ↦ let (j, hit) = lookup-hit bs (ground arith) in (suc j, hit)
    | inr taken ↦ elim (Bool-cases (matches b key hash)) [
      | inl m ↦ (0, (ground arith, m))
      | inr m ↦ let (j, hit) = lookup-hit bs (ground arith) in (suc j, hit)
    ]
  ]

Null-cases : (p : Ptr) → (p ≡ null) ⊎ (p ≢ null)
Null-cases p = ground arith

-- In a well-formed table a search for a key under its hash returns exactly what a lookup in the
-- table's entries gives: the value of the one entry under that key, or NULL where there is none.
-- So it never stops too early, and never at another key's entry.
pub search-lookup :
    (ht : HashTable) (key : Option PhString) (hash : ℕ)
    → IsValid ht
    → ph_hashtable_search_direct ht key hash ≡ lookup key hash (entries ht.values)
unfolding ph_hashtable_search_direct
search-lookup ht key hash v = elim (Null-cases (lookup key hash (entries ht.values))) [
  | inr some_entry ↦
      let (j, hit) = lookup-hit key hash ht.values some_entry in
      let (near, walk) = v.shaped.placed j hit.0 in
      let same : (at ht.values j).hash ≡ hash = ground arith in
      let found =
        search_loop_complete ht.values ht.size key hash ht.size (at ht.values j).variance
          (home hash ht.size) j near (rw same at walk) hit in
      let (k, hit', e) =
        search_loop_sound ht.values ht.size key hash ht.size (home hash ht.size) found in
      e ∙ hit-lookup key hash ht.values k hit' (v.distinct key hash)
  | inl no_entry ↦
      elim (Null-cases (search_loop ht.values ht.size key hash ht.size (home hash ht.size))) [
        | inl e ↦ e ∙ sym no_entry
        | inr found ↦
            let (k, hit', e) =
              search_loop_sound ht.values ht.size key hash ht.size (home hash ht.size) found in
            e ∙ hit-lookup key hash ht.values k hit' (v.distinct key hash)
      ]
]

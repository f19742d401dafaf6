-- ===== src/HashTable/Clear.antt =====
-- `ph_hashtable_clear` and `ph_hashtable_apply`.
use mathlib.Core.List.{foldl}
use phactor.Base.{
  ℕ, zero, suc, ◌≡◌, refl, ap, ◌∙◌, inl, inr, Option, List, [], ◌∷◌, arith, Bool-cases, ◌==◌,
  if◌then◌else◌, Ptr, null, length,
}
use phactor.PhString.{PhString}
use phactor.HashTable.{
  Bucket, empty_bucket, HashTable, at, clear_buckets, apply_loop, ph_hashtable_apply,
  ph_hashtable_clear, ph_hashtable_search_direct,
}
use phactor.HashTable.Entries.{Entry, entries, count, lookup}
use phactor.HashTable.Search.{search-lookup}
use phactor.HashTable.Valid.{IsValid}

clear_buckets-lem :
    (bs : List Bucket)
    → (length (clear_buckets bs) ≡ length bs)
      × (entries (clear_buckets bs) ≡ [])
      × ((j : ℕ) → (at (clear_buckets bs) j).value ≡ null)
unfolding clear_buckets entries
clear_buckets-lem [] = (refl, refl, λ j. refl)
clear_buckets-lem (b ∷ bs) =
    let (width, none_left, free) = clear_buckets-lem bs in
    let cleared : Bucket = if b.value == null then b else empty_bucket in
    let free_b : cleared.value ≡ null = ground arith in
    (ap suc width, rw free_b none_left, at_cons cleared (clear_buckets bs) free_b free)
  where
    at_cons :
        (b : Bucket) (bs : List Bucket)
        → b.value ≡ null
        → ((j : ℕ) → (at bs j).value ≡ null)
        → (j : ℕ) → (at (b ∷ bs) j).value ≡ null
    at_cons b bs h free zero = h
    at_cons b bs h free (suc j) = free j

module _ {S : Type 0} (f : Ptr → S → S) where
  apply_loop-foldl :
      (bs : List Bucket) (s : S)
      → apply_loop f bs s ≡ foldl (λ s' (e : Entry). f e.value s') s (entries bs)
  unfolding apply_loop entries
  apply_loop-foldl [] s = refl
  apply_loop-foldl (b ∷ bs) s = elim (Bool-cases (b.value == null)) [
    | inl e ↦ rw e (apply_loop-foldl bs s)
    | inr e ↦ rw e (apply_loop-foldl bs (f b.value s))
  ]

  -- `ph_hashtable_apply` calls the function once for each entry of the table, on its value, in
  -- the order of the buckets, and for nothing else.
  pub apply-foldl :
      (ht : HashTable) (s : S)
      → ph_hashtable_apply f ht s ≡ foldl (λ s' (e : Entry). f e.value s') s (entries ht.values)
  unfolding ph_hashtable_apply
  apply-foldl ht s = apply_loop-foldl ht.values s

  -- Clearing a well-formed table calls the destructor once for each entry, on its value, and
  -- leaves a well-formed table of the same size in which no search finds anything.
  pub clear-IsValid :
      (ht : HashTable) (s : S)
      → IsValid ht
      → let (ht', s') = ph_hashtable_clear f ht s in
        IsValid ht'
        × (ht'.size ≡ ht.size)
        × ((key : Option PhString) (hash : ℕ) → ph_hashtable_search_direct ht' key hash ≡ null)
        × (s' ≡ foldl (λ t (e : Entry). f e.value t) s (entries ht.values))
  unfolding ph_hashtable_clear
  clear-IsValid ht s v =
      let (width, none_left, free) = clear_buckets-lem ht.values in
      let valid : IsValid (ph_hashtable_clear f ht s).0 = record {
        shaped = record {
          width = width ∙ v.shaped.width;
          positive = v.shaped.positive;
          small = v.shaped.small;
          counted = rw none_left;
          placed = λ j h. absurd (h (free j));
        };
        load = omega arith;
        distinct = λ key hash. rw none_left (unfold count in omega arith);
      } in
      (
        valid,
        refl,
        λ key hash.
            search-lookup (ph_hashtable_clear f ht s).0 key hash valid
            ∙ ap (lookup key hash) none_left
            ∙ (unfold lookup in refl),
        apply_loop-foldl ht.values s,
      )

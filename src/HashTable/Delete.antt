-- ===== src/HashTable/Delete.antt =====
-- `ph_hashtable_delete_direct` and `ph_hashtable_key_fetch_direct`: where they find an entry, and the
-- walks of the other entries past a tombstone.
use mathlib.Core.List.Perm
use phactor.Base.{
  ℕ, zero, suc, ◌+◌, ◌≤◌, ◌<◌, ◌≡◌, refl, ◌∙◌, ◌≢◌, Option, none, some, List, ◌∷◌, Perm, arith, Ptr,
  null, length, length-set,
}
use phactor.Base.Words.{decr}
use phactor.PhString.{PhString}
use phactor.HashTable.{
  Bucket, tombstone, HashTable, at, home, next_index, search_loop, key_fetch_loop, delete_loop,
  find_index, bury, ph_hashtable_search_direct, ph_hashtable_key_fetch_direct,
}
use phactor.HashTable.Entries.{Entry, entry, entries, entries-set, count, count-perm, length-perm}
use phactor.HashTable.Insert.{set-IsPlaced}
use phactor.HashTable.Probe.{home-lt, next_index-lt}
use phactor.HashTable.Search.{HitAt}
use phactor.HashTable.Valid.{IsShaped, IsValid}

abbrev pub value_at : List Bucket → Option ℕ → Ptr
value_at bs none = null
value_at bs (some j) = (at bs j).value

abbrev pub key_at : List Bucket → Option ℕ → Option PhString
key_at bs none = none
key_at bs (some j) = (at bs j).key

module _ (bs : List Bucket) (size : ℕ) (key : Option PhString) (hash : ℕ) where
  search_loop-delete_loop :
      (rounds i : ℕ)
      → search_loop bs size key hash rounds i ≡ value_at bs (delete_loop bs size key hash rounds i)
  unfolding search_loop delete_loop
  search_loop-delete_loop zero i = refl
  search_loop-delete_loop (suc rounds) i =
      ground (arith, search_loop-delete_loop rounds (next_index size i))

  key_fetch_loop-delete_loop :
      (rounds i : ℕ)
      → key_fetch_loop bs size key hash rounds i ≡ key_at bs (delete_loop bs size key hash rounds i)
  unfolding key_fetch_loop delete_loop
  key_fetch_loop-delete_loop zero i = refl
  key_fetch_loop-delete_loop (suc rounds) i =
      ground (arith, key_fetch_loop-delete_loop rounds (next_index size i))

  delete_loop-HitAt :
      (rounds i j : ℕ)
      → i < size
      → delete_loop bs size key hash rounds i ≡ some j
      → (j < size) × HitAt bs key hash j
  unfolding delete_loop
  delete_loop-HitAt zero i j h e = cc
  delete_loop-HitAt (suc rounds) i j h e =
      ground (arith, next_index-lt size i h, delete_loop-HitAt rounds (next_index size i) j)

module _ (ht : HashTable) (key : Option PhString) (hash : ℕ) where
  -- A search returns the value of the bucket that a deletion would empty.
  pub search-find_index :
      ph_hashtable_search_direct ht key hash ≡ value_at ht.values (find_index ht key hash)
  unfolding ph_hashtable_search_direct find_index
  search-find_index = search_loop-delete_loop ht.values ht.size key hash ht.size (home hash ht.size)

  pub key_fetch-find_index :
      ph_hashtable_key_fetch_direct ht key hash ≡ key_at ht.values (find_index ht key hash)
  unfolding ph_hashtable_key_fetch_direct find_index
  key_fetch-find_index =
      key_fetch_loop-delete_loop ht.values ht.size key hash ht.size (home hash ht.size)

  pub find_index-HitAt :
      (j : ℕ)
      → IsShaped ht
      → find_index ht key hash ≡ some j
      → (j < ht.size) × HitAt ht.values key hash j
  unfolding find_index
  find_index-HitAt j v e =
      delete_loop-HitAt ht.values ht.size key hash ht.size (home hash ht.size) j
        (home-lt hash ht.size v.positive) e

count-cons-le :
    (key : Option PhString) (hash : ℕ) (e : Entry) (es : List Entry)
    → count key hash es ≤ count key hash (e ∷ es)
unfolding count
count-cons-le key hash e es = omega arith

-- Emptying an occupied bucket removes its entry and no other, and keeps the table well-formed.
pub bury-IsValid :
    (ht : HashTable) (j : ℕ)
    → IsValid ht
    → j < ht.size
    → (at ht.values j).value ≢ null
    → IsValid (bury j ht)
      × Perm (entries ht.values) (entry (at ht.values j) ∷ entries (bury j ht).values)
unfolding bury
bury-IsValid ht j v small taken =
    let inside : j < length ht.values = omega (arith, v.shaped.width) in
    let p = entries-set ht.values j tombstone inside in
    let perm : Perm (entries ht.values) (entry (at ht.values j) ∷ entries (bury j ht).values) =
      Perm.symm (ground (arith, p)) in
    let less : length (entries ht.values) ≡ suc (length (entries (bury j ht).values)) =
      length-perm perm in
    let prev : decr ht.used + 1 ≡ ht.used =
      omega (arith, less, v.shaped.counted, v.load, v.shaped.small) in
    (
      record {
        shaped = record {
          width = length-set ht.values j tombstone ∙ v.shaped.width;
          positive = v.shaped.positive;
          small = v.shaped.small;
          counted = omega (arith, less, v.shaped.counted);
          placed =
              set-IsPlaced ht.size ht.values j tombstone inside refl (λ h. absurd (h refl))
                v.shaped.placed;
        };
        load = omega (arith, v.load);
        distinct = λ key hash. omega (
          arith,
          v.distinct key hash,
          count-perm key hash perm,
          count-cons-le key hash (entry (at ht.values j)) (entries (bury j ht).values),
        );
      },
      perm,
    )

-- ===== src/HashTable/Laws.antt =====
-- The table as a finite map: what a search finds after an insertion, a deletion or a resize.
use phactor.Base.{
  ℕ, ◌^◌, ◌≤◌, ◌<◌, ◌≡◌, refl, sym, ◌∙◌, ap, ◌≢◌, ◌⊎◌, inl, inr, Bool, true, ◌&&◌, Option, none,
  some, List, [], ◌∷◌, Perm, arith, Option-cases, ◌==◌, if◌then◌else◌, Ptr, null,
}
use phactor.PhString.{PhString, ph_str_eq}
use phactor.HashTable.{
  Bucket, HashTable, at, key_eq, make_room, ph_hashtable_search_direct, ph_hashtable_insert_direct,
  ph_hashtable_resize, ph_hashtable_delete_direct, find_index, bury, ph_hashtable_key_fetch_direct,
}
use phactor.HashTable.Delete.{
  search-find_index, find_index-HitAt, key_fetch-find_index, bury-IsValid, key_at, value_at,
}
use phactor.HashTable.Entries.{
  Entry, entry, entries, hits, count, lookup, count-perm, lookup-perm, lookup-eq-null,
  key_eq_congr_left, lookup_congr,
}
use phactor.HashTable.Resize.{new_entry, resize-Keeps, insert-IsValid}
use phactor.HashTable.Search.{search-lookup}
use phactor.HashTable.Valid.{IsValid}

-- A value in the table is never NULL, so a search that returns NULL finds no entry.
count-zero :
    (key : Option PhString) (hash : ℕ) (bs : List Bucket)
    → lookup key hash (entries bs) ≡ null
    → count key hash (entries bs) ≡ 0
unfolding entries lookup count
count-zero key hash [] h = refl
count-zero key hash (b ∷ bs) h = ground (arith, count-zero key hash bs)

pub absent-count :
    (ht : HashTable) (key : Option PhString) (hash : ℕ)
    → IsValid ht
    → ph_hashtable_search_direct ht key hash ≡ null
    → count key hash (entries ht.values) ≡ 0
absent-count ht key hash v h = count-zero key hash ht.values (sym (search-lookup ht key hash v) ∙ h)

-- whether two keys, each with its hash, are one for the table
abbrev pub same_key : Option PhString → ℕ → Option PhString → ℕ → Bool
same_key key hash key' hash' = (hash == hash') && key_eq key key'

-- Inserting a value that is not NULL under a key that a search does not find, into a
-- well-formed table of less than 2 ^ 30 buckets, with the resize that precedes it, leaves a
-- well-formed table. A search for that key then finds the value, and a search for any other key
-- finds what it found before.
pub search-insert :
    (ht : HashTable) (key : Option PhString) (hash : ℕ) (value : Ptr)
    → IsValid ht
    → ht.size < 2 ^ 30
    → value ≢ null
    → ph_hashtable_search_direct ht key hash ≡ null
    → let ht' = ph_hashtable_insert_direct (make_room ht) key hash value in
      IsValid ht'
      × ((key' : Option PhString) (hash' : ℕ)
          → ph_hashtable_search_direct ht' key' hash' ≡ (
              if same_key key hash key' hash'
              then value
              else ph_hashtable_search_direct ht key' hash'))
search-insert ht key hash value v small ne absent =
    let (valid, perm) =
      insert-IsValid ht key hash value v small ne (absent-count ht key hash v absent) in
    (
      valid,
      λ key' hash'.
          rw (search-lookup _ key' hash' valid, search-lookup ht key' hash' v)
            (lookup-perm key' hash' perm (valid.distinct key' hash') ∙ lookup-new key' hash'),
    )
  where
    lookup-new :
        (key' : Option PhString) (hash' : ℕ)
        → lookup key' hash' (new_entry key hash value ∷ entries ht.values)
          ≡ (if same_key key hash key' hash' then value else lookup key' hash' (entries ht.values))
    lookup-new key' hash' = unfold lookup in refl

lookup-removed :
    (e : Entry) (es : List Entry) (key key' : Option PhString) (hash hash' : ℕ)
    → hits e key hash ≡ true
    → count key' hash' (e ∷ es) ≤ 1
    → lookup key' hash' es
      ≡ (if same_key key hash key' hash' then null else lookup key' hash' (e ∷ es))
unfolding lookup count
lookup-removed e es key key' hash hash' hit few =
    ground (arith, lookup-eq-null key' hash' es, key_eq_congr_left e.key key key')

and_right : (a b : Bool) → (a && b) ≡ true → b ≡ true
and_right a b h = ground arith

some_key :
    (k : Option PhString) (key : PhString)
    → key_eq k (some key) ≡ true
    → (found : PhString) × (k ≡ some found) × (ph_str_eq found key ≡ true)
unfolding key_eq
some_key none key h = cc
some_key (some k) key h = (k, refl, h)

search_same :
    (ht : HashTable) (key key' : Option PhString) (hash hash' : ℕ)
    → IsValid ht
    → ph_hashtable_search_direct ht key hash ≡ null
    → ph_hashtable_search_direct ht key' hash'
      ≡ (if same_key key hash key' hash' then null else ph_hashtable_search_direct ht key' hash')
search_same ht key key' hash hash' v gone =
    let l = sym (search-lookup ht key hash v) ∙ gone in
    rw (search-lookup ht key' hash' v)
      (ground (arith, lookup_congr key key' hash (entries ht.values), l))

removed :
    (ht : HashTable) (key key' : Option PhString) (hash hash' j : ℕ)
    → IsValid ht
    → hits (entry (at ht.values j)) key hash ≡ true
    → Perm (entries ht.values) (entry (at ht.values j) ∷ entries (bury j ht).values)
    → lookup key' hash' (entries (bury j ht).values)
      ≡ (if same_key key hash key' hash' then null else lookup key' hash' (entries ht.values))
removed ht key key' hash hash' j v hit perm =
    rw (lookup-perm key' hash' perm (v.distinct key' hash')) (
      lookup-removed (entry (at ht.values j)) (entries (bury j ht).values) key key' hash hash' hit
        (rw (← count-perm key' hash' perm) (v.distinct key' hash')))

module _ {S : Type 0} (dtor : Ptr → S → S) where
  -- A deletion from a well-formed table leaves a well-formed table in which a search for the
  -- key finds nothing and a search for any other key finds what it found before. The destructor
  -- is called exactly where the key was in the table, once, on the value that a search would
  -- have found.
  pub search-delete :
      (ht : HashTable) (key : Option PhString) (hash : ℕ) (s : S)
      → IsValid ht
      → let (ht', s') = ph_hashtable_delete_direct dtor key hash ht s in
        let value = ph_hashtable_search_direct ht key hash in
        IsValid ht'
        × ((key' : Option PhString) (hash' : ℕ)
            → ph_hashtable_search_direct ht' key' hash' ≡ (
                if same_key key hash key' hash'
                then null
                else ph_hashtable_search_direct ht key' hash'))
        × (s' ≡ (if value == null then s else dtor value s))
  unfolding ph_hashtable_delete_direct
  search-delete ht key hash s v = elim (Option-cases (find_index ht key hash)) [
    | inl e ↦
        let gone : ph_hashtable_search_direct ht key hash ≡ null =
          search-find_index ht key hash ∙ ap (value_at ht.values) e in
        rw (e, ph_hashtable_delete_direct, gone)
          (v, λ key' hash'. search_same ht key key' hash hash' v gone, refl)
    | inr (j, e) ↦
        let (small, hit) = find_index-HitAt ht key hash j v.shaped e in
        let found : ph_hashtable_search_direct ht key hash ≡ (at ht.values j).value =
          search-find_index ht key hash ∙ ap (value_at ht.values) e in
        let (valid, perm) = bury-IsValid ht j v small hit.0 in
        rw (e, ph_hashtable_delete_direct, found)
          (
            valid,
            λ key' hash'.
                rw (search-lookup _ key' hash' valid, search-lookup ht key' hash' v)
                  (removed ht key key' hash hash' j v hit.1 perm),
            ground arith,
          )
  ]

-- Resizing a well-formed table of less than 2 ^ 30 buckets leaves a well-formed table with the
-- result of every search unchanged.
pub search-resize :
    (ht : HashTable)
    → IsValid ht
    → ht.size < 2 ^ 30
    → IsValid (ph_hashtable_resize ht)
      × ((key : Option PhString) (hash : ℕ)
          → ph_hashtable_search_direct (ph_hashtable_resize ht) key hash
            ≡ ph_hashtable_search_direct ht key hash)
search-resize ht v small =
    let (k, size) = resize-Keeps ht v small in
    (
      k.valid,
      λ key hash.
          rw (search-lookup _ key hash k.valid, search-lookup ht key hash v)
            (lookup-perm key hash k.perm (k.valid.distinct key hash)),
    )

-- In a well-formed table `ph_hashtable_key_fetch_direct` finds a key exactly where the search
-- finds a value, and the key that it returns is equal to the one asked for.
pub key_fetch-search :
    (ht : HashTable) (key : PhString) (hash : ℕ)
    → IsValid ht
    → ((ph_hashtable_key_fetch_direct ht (some key) hash ≡ none)
        × (ph_hashtable_search_direct ht (some key) hash ≡ null))
      ⊎ ((found : PhString) × (ph_hashtable_key_fetch_direct ht (some key) hash ≡ some found)
          × (ph_str_eq found key ≡ true)
          × (ph_hashtable_search_direct ht (some key) hash ≢ null))
key_fetch-search ht key hash v = elim (Option-cases (find_index ht (some key) hash)) [
  | inl e ↦ inl (
    key_fetch-find_index ht (some key) hash ∙ ap (key_at ht.values) e,
    search-find_index ht (some key) hash ∙ ap (value_at ht.values) e,
  )
  | inr (j, e) ↦
      let (small, hit) = find_index-HitAt ht (some key) hash j v.shaped e in
      let value = search-find_index ht (some key) hash ∙ ap (value_at ht.values) e in
      let (found, same, eq) = some_key (at ht.values j).key key (and_right _ _ hit.1) in
      inr (
        found,
        key_fetch-find_index ht (some key) hash ∙ ap (key_at ht.values) e ∙ same,
        eq,
        rw value hit.0,
      )
]

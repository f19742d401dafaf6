-- ===== src/Tests/Tables.antt =====
-- Tables of concrete contents, with colliding hashes.
use mathlib.Core.List.{foldl}
use phactor.Base.{ℕ, ◌≡◌, refl, Option, some, [], ◌∷◌, arith, ◌==◌, if◌then◌else◌, null}
use phactor.HashTable.{
  HashTable, home, key_eq, make_room, ph_hashtable_init, ph_hashtable_search_direct,
  ph_hashtable_insert_direct, ph_hashtable_resize, ph_hashtable_delete_direct, ph_hashtable_clear,
}
use phactor.HashTable.Clear.{clear-IsValid}
use phactor.HashTable.Entries.{Entry, entries}
use phactor.HashTable.Laws.{same_key, search-insert, search-delete, search-resize}
use phactor.HashTable.Valid.{IsValid, ph_hashtable_init-IsValid}
use phactor.PhString.{PhString, strncmp_eq, ph_str_eq}

abbrev red : PhString
red = record { len = 1; val = 114 ∷ [] }

abbrev blue : PhString
blue = record { len = 1; val = 98 ∷ [] }

abbrev empty : HashTable
empty = ph_hashtable_init 2

empty-IsValid : IsValid empty
empty-IsValid = ph_hashtable_init-IsValid 2 (omega arith) (omega arith)

-- `red`, with the hash 3
abbrev one : HashTable
one = ph_hashtable_insert_direct (make_room empty) (some red) 3 100

empty_search : ph_hashtable_search_direct empty (some red) 3 ≡ null
unfolding ph_hashtable_init ph_hashtable_search_direct home
empty_search = refl

one-IsValid : IsValid one
unfolding ph_hashtable_init
one-IsValid =
    (search-insert empty (some red) 3 100 empty-IsValid (omega arith) (λ e. omega arith)
      empty_search).0

one-size : one.size ≡ 2
unfolding ph_hashtable_init ph_hashtable_insert_direct make_room
one-size = refl

one_search : ph_hashtable_search_direct one (some blue) 3 ≡ null
unfolding ph_hashtable_init ph_hashtable_search_direct ph_hashtable_insert_direct make_room home
    key_eq ph_str_eq strncmp_eq
one_search = refl

-- `blue` collides with `red` in a full table, which is made larger for it
search-insert_example :
    let two = ph_hashtable_insert_direct (make_room one) (some blue) 3 200 in
    IsValid two
    × ((key : Option PhString) (hash : ℕ)
        → ph_hashtable_search_direct two key hash ≡ (
            if same_key (some blue) 3 key hash
            then 200
            else ph_hashtable_search_direct one key hash))
search-insert_example =
    search-insert one (some blue) 3 200 one-IsValid (omega (arith, one-size)) (λ e. omega arith)
      one_search

search-delete_example :
    let (ht', s') = ph_hashtable_delete_direct (λ p freed. p ∷ freed) (some red) 3 one [] in
    let value = ph_hashtable_search_direct one (some red) 3 in
    IsValid ht'
    × ((key : Option PhString) (hash : ℕ)
        → ph_hashtable_search_direct ht' key hash ≡ (
            if same_key (some red) 3 key hash
            then null
            else ph_hashtable_search_direct one key hash))
    × (s' ≡ (if value == null then [] else value ∷ []))
search-delete_example = search-delete (λ p freed. p ∷ freed) one (some red) 3 [] one-IsValid

search-resize_example :
    IsValid (ph_hashtable_resize one)
    × ((key : Option PhString) (hash : ℕ)
        → ph_hashtable_search_direct (ph_hashtable_resize one) key hash
          ≡ ph_hashtable_search_direct one key hash)
search-resize_example = search-resize one one-IsValid (omega (arith, one-size))

clear-IsValid_example :
    let (ht', s') = ph_hashtable_clear (λ p freed. p ∷ freed) one [] in
    IsValid ht'
    × (ht'.size ≡ one.size)
    × ((key : Option PhString) (hash : ℕ) → ph_hashtable_search_direct ht' key hash ≡ null)
    × (s' ≡ foldl (λ freed (e : Entry). e.value ∷ freed) [] (entries one.values))
clear-IsValid_example = clear-IsValid (λ p freed. p ∷ freed) one [] one-IsValid

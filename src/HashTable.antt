-- ===== src/HashTable.antt =====
-- src/ds/ph_hashtable.h and src/ds/ph_hashtable.c: an open-addressing table with Robin Hood
-- insertion and tombstones. A bucket's key is the string that the key pointer leads to, `none` for
-- a NULL key; a value is a pointer. The destructor is an argument of the operations that call it:
-- a change of some state `S`. An index and a variance stay below `size`, so `++index` and
-- `++variance` cannot overflow; `size` and `used` are kept modulo 2 ^ 32.
pub mod Entries
pub mod Probe
pub mod Valid
pub mod Search
pub mod Insert
pub mod Resize
pub mod Delete
pub mod Laws
pub mod Clear
pub mod Single
use Prim.Native.Nat.{bit_and}
use phactor.Base.{
  ℕ, zero, suc, ◌+◌, ◌-◌, ◌/◌, Bool, true, false, not, ◌&&◌, Option, none, some, List, [], ◌∷◌,
  ◌==◌, ltb, if◌then◌else◌, Ptr, null, get_or, set, replicate,
}
use phactor.Base.Words.{incr, decr, shl_one}
use phactor.PhString.{PhString, ph_str_eq}

pub record Bucket : Type 0 where
  pub key : Option PhString
  pub value : Ptr
  pub hash : ℕ
  pub variance : ℕ

-- what `calloc` leaves
abbrev pub empty_bucket : Bucket
empty_bucket = record { key = none; value = null; hash = 0; variance = 0 }

abbrev pub tombstone : Bucket
tombstone = record { key = none; value = null; hash = 1; variance = 0 }

pub record HashTable : Type 0 where
  pub values : List Bucket
  pub size : ℕ
  pub used : ℕ

unfoldable pub ph_hashtable_init : ℕ → HashTable
ph_hashtable_init size = record { values = replicate size empty_bucket; size = size; used = 0 }

-- `ht->values + index`
abbrev pub at : List Bucket → ℕ → Bucket
at bs index = get_or bs index empty_bucket

-- `hash & (ht->size - 1)`
unfoldable pub home : ℕ → ℕ → ℕ
home hash size = bit_and hash (size - 1)

-- `if (++index == ht->size) index = 0`
abbrev pub next_index : ℕ → ℕ → ℕ
next_index size index = if index + 1 == size then 0 else index + 1

-- `!(!!b->key ^ !!key) && (!key || ph_str_eq(b->key, key))`
unfoldable pub key_eq : Option PhString → Option PhString → Bool
key_eq none none = true
key_eq none (some k) = false
key_eq (some b) none = false
key_eq (some b) (some k) = ph_str_eq b k

abbrev pub matches : Bucket → Option PhString → ℕ → Bool
matches b key hash = (b.hash == hash) && key_eq b.key key

-- The loops over `i` recur on the rounds left.
search_loop : List Bucket → ℕ → Option PhString → ℕ → ℕ → ℕ → Ptr
search_loop bs size key hash zero index = null
search_loop bs size key hash (suc rounds) index =
    let b = at bs index in
    let rest = search_loop bs size key hash rounds (next_index size index) in
    if b.value == null
    then (if b.hash == 0 then null else rest)
    else if matches b key hash
    then b.value
    else rest

unfoldable pub ph_hashtable_search_direct : HashTable → Option PhString → ℕ → Ptr
unfolding search_loop
ph_hashtable_search_direct ht key hash =
    search_loop ht.values ht.size key hash ht.size (home hash ht.size)

key_fetch_loop : List Bucket → ℕ → Option PhString → ℕ → ℕ → ℕ → Option PhString
key_fetch_loop bs size key hash zero index = none
key_fetch_loop bs size key hash (suc rounds) index =
    let b = at bs index in
    let rest = key_fetch_loop bs size key hash rounds (next_index size index) in
    if b.value == null
    then (if b.hash == 0 then none else rest)
    else if matches b key hash
    then b.key
    else rest

unfoldable pub ph_hashtable_key_fetch_direct : HashTable → Option PhString → ℕ → Option PhString
unfolding key_fetch_loop
ph_hashtable_key_fetch_direct ht key hash =
    key_fetch_loop ht.values ht.size key hash ht.size (home hash ht.size)

-- `e` is the entry in hand: the local variables `hash`, `key`, `value` and `variance`
insert_loop : ℕ → ℕ → ℕ → Bucket → List Bucket → List Bucket
insert_loop size zero index e bs = bs
insert_loop size (suc rounds) index e bs =
    let b = at bs index in
    let swap = ltb b.variance e.variance in
    let hand = if swap then b else e in
    let rest =
      insert_loop size rounds (next_index size index) (record hand { variance = hand.variance + 1 })
        (if swap then set bs index e else bs) in
    if b.value == null then set bs index e else rest

unfoldable pub ph_hashtable_insert_direct : HashTable → Option PhString → ℕ → Ptr → HashTable
unfolding insert_loop
ph_hashtable_insert_direct ht key hash value = record ht {
  values =
      insert_loop ht.size ht.size (home hash ht.size)
        (record { key = key; value = value; hash = hash; variance = 0 }) ht.values;
  used = incr ht.used;
}

unfoldable pub ph_hashtable_repopulate : HashTable → List Bucket → HashTable
ph_hashtable_repopulate ht [] = ht
ph_hashtable_repopulate ht (b ∷ bs) =
    ph_hashtable_repopulate
      (if b.value == null then ht else ph_hashtable_insert_direct ht b.key b.hash b.value) bs

unfoldable pub ph_hashtable_resize : HashTable → HashTable
ph_hashtable_resize ht =
    ph_hashtable_repopulate
      (record {
        values = replicate (shl_one ht.size) empty_bucket;
        size = shl_one ht.size;
        used = 0;
      })
      ht.values

-- the resize at 75% capacity, which `ph_hashtable_insert_ind` and `ph_hashtable_insert` begin with
unfoldable pub make_room : HashTable → HashTable
make_room ht = if ht.used == ht.size - ht.size / 4 then ph_hashtable_resize ht else ht

unfoldable pub ph_hashtable_insert_ind : HashTable → ℕ → Ptr → HashTable
ph_hashtable_insert_ind ht hash value = ph_hashtable_insert_direct (make_room ht) none hash value

-- where the loop of `ph_hashtable_delete_direct` finds the entry
delete_loop : List Bucket → ℕ → Option PhString → ℕ → ℕ → ℕ → Option ℕ
delete_loop bs size key hash zero index = none
delete_loop bs size key hash (suc rounds) index =
    let b = at bs index in
    let rest = delete_loop bs size key hash rounds (next_index size index) in
    if b.value == null
    then (if b.hash == 0 then none else rest)
    else if matches b key hash
    then some index
    else rest

unfoldable pub find_index : HashTable → Option PhString → ℕ → Option ℕ
unfolding delete_loop
find_index ht key hash = delete_loop ht.values ht.size key hash ht.size (home hash ht.size)

-- what follows the call of the destructor
unfoldable pub bury : ℕ → HashTable → HashTable
bury index ht = record ht { values = set ht.values index tombstone; used = decr ht.used }

-- `update` does not look at `b->value`, and does not stop at an empty bucket
update_loop : ℕ → Option PhString → ℕ → Ptr → ℕ → ℕ → List Bucket → List Bucket
update_loop size key hash value zero index bs = bs
update_loop size key hash value (suc rounds) index bs =
    let b = at bs index in
    let rest = update_loop size key hash value rounds (next_index size index) bs in
    if matches b key hash then set bs index (record b { value = value }) else rest

unfoldable pub ph_hashtable_update_direct : HashTable → Option PhString → ℕ → Ptr → HashTable
unfolding update_loop
ph_hashtable_update_direct ht key hash value = record ht {
  values = update_loop ht.size key hash value ht.size (home hash ht.size) ht.values;
}

unfoldable pub clear_buckets : List Bucket → List Bucket
clear_buckets [] = []
clear_buckets (b ∷ bs) = (if b.value == null then b else empty_bucket) ∷ clear_buckets bs

module _ {S : Type 0} where
  -- a destructor that does not touch the table that it is called for
  unfoldable pub ph_hashtable_delete_direct :
      (Ptr → S → S) → Option PhString → ℕ → HashTable → S → HashTable × S
  ph_hashtable_delete_direct dtor key hash ht s = elim (find_index ht key hash) [
    | none ↦ (ht, s)
    | some index ↦ (bury index ht, dtor (at ht.values index).value s)
  ]

  unfoldable pub apply_loop : (Ptr → S → S) → List Bucket → S → S
  apply_loop f [] s = s
  apply_loop f (b ∷ bs) s = apply_loop f bs (if b.value == null then s else f b.value s)

  unfoldable pub ph_hashtable_apply : (Ptr → S → S) → HashTable → S → S
  ph_hashtable_apply f ht s = apply_loop f ht.values s

  -- the destructor runs over the values in the order of the buckets
  unfoldable pub ph_hashtable_clear : (Ptr → S → S) → HashTable → S → HashTable × S
  ph_hashtable_clear dtor ht s =
      (record ht { values = clear_buckets ht.values; used = 0 }, apply_loop dtor ht.values s)

-- `zend_hash_func` is PHP's.
module _ (zend_hash_func : PhString → ℕ) where
  unfoldable pub ph_hashtable_insert : HashTable → PhString → Ptr → HashTable
  ph_hashtable_insert ht key value =
      ph_hashtable_insert_direct (make_room ht) (some key) (zend_hash_func key) value

  unfoldable pub ph_hashtable_search : HashTable → PhString → Ptr
  ph_hashtable_search ht key = ph_hashtable_search_direct ht (some key) (zend_hash_func key)

  unfoldable pub ph_hashtable_key_fetch : HashTable → PhString → Option PhString
  ph_hashtable_key_fetch ht key = ph_hashtable_key_fetch_direct ht (some key) (zend_hash_func key)

  unfoldable pub ph_hashtable_update : HashTable → PhString → Ptr → HashTable
  ph_hashtable_update ht key value =
      ph_hashtable_update_direct ht (some key) (zend_hash_func key) value

-- ===== src/HashTable/Resize.antt =====
-- `ph_hashtable_resize` and the inserts that may resize.
use mathlib.Core.List.{append-nil, perm_middle}
use mathlib.Core.List.Perm
use phactor.Base.{
  ℕ, ◌+◌, ◌-◌, ◌*◌, ◌/◌, ◌^◌, ◌≤◌, ◌<◌, ◌≡◌, refl, ◌∙◌, ◌≢◌, inl, inr, Option, List, [], ◌∷◌, ◌++◌,
  Perm, arith, Bool-cases, ◌==◌, Ptr, null, length, replicate, length-replicate,
}
use phactor.Base.Words.{shl_one}
use phactor.PhString.{PhString}
use phactor.HashTable.{
  Bucket, empty_bucket, HashTable, ph_hashtable_insert_direct, ph_hashtable_repopulate,
  ph_hashtable_resize, make_room,
}
use phactor.HashTable.Entries.{Entry, entries, count, count-perm, count_congr}
use phactor.HashTable.Insert.{insert_direct-Adds}
use phactor.HashTable.Valid.{IsShaped, IsValid, entries-replicate, replicate-IsPlaced}

record Repopulates (es : List Entry) (ht ht' : HashTable) : Type 0 where
  shaped : IsShaped ht'
  perm : Perm (entries ht'.values) (es ++ entries ht.values)
  used : ht'.used ≡ ht.used + length es
  size : ht'.size ≡ ht.size

repopulate-Repopulates :
    (bs : List Bucket) (ht : HashTable)
    → IsShaped ht
    → ht.used + length (entries bs) ≤ ht.size
    → Repopulates (entries bs) ht (ph_hashtable_repopulate ht bs)
unfolding ph_hashtable_repopulate entries
repopulate-Repopulates [] ht v room = record {
  shaped = v;
  perm = Perm.refl _;
  used = omega arith;
  size = refl;
}
repopulate-Repopulates (b ∷ bs) ht v room = elim (Bool-cases (b.value == null)) [
  | inl e ↦ rw e (repopulate-Repopulates bs ht v (ground arith))
  | inr e ↦ rw e (
      let one = insert_direct-Adds ht b.key b.hash b.value v (ground arith) (ground arith) in
      let fits : length (entries bs) + ht.used + 1 ≤ ht.size = ground arith in
      let r =
        repopulate-Repopulates bs (ph_hashtable_insert_direct ht b.key b.hash b.value) one.shaped
          (omega (arith, one.used, one.size)) in
      record {
        shaped = r.shaped;
        perm = Perm.trans r.perm (
            Perm.trans (Perm.append_left (entries bs) one.perm)
              (perm_middle (entries bs) (entries ht.values)));
        used = omega (arith, r.used, one.used);
        size = r.size ∙ one.size;
      })
]

-- What an operation that keeps the entries makes of the table.
pub record Keeps (ht ht' : HashTable) : Type 0 where
  pub valid : IsValid ht'
  pub perm : Perm (entries ht'.values) (entries ht.values)
  pub used : ht'.used ≡ ht.used

-- `ph_hashtable_resize` doubles the size, loses no entry and makes none up, and leaves a
-- well-formed table, as long as the doubled size is an `int`.
pub resize-Keeps :
    (ht : HashTable)
    → IsValid ht
    → ht.size < 2 ^ 30
    → Keeps ht (ph_hashtable_resize ht) × ((ph_hashtable_resize ht).size ≡ ht.size * 2)
unfolding ph_hashtable_resize
resize-Keeps ht v small =
    let double : shl_one ht.size ≡ ht.size * 2 = omega arith in
    let start : HashTable = record {
      values = replicate (shl_one ht.size) empty_bucket;
      size = shl_one ht.size;
      used = 0;
    } in
    let r =
      repopulate-Repopulates ht.values start
        (record {
          width = length-replicate (shl_one ht.size) empty_bucket;
          positive = omega (arith, v.shaped.positive);
          small = omega arith;
          counted = rw entries-replicate;
          placed = replicate-IsPlaced (shl_one ht.size) (shl_one ht.size);
        })
        (omega (arith, v.shaped.counted, v.load)) in
    let perm = rw (entries-replicate (shl_one ht.size), append-nil) at r.perm in
    let used : (ph_hashtable_resize ht).used ≡ ht.used = omega (arith, r.used, v.shaped.counted) in
    (
      record {
        valid = record {
          shaped = r.shaped;
          load = omega (arith, used, r.size, v.load);
          distinct = λ key hash. rw (count-perm key hash perm) (v.distinct key hash);
        };
        perm = perm;
        used = used;
      },
      r.size ∙ double,
    )

-- Before an insertion there is room below the threshold.
pub make_room-Keeps :
    (ht : HashTable)
    → IsValid ht
    → ht.size < 2 ^ 30
    → Keeps ht (make_room ht)
      × ((make_room ht).used < (make_room ht).size - (make_room ht).size / 4)
unfolding make_room
make_room-Keeps ht v small = elim (Bool-cases (ht.used == ht.size - ht.size / 4)) [
  | inl e ↦ rw e (
      let (k, size) = resize-Keeps ht v small in
      let full : ht.used ≡ ht.size - ht.size / 4 = ground arith in
      (k, omega (arith, size, k.used, v.shaped.positive)))
  | inr e ↦ rw e (
      let room : ht.used ≢ ht.size - ht.size / 4 = ground arith in
      (record { valid = v; perm = Perm.refl _; used = refl }, omega (arith, v.load)))
]

abbrev pub new_entry : Option PhString → ℕ → Ptr → Entry
new_entry key hash value = record { key = key; hash = hash; value = value }

count-cons :
    (key key' : Option PhString) (hash hash' : ℕ) (value : Ptr) (es : List Entry)
    → count key hash es ≡ 0
    → count key' hash' es ≤ 1
    → count key' hash' (new_entry key hash value ∷ es) ≤ 1
unfolding count
count-cons key key' hash hash' value es none_yet few = ground (arith, count_congr key key' hash es)

-- An insertion, after the room is made, under a key that is not in the table yet.
pub insert-IsValid :
    (ht : HashTable) (key : Option PhString) (hash : ℕ) (value : Ptr)
    → IsValid ht
    → ht.size < 2 ^ 30
    → value ≢ null
    → count key hash (entries ht.values) ≡ 0
    → let ht' = ph_hashtable_insert_direct (make_room ht) key hash value in
      IsValid ht' × Perm (entries ht'.values) (new_entry key hash value ∷ entries ht.values)
insert-IsValid ht key hash value v small ne absent =
    let (k, room) = make_room-Keeps ht v small in
    let a = insert_direct-Adds (make_room ht) key hash value k.valid.shaped (omega arith) ne in
    let perm = Perm.trans a.perm (Perm.cons (new_entry key hash value) k.perm) in
    (
      record {
        shaped = a.shaped;
        load = omega (arith, a.used, a.size);
        distinct = λ key' hash'. rw (count-perm key' hash' perm) (
            count-cons key key' hash hash' value (entries ht.values) absent
              (v.distinct key' hash'));
      },
      perm,
    )

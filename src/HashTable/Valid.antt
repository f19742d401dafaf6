-- ===== src/HashTable/Valid.antt =====
-- The well-formedness of a table.
use phactor.Base.{
  ℕ, zero, suc, ◌-◌, ◌/◌, ◌^◌, ◌≤◌, ◌<◌, ◌≡◌, refl, ◌≢◌, Option, List, [], arith, null, length,
  replicate, length-replicate, get_or-replicate,
}
use phactor.PhString.{PhString}
use phactor.HashTable.{Bucket, empty_bucket, HashTable, at, home, ph_hashtable_init}
use phactor.HashTable.Entries.{entries, count}
use phactor.HashTable.Probe.{Walk}

-- A search for the entry of any occupied bucket gets there: no virgin bucket stands between the
-- entry's home and its place, and the bucket's variance is the distance.
abbrev pub IsPlaced : ℕ → List Bucket → Type 0
IsPlaced size bs =
    (j : ℕ)
    → (at bs j).value ≢ null
    → ((at bs j).variance < size) × Walk size bs (at bs j).variance (home (at bs j).hash size) j

abbrev pub IsDistinct : List Bucket → Type 0
IsDistinct bs = (key : Option PhString) (hash : ℕ) → count key hash (entries bs) ≤ 1

-- The size is a positive `int`, `used` counts the entries, and every entry is placed.
pub record IsShaped (ht : HashTable) : Type 0 where
  pub width : length ht.values ≡ ht.size
  pub positive : 0 < ht.size
  pub small : ht.size < 2 ^ 31
  pub counted : ht.used ≡ length (entries ht.values)
  pub placed : IsPlaced ht.size ht.values

-- Also, at most three quarters of the buckets are occupied (of less than four, all may be), and no
-- key occurs twice.
pub record IsValid (ht : HashTable) : Type 0 where
  pub shaped : IsShaped ht
  pub load : ht.used ≤ ht.size - ht.size / 4
  pub distinct : IsDistinct ht.values

pub entries-replicate : (n : ℕ) → entries (replicate n empty_bucket) ≡ []
unfolding entries
entries-replicate zero = refl
entries-replicate (suc n) = entries-replicate n

pub replicate-IsPlaced : (size n : ℕ) → IsPlaced size (replicate n empty_bucket)
replicate-IsPlaced size n j h = absurd (h (rw get_or-replicate))

pub ph_hashtable_init-IsValid :
    (size : ℕ) → 0 < size → size < 2 ^ 31 → IsValid (ph_hashtable_init size)
unfolding ph_hashtable_init count
ph_hashtable_init-IsValid size pos small = record {
  shaped = record {
    width = length-replicate size empty_bucket;
    positive = pos;
    small = small;
    counted = rw entries-replicate;
    placed = replicate-IsPlaced size size;
  };
  load = omega arith;
  distinct = λ key hash. rw entries-replicate (omega arith);
}

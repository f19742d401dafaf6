-- ===== src/HashTable/Single.antt =====
-- A table of one bucket, as the workers of a new supervisor are.
use phactor.Base.{ℕ, ◌≡◌, refl, none, [], ◌∷◌, arith, Ptr}
use phactor.Base.Words.{bit_and-le}
use phactor.HashTable.{
  home, ph_hashtable_init, insert_loop, ph_hashtable_insert_direct, ph_hashtable_insert_ind,
  make_room,
}

home_one : (hash : ℕ) → home hash 1 ≡ 0
unfolding home
home_one hash = omega (arith, bit_and-le hash 0)

pub insert_ind-init :
    (hash : ℕ) (value : Ptr)
    → (ph_hashtable_insert_ind (ph_hashtable_init 1) hash value).values
      ≡ record { key = none; value = value; hash = hash; variance = 0 } ∷ []
unfolding ph_hashtable_insert_ind ph_hashtable_insert_direct make_room ph_hashtable_init insert_loop
insert_ind-init hash value = rw (home_one hash) refl

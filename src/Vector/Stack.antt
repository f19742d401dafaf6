-- ===== src/Vector/Stack.antt =====
-- The operations of src/ds/ph_vector.c against a stack whose top is the last element.
use mathlib.Core.List.{foldl}
use phactor.Base.{
  drop, ℕ, zero, suc, ◌+◌, ◌-◌, ◌^◌, ◌≤◌, ◌<◌, ◌≡◌, refl, ap, ◌∙◌, ◌≢◌, ◌⊎◌, inl, inr, List, [],
  ◌∷◌, ◌++◌, arith, Bool-cases, ◌==◌, if◌then◌else◌, Ptr, null, length, get_or, set, replicate,
  take, length-append, length-set, length-replicate,
}
use phactor.Base.Words.{incr, decr, shl_one}
use phactor.Vector.{
  Vector, realloc, ph_vector_space_check, ph_vector_push, ph_vector_pop, ph_vector_size,
  destroy_loop, ph_vector_destroy,
}

-- `used` slots of an array of `size` slots are in use.
pub record IsValid (v : Vector) : Type 0 where
  pub width : length v.values ≡ v.size
  pub within : v.used ≤ v.size

-- the elements, in the order of the pushes
unfoldable pub elements : Vector → List Ptr
elements v = take v.used v.values

take-set :
    (xs : List Ptr) (n : ℕ) (x : Ptr)
    → n < length xs
    → take (suc n) (set xs n x) ≡ take n xs ++ x ∷ []
take-set [] n x h = absurd (omega arith)
take-set (y ∷ xs) zero x h = refl
take-set (y ∷ xs) (suc n) x h = ap (◌∷◌ y) (take-set xs n x (omega arith))

take-append : (xs ys : List Ptr) (n : ℕ) → n ≤ length xs → take n (xs ++ ys) ≡ take n xs
take-append xs ys zero h = refl
take-append [] ys (suc n) h = absurd (omega arith)
take-append (x ∷ xs) ys (suc n) h = ap (◌∷◌ x) (take-append xs ys n (omega arith))

take_all : (xs : List Ptr) (n : ℕ) → length xs ≡ n → take n xs ≡ xs
take_all [] zero h = refl
take_all [] (suc n) h = refl
take_all (x ∷ xs) zero h = absurd (omega arith)
take_all (x ∷ xs) (suc n) h = ap (◌∷◌ x) (take_all xs n (omega arith))

take-suc :
    (xs : List Ptr) (n : ℕ) → n < length xs → take (suc n) xs ≡ take n xs ++ get_or xs n null ∷ []
take-suc [] n h = absurd (omega arith)
take-suc (x ∷ xs) zero h = refl
take-suc (x ∷ xs) (suc n) h = ap (◌∷◌ x) (take-suc xs n (omega arith))

realloc_grow :
    (values : List Ptr) (size new_size : ℕ)
    → length values ≡ size
    → size ≤ new_size
    → realloc values size new_size ≡ values ++ replicate (new_size - size) null
realloc_grow values size new_size w h =
    take_all (values ++ replicate (new_size - size) null) new_size (
      omega (
        arith,
        length-append values (replicate (new_size - size) null),
        length-replicate (new_size - size) null,
      ))

-- The check leaves room for one more element, and the elements as they are.
space_check_lem :
    (v : Vector)
    → IsValid v
    → v.size < 2 ^ 31
    → let v' = ph_vector_space_check v in
      (length v'.values ≡ v'.size)
      × (v'.used < v'.size)
      × (v'.used ≡ v.used)
      × (take v.used v'.values ≡ take v.used v.values)
unfolding ph_vector_space_check
space_check_lem v valid small =
    let size = if v.size == 0 then 1 else shl_one v.size in
    let bigger : v.size < size = ground arith in
    elim (Bool-cases (v.used == v.size)) [
      | inl e ↦
          rw (e, realloc_grow v.values v.size size valid.width (omega arith))
            (
              omega (
                arith,
                valid.width,
                length-append v.values (replicate (size - v.size) null),
                length-replicate (size - v.size) null,
              ),
              ground arith,
              refl,
              take-append v.values (replicate (size - v.size) null) v.used
                  (omega (arith, valid.width, valid.within)),
            )
      | inr e ↦ rw e (
        valid.width,
        (let ne : v.used ≢ v.size = ground arith in omega (arith, valid.within)),
        refl,
        refl,
      )
    ]

-- A push puts the value behind the elements of a well-formed vector of a size below 2 ^ 30,
-- whether or not the array has to grow, and leaves it well-formed with one element more.
pub elements-push :
    (v : Vector) (x : Ptr)
    → IsValid v
    → v.size < 2 ^ 30
    → IsValid (ph_vector_push v x)
      × (elements (ph_vector_push v x) ≡ elements v ++ x ∷ [])
      × (ph_vector_size (ph_vector_push v x) ≡ ph_vector_size v + 1)
unfolding ph_vector_push elements ph_vector_size
elements-push v x valid small =
    let (width, room, used, same) = space_check_lem v valid (omega arith) in
    let v' = ph_vector_space_check v in
    let next : incr v'.used ≡ suc v'.used = omega (arith, used, valid.within, small) in
    (
      record { width = length-set v'.values v'.used x ∙ width; within = omega arith },
      rw next (
          take-set v'.values v'.used x (omega arith)
          ∙ ap (λ (l : List Ptr). l ++ x ∷ []) (ap (λ n. take n v'.values) used ∙ same)),
      omega arith,
    )

-- A pop of an empty vector returns NULL and changes nothing. Any other pop of a well-formed
-- vector of a size below 2 ^ 31 returns the last element and leaves those before it, in a
-- well-formed vector.
pub elements-pop :
    (v : Vector)
    → IsValid v
    → v.size < 2 ^ 31
    → let (x, v') = ph_vector_pop v in
      ((v.used ≡ 0) × (x ≡ null) × (v' ≡ v))
      ⊎ (IsValid v' × (elements v ≡ elements v' ++ x ∷ []) × (v'.used + 1 ≡ v.used))
unfolding ph_vector_pop elements
elements-pop v valid small = elim (Bool-cases (v.used == 0)) [
  | inl e ↦ rw e (inl (ground arith, refl, refl))
  | inr e ↦
      let pos : 0 < v.used = ground arith in
      let prev : v.used ≡ suc (decr v.used) = omega (arith, valid.within) in
      rw e (
        inr (
          record { width = valid.width; within = omega (arith, valid.within) },
          ap (λ n. take n v.values) prev
              ∙ take-suc v.values (decr v.used) (omega (arith, valid.width, valid.within)),
          omega arith,
        ))
]

drop_suc : (xs : List Ptr) (i : ℕ) → i < length xs → drop i xs ≡ get_or xs i null ∷ drop (i + 1) xs
drop_suc [] i h = absurd (omega arith)
drop_suc (x ∷ xs) zero h = refl
drop_suc (x ∷ xs) (suc i) h =
    let n : suc i + 1 ≡ suc (i + 1) = omega arith in rw n (drop_suc xs i (omega arith))

destroy_loop-foldl :
    {S : Type 0} (dtor : Ptr → S → S) (values : List Ptr) (n i : ℕ) (s : S) (xs : List Ptr)
    → i + n ≤ length values
    → xs ≡ take n (drop i values)
    → destroy_loop dtor values n i s ≡ foldl (λ t x. dtor x t) s xs
unfolding destroy_loop
destroy_loop-foldl dtor values zero i s xs h e = rw e
destroy_loop-foldl dtor values (suc n) i s xs h e =
    rw (e, drop_suc values i (omega arith))
      (destroy_loop-foldl dtor values n (i + 1) (dtor (get_or values i null) s)
        (take n (drop (i + 1) values)) (omega arith) refl)

-- The destruction of a well-formed vector calls the destructor once on each element, from the
-- oldest to the newest, and on no slot that is not in use.
pub vector_destroy-foldl :
    {S : Type 0} (dtor : Ptr → S → S) (v : Vector) (s : S)
    → IsValid v
    → ph_vector_destroy dtor v s ≡ foldl (λ t x. dtor x t) s (elements v)
unfolding ph_vector_destroy elements
vector_destroy-foldl dtor v s valid =
    destroy_loop-foldl dtor v.values v.used 0 s (take v.used v.values)
      (omega (arith, valid.width, valid.within)) refl

-- ===== src/ActorRef/Names.antt =====
-- The references that `ph_actor_ref_set` prints.
use native.Mathlib.Nat.{pow-suc}
use phactor.Base.{
  ℕ, zero, suc, ◌+◌, ◌/◌, ◌%◌, ◌^◌, ◌≤◌, ◌<◌, ◌≡◌, refl, sym, ◌∙◌, ◌≢◌, Bool, true, false, List, [],
  ◌∷◌, ◌++◌, inl, inr, arith, Bool-cases, length, length-append,
}
use phactor.ActorRef.{pad_digits, ref_bytes, actor_ref_string}
use phactor.PhString.{strncmp_eq, ph_str_eq}
use phactor.PhString.Equality.{NoNul}

length-pad_digits : (w n : ℕ) → length (pad_digits w n) ≡ w
unfolding pad_digits
length-pad_digits zero n = refl
length-pad_digits (suc w) n =
    length-append (pad_digits w (n / 10)) ((b'0' + n % 10) ∷ [])
    ∙ omega (arith, length-pad_digits w (n / 10))

NoNul-append : (xs ys : List ℕ) → NoNul xs → NoNul ys → NoNul (xs ++ ys)
NoNul-append [] ys a b = b
NoNul-append (x ∷ xs) ys a b = (a.0, NoNul-append xs ys a.1 b)

pad_digits-NoNul : (w n : ℕ) → NoNul (pad_digits w n)
unfolding pad_digits
pad_digits-NoNul zero n = tt
pad_digits-NoNul (suc w) n =
    NoNul-append (pad_digits w (n / 10)) ((b'0' + n % 10) ∷ []) (pad_digits-NoNul w (n / 10))
      (omega arith)

-- the last element of a list that ends in `x`
snoc_injective :
    (xs ys : List ℕ) (x y : ℕ)
    → length xs ≡ length ys
    → xs ++ x ∷ [] ≡ ys ++ y ∷ []
    → (xs ≡ ys) × (x ≡ y)
snoc_injective [] [] x y l e = (refl, cc)
snoc_injective [] (b ∷ ys) x y l e = absurd (omega arith)
snoc_injective (a ∷ xs) [] x y l e = absurd (omega arith)
snoc_injective (a ∷ xs) (b ∷ ys) x y l e =
    let (p, q) = snoc_injective xs ys x y (omega arith) (cc) in (cc, q)

pad_digits-injective :
    (w n m : ℕ) → n < 10 ^ w → m < 10 ^ w → pad_digits w n ≡ pad_digits w m → n ≡ m
unfolding pad_digits
pad_digits-injective zero n m a b e = omega arith
pad_digits-injective (suc w) n m a b e =
    let (p, q) =
      snoc_injective (pad_digits w (n / 10)) (pad_digits w (m / 10)) (b'0' + n % 10) (b'0' + m % 10)
        (length-pad_digits w (n / 10) ∙ sym (length-pad_digits w (m / 10))) e in
    let scale = pow-suc 10 w in
    let r = pad_digits-injective w (n / 10) (m / 10) (omega arith) (omega arith) p in omega arith

strncmp_eq-prefix :
    (n : ℕ) (xs ys s t : List ℕ)
    → NoNul xs
    → length xs ≡ length ys
    → length xs ≤ n
    → strncmp_eq n (xs ++ s) (ys ++ t) ≡ true
    → xs ≡ ys
unfolding strncmp_eq
strncmp_eq-prefix n [] [] s t a l h e = refl
strncmp_eq-prefix n [] (y ∷ ys) s t a l h e = absurd (omega arith)
strncmp_eq-prefix n (x ∷ xs) [] s t a l h e = absurd (omega arith)
strncmp_eq-prefix zero (x ∷ xs) (y ∷ ys) s t a l h e = absurd (omega arith)
strncmp_eq-prefix (suc n) (x ∷ xs) (y ∷ ys) s t a l h e =
    ground (arith, strncmp_eq-prefix n xs ys s t a.1)

strncmp_eq-common :
    (n m : ℕ) (xs s t : List ℕ)
    → NoNul xs
    → n ≡ length xs + m
    → strncmp_eq n (xs ++ s) (xs ++ t) ≡ true
    → strncmp_eq m s t ≡ true
unfolding strncmp_eq
strncmp_eq-common n m [] s t a h e = let same : n ≡ m = omega arith in rw same at e
strncmp_eq-common zero m (x ∷ xs) s t a h e = absurd (omega arith)
strncmp_eq-common (suc n) m (x ∷ xs) s t a h e =
    strncmp_eq-common n m xs s t a.1 (omega arith) (ground arith)

-- Two different ids below 2 ^ 31 give refs that `ph_str_eq` tells apart.
pub actor_ref_string-injective :
    (id id' : ℕ)
    → id < 2 ^ 31
    → id' < 2 ^ 31
    → id ≢ id'
    → ph_str_eq (actor_ref_string id) (actor_ref_string id') ≡ false
unfolding actor_ref_string ph_str_eq ref_bytes
actor_ref_string-injective id id' a b ne = elim (Bool-cases same) [
  | inl e ↦ absurd (
      ne (
        pad_digits-injective 10 id id' (omega arith) (omega arith) (
          strncmp_eq-prefix 11 (pad_digits 10 id) (pad_digits 10 id') (0 ∷ []) (0 ∷ [])
            (pad_digits-NoNul 10 id) (length-pad_digits 10 id ∙ sym (length-pad_digits 10 id'))
            (omega (arith, length-pad_digits 10 id))
            (strncmp_eq-common 33 11 (pad_digits 22 0) _ _ (pad_digits-NoNul 22 0)
              (omega (arith, length-pad_digits 22 0)) e))))
  | inr e ↦ e
]
  where
    same : Bool
    same = strncmp_eq 33 (ref_bytes id) (ref_bytes id')

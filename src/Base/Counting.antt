-- ===== src/Base/Counting.antt =====
-- How many of the first numbers have a property, for threads by their offset.
use Prim.Native.Nat.{ℕ, zero, suc, ◌+◌, ◌≤◌, ◌<◌}
use mathlib.Core.Path.{◌≡◌, refl, sym, ap, ◌∙◌}
use mathlib.Core.Logic.{inl, inr}
use mathlib.Core.Bool.{Bool, true, false}
use native.Mathlib.Omega.{arith}
use phactor.Base.Tests.{◌==◌, if◌then◌else◌, Bool-cases}

abbrev pub bit : Bool → ℕ
bit true = 1
bit false = 0

pub bit-le_one : (b : Bool) → bit b ≤ 1
bit-le_one true = omega arith
bit-le_one false = omega arith

pub count_below : (ℕ → Bool) → ℕ → ℕ
count_below p zero = 0
count_below p (suc n) = count_below p n + bit (p n)

pub count_below-le : (p : ℕ → Bool) (n : ℕ) → count_below p n ≤ n
unfolding count_below
count_below-le p zero = omega arith
count_below-le p (suc n) = omega (arith, count_below-le p n, bit-le_one (p n))

pub count_below-all : (p : ℕ → Bool) (n : ℕ) → n ≤ count_below p n → (i : ℕ) → i < n → p i ≡ true
unfolding count_below
count_below-all p zero h i lt = absurd (omega arith)
count_below-all p (suc n) h i lt = elim (Bool-cases (i == n)) [
  | inl e ↦ ground (arith, count_below-le p n)
  | inr e ↦
      count_below-all p n (omega (arith, count_below-le p n, bit-le_one (p n))) i (ground arith)
]

pub count_below-some : (p : ℕ → Bool) (n i : ℕ) → i < n → p i ≡ true → 1 ≤ count_below p n
unfolding count_below
count_below-some p zero i lt h = absurd (omega arith)
count_below-some p (suc n) i lt h = elim (Bool-cases (i == n)) [
  | inl e ↦ let last : i ≡ n = ground arith in omega (arith, ap bit (ap p (sym last) ∙ h))
  | inr e ↦ omega (arith, count_below-some p n i (ground arith) h)
]

pub count_below-full : (p : ℕ → Bool) (n : ℕ) → ((i : ℕ) → i < n → p i ≡ true) → count_below p n ≡ n
unfolding count_below
count_below-full p zero h = refl
count_below-full p (suc n) h =
    let all = count_below-full p n (λ i lt. h i (omega arith)) in ground (arith, h n (omega arith))

pub count_below-none : (p : ℕ → Bool) (n : ℕ) → ((i : ℕ) → p i ≡ false) → count_below p n ≡ 0
unfolding count_below
count_below-none p zero h = refl
count_below-none p (suc n) h = ground (arith, count_below-none p n h, h n)

module _ {A : Type 0} (p : A → Bool) (f : ℕ → A) (i : ℕ) (a : A) where
  abbrev changed : ℕ → A
  changed j = if j == i then a else f j

  count_below-update_above :
      (n : ℕ) → n ≤ i → count_below (λ j. p (changed j)) n ≡ count_below (λ j. p (f j)) n
  unfolding count_below
  count_below-update_above zero h = refl
  count_below-update_above (suc n) h = ground (arith, count_below-update_above n (omega arith))

  -- one change of a family
  pub count_below-update :
      (n : ℕ)
      → i < n
      → count_below (λ j. p (if j == i then a else f j)) n + bit (p (f i))
        ≡ count_below (λ j. p (f j)) n + bit (p a)
  unfolding count_below
  count_below-update zero h = absurd (omega arith)
  count_below-update (suc n) h = elim (Bool-cases (n == i)) [
    | inl e ↦
        let last : n ≡ i = ground arith in ground (arith, count_below-update_above n (omega arith))
    | inr e ↦ ground (arith, count_below-update n (ground arith))
  ]

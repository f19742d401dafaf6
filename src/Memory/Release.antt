-- ===== src/Memory/Release.antt =====
-- The functions of the module Memory on blocks that `malloc` gave.
use phactor.Base.{
  ℕ, zero, suc, ◌<◌, ◌≡◌, refl, subst, ◌≢◌, Bool, true, false, ◌&&◌, some, List, [], ◌∷◌, ◌++◌, map,
  arith, ◌==◌, ltb, Ptr, null, Bool-cases, inl, inr,
}
use phactor.Copy.Tables.{All}
use phactor.Memory.{Heap, release, free}

-- `malloc` gives a block that is not in use, and is not NULL.
pub record IsMalloc (malloc_of : List Ptr → Ptr) : Type 0 where
  pub fresh : (live : List Ptr) → All (λ q. malloc_of live ≢ q) live
  pub nonnull : (live : List Ptr) → malloc_of live ≢ null

pub ==_ne : {p q : Ptr} → p ≢ q → (p == q) ≡ false
==_ne n = ground arith

release-behind :
    (p : Ptr) (xs ys : List Ptr)
    → All (λ q. q ≢ p) xs
    → release p (xs ++ p ∷ ys) ≡ some (tt, xs ++ ys)
unfolding release
release-behind p [] ys h = ground arith
release-behind p (x ∷ xs) ys h =
    let other : (p == x) ≡ false = ground (arith, h.0) in
    rw (other, release-behind p xs ys h.1) refl

pub free-behind :
    (p : Ptr) (xs ys : List Ptr)
    → p ≢ null
    → All (λ q. q ≢ p) xs
    → free p (xs ++ p ∷ ys) ≡ some (tt, xs ++ ys)
unfolding free
free-behind p xs ys n h = rw (==_ne n) (release-behind p xs ys h)

-- The blocks that a command leaves, beside those that were in use.
abbrev pub Leaves : List Ptr → Heap (Unit {0}) → List Ptr → Type 0
Leaves live m lost = m live ≡ some (tt, lost ++ live)

module _ (malloc_of : List Ptr → Ptr) (live : List Ptr) where
  -- the blocks in use after `n` calls of `malloc`, and the block of the call behind them
  abbrev pub grown : ℕ → List Ptr
  grown zero = live
  grown (suc n) = malloc_of (grown n) ∷ grown n

  abbrev pub block : ℕ → Ptr
  block n = malloc_of (grown n)

  All-grown : (P : Ptr → Type 0) (i j : ℕ) → All P (grown i) → j < i → P (block j)
  All-grown P zero j h less = absurd (omega arith)
  All-grown P (suc i) j h less = elim (Bool-cases (i == j)) [
    | inl same ↦ let e : i ≡ j = ground arith in subst (λ k. P (block k)) e h.0
    | inr other ↦ All-grown P i j h.1 (ground arith)
  ]

abbrev pub all_later : ℕ → List ℕ → Bool
all_later j [] = true
all_later j (n ∷ ns) = ltb j n && all_later j ns

module _ {malloc_of : List Ptr → Ptr} (law : IsMalloc malloc_of) (live : List Ptr) where
  apart : (i j : ℕ) → j < i → block malloc_of live i ≢ block malloc_of live j
  apart i j less =
      All-grown malloc_of live (λ q. block malloc_of live i ≢ q) i j
        (law.fresh (grown malloc_of live i)) less

  later :
      (j : ℕ) (ns : List ℕ)
      → all_later j ns ≡ true
      → All (λ q. q ≢ block malloc_of live j) (map (block malloc_of live) ns)
  later j [] h = tt
  later j (n ∷ ns) h = (apart n j (ground arith), later j ns (ground arith))

  -- a block is freed behind blocks that were allocated later
  pub free-block :
      (j : ℕ) (ns : List ℕ) (ys : List Ptr)
      → all_later j ns ≡ true
      → free (block malloc_of live j) (map (block malloc_of live) ns ++ block malloc_of live j ∷ ys)
        ≡ some (tt, map (block malloc_of live) ns ++ ys)
  free-block j ns ys h =
      free-behind (block malloc_of live j) (map (block malloc_of live) ns) ys
        (law.nonnull (grown malloc_of live j)) (later j ns h)

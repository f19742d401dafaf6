-- ===== src/Supervisor/Tree.antt =====
-- The tree of the actors below an actor, and what the termination of actors leaves of it.
use phactor.Base.{
  ℕ, zero, suc, ◌≤◌, ◌<◌, ◌≡◌, refl, sym, ap, ◌∙◌, ◌≢◌, ◌⊎◌, inl, inr, true, false, Option, none,
  some, arith, ◌==◌, Ptr, null, Bool-cases,
}
use phactor.HashTable.{at}
use phactor.System.{Actor, System, Supervision, terminated, is_crashed, put_actor}

-- slot `i` of the workers of an actor
abbrev pub worker : Supervision → ℕ → Ptr
worker sv i = (at sv.workers.values i).value

module _ {M : Type 0} where
  -- The actors under `p` form a tree of a height below `n`.
  abbrev pub IsTree : ℕ → System M → Ptr → Type 0
  IsTree zero s p = ⊥
  IsTree (suc n) s p =
      (a : Actor M) × (s.actors p ≡ some a)
      × ((sv : Supervision) (i : ℕ)
          → a.supervision ≡ some sv
          → i < sv.workers.size
          → worker sv i ≢ null
          → IsTree n s (worker sv i))

  -- An actor of `t` is that of `s`, but for the state of some that are terminated.
  abbrev pub SameActor : Option (Actor M) → Option (Actor M) → Type 0
  SameActor o o' =
      (o' ≡ o) ⊎ ((a : Actor M) × (o ≡ some a) × (o' ≡ some (record a { state = terminated })))

  pub record Terminates (s t : System M) : Type 0 where
    pub same : t ≡ record s { actors = t.actors }
    pub each : (q : Ptr) → SameActor (s.actors q) (t.actors q)

  pub Terminates-refl : (s : System M) → Terminates s s
  Terminates-refl s = record { same = refl; each = λ q. inl refl }

  SameActor-trans :
      (o o' o'' : Option (Actor M)) → SameActor o o' → SameActor o' o'' → SameActor o o''
  SameActor-trans o o' o'' (inl e) (inl e') = inl (e' ∙ e)
  SameActor-trans o o' o'' (inl e) (inr (a, h, h')) = inr (a, sym e ∙ h, h')
  SameActor-trans o o' o'' (inr (a, h, h')) (inl e') = inr (a, h, e' ∙ h')
  SameActor-trans o o' o'' (inr (a, h, h')) (inr (b, k, k')) = inr (a, h, ground arith)

  abbrev pub with_actors : System M → System M → System M
  with_actors u v = record v { actors = u.actors }

  pub Terminates-trans : (s t u : System M) → Terminates s t → Terminates t u → Terminates s u
  Terminates-trans s t u x y = record {
    same = y.same ∙ ap (with_actors u) x.same;
    each = λ q. SameActor-trans _ _ _ (x.each q) (y.each q);
  }

  abbrev pub IsTerminated : Option (Actor M) → Type 0
  IsTerminated o = (a : Actor M) × (o ≡ some a) × (a.state ≡ terminated)

  pub IsTerminated-Terminates :
      (s t : System M) (q : Ptr)
      → Terminates s t
      → IsTerminated (s.actors q)
      → IsTerminated (t.actors q)
  IsTerminated-Terminates s t q x (a, h, e) = elim (x.each q) [
    | inl same ↦ (a, same ∙ h, e)
    | inr (b, k, k') ↦ (record b { state = terminated }, k', refl)
  ]

  -- the actor at `p` afterwards
  pub same_place :
      (s t : System M) (p : Ptr) (a : Actor M)
      → Terminates s t
      → s.actors p ≡ some a
      → (b : Actor M) × (t.actors p ≡ some b)
        × (b.supervision ≡ a.supervision)
        × (is_crashed a.state ≡ false → is_crashed b.state ≡ false)
  same_place s t p a x h = elim (x.each p) [
    | inl same ↦ (a, same ∙ h, refl, λ e. e)
    | inr (b, k, k') ↦ (record b { state = terminated }, k', ground arith, λ e. refl)
  ]

  -- Every actor of `s` is in `t`, with the same supervision, and not crashed unless it was.
  abbrev pub SamePlaces : System M → System M → Type 0
  SamePlaces s t =
      (p : Ptr) (a : Actor M)
      → s.actors p ≡ some a
      → (b : Actor M) × (t.actors p ≡ some b)
        × (b.supervision ≡ a.supervision)
        × (is_crashed a.state ≡ false → is_crashed b.state ≡ false)

  pub IsTree-SamePlaces :
      (n : ℕ) (s t : System M) (p : Ptr) → SamePlaces s t → IsTree n s p → IsTree n t p
  IsTree-SamePlaces zero s t p x h = h
  IsTree-SamePlaces (suc n) s t p x (a, h, below) =
      let (b, k, same, _) = x p a h in
      (
        b,
        k,
        λ sv i e small ne.
            IsTree-SamePlaces n s t (worker sv i) x (below sv i (sym same ∙ e) small ne),
      )

  pub IsTree-Terminates :
      (n : ℕ) (s t : System M) (p : Ptr) → Terminates s t → IsTree n s p → IsTree n t p
  IsTree-Terminates n s t p x = IsTree-SamePlaces n s t p (λ q a. same_place s t q a x)

  -- `q` is `p`, or is below it; what is below a crashed actor does not count
  pub data Under (s : System M) : Ptr → Ptr → Type 0 where
    here : {p : Ptr} → Under s p p
    below :
        {p q : Ptr} (a : Actor M) (sv : Supervision) (i : ℕ)
        → s.actors p ≡ some a
        → is_crashed a.state ≡ false
        → a.supervision ≡ some sv
        → i < sv.workers.size
        → worker sv i ≢ null
        → Under s (worker sv i) q
        → Under s p q

  pub Under-SamePlaces : (s t : System M) (p q : Ptr) → SamePlaces s t → Under s p q → Under t p q
  Under-SamePlaces s t p q x here = here
  Under-SamePlaces s t p q x (below a sv i h c e small ne u) =
      let (b, k, same, alive) = x p a h in
      below b sv i k (alive c) (same ∙ e) small ne (Under-SamePlaces s t (worker sv i) q x u)

  pub Under-Terminates : (s t : System M) (p q : Ptr) → Terminates s t → Under s p q → Under t p q
  Under-Terminates s t p q x = Under-SamePlaces s t p q (λ r a. same_place s t r a x)

  -- what the termination of the tree under `p` does to `s`
  abbrev pub TerminatesTree : System M → Ptr → System M → Type 0
  TerminatesTree s p t = Terminates s t × ((q : Ptr) → Under s p q → IsTerminated (t.actors q))

  -- the same for the workers from slot `i` on
  abbrev pub TerminatesFrom : System M → Supervision → ℕ → System M → Type 0
  TerminatesFrom s sv i t =
      Terminates s t
      × ((j : ℕ) (q : Ptr)
          → i ≤ j
          → j < sv.workers.size
          → worker sv j ≢ null
          → Under s (worker sv j) q
          → IsTerminated (t.actors q))

  abbrev pub ended : Ptr → Actor M → System M → System M
  ended p a s = put_actor p (record a { state = terminated }) s

  pub terminate_one :
      (s : System M) (p : Ptr) (a : Actor M) → s.actors p ≡ some a → Terminates s (ended p a s)
  terminate_one s p a h = record {
    same = refl;
    each = λ q. elim (Bool-cases (q == p)) [
      | inl e ↦ inr (a, ground arith, rw e refl)
      | inr e ↦ inl (rw e refl)
    ];
  }

  pub at_root :
      (s : System M) (p : Ptr) (a : Actor M)
      → (ended p a s).actors p ≡ some (record a { state = terminated })
  at_root s p a = ground arith

  root-IsTerminated : (s : System M) (p : Ptr) (a : Actor M) → IsTerminated ((ended p a s).actors p)
  root-IsTerminated s p a = (record a { state = terminated }, at_root s p a, refl)

  -- an actor that is crashed, or supervises none
  pub alone :
      (s : System M) (p q : Ptr) (a : Actor M)
      → s.actors p ≡ some a
      → (is_crashed a.state ≡ true) ⊎ (a.supervision ≡ none)
      → Under s p q
      → IsTerminated ((ended p a s).actors q)
  alone s p q a h why here = root-IsTerminated s p a
  alone s p q a h (inl why) (below a' sv i h' c e small ne u) = absurd (ground arith)
  alone s p q a h (inr why) (below a' sv i h' c e small ne u) = absurd (ground arith)

  pub covered :
      (s u : System M) (p q : Ptr) (a : Actor M) (sv : Supervision)
      → s.actors p ≡ some a
      → a.supervision ≡ some sv
      → TerminatesFrom (ended p a s) sv 0 u
      → Under s p q
      → IsTerminated (u.actors q)
  covered s u p q a sv h e (x, all) here =
      IsTerminated-Terminates (ended p a s) u p x (root-IsTerminated s p a)
  covered s u p q a sv h e (x, all) (below a' sv' i h' c e' small ne under) =
      let same : sv' ≡ sv = ground arith in
      all i q (omega arith) (rw (← same) small) (rw (← same) ne) (
        rw (← same)
          (Under-Terminates s (ended p a s) (worker sv' i) q (terminate_one s p a h) under))

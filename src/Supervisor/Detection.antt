-- ===== src/Supervisor/Detection.antt =====
-- `ph_supervisor_cycle_detection` of src/classes/supervisor.c on a finite supervision tree.
use mathlib.Core.List.{append_assoc, append-nil}
use phactor.Base.{
  ℕ, zero, suc, ◌+◌, ◌≤◌, ◌≡◌, refl, sym, ◌∙◌, subst, ◌≢◌, ◌⊎◌, Bool, true, false, ◌||◌, none, some,
  List, [], ◌∷◌, ◌++◌, arith, ◌==◌, Ptr, null, Bool-cases, inl, inr,
}
use phactor.HashTable.{Bucket}
use phactor.Supervisor.{
  enqueue_supervisor, scan_workers, after_scan, detection_loop, detect_below,
  ph_supervisor_cycle_detection,
}
use phactor.System.{Actor, System, Supervision}
use phactor.System.Machine.{ok}

-- A supervision tree: each actor's tree number, and the workers of those that supervise.
mutual
  pub data Tree : Type 0 where
    worker : ℕ → Tree
    supervisor : ℕ → Forest → Tree

  pub data Forest : Type 0 where
    nil : Forest
    plant : Tree → Forest → Forest

abbrev pub number : Tree → ℕ
number (worker n) = n
number (supervisor n f) = n

unfoldable mutual
  -- whether an actor strictly below the root, or any in a forest, has the number
  pub below : ℕ → Tree → Bool
  below bad (worker n) = false
  below bad (supervisor n f) = among bad f

  pub among : ℕ → Forest → Bool
  among bad nil = false
  among bad (plant t f) = (number t == bad) || below bad t || among bad f

unfoldable mutual
  -- how many actors supervise
  pub supervisors : Tree → ℕ
  supervisors (worker n) = 0
  supervisors (supervisor n f) = suc (supervisors_in f)

  pub supervisors_in : Forest → ℕ
  supervisors_in nil = 0
  supervisors_in (plant t f) = supervisors t + supervisors_in f

module _ {M : Type 0} where
  -- The tree that stands in the system below `p`, and the forest in the slots of a table.
  mutual
    pub data Represents (s : System M) : Ptr → Tree → Type 0 where
      is_worker :
          {p : Ptr} (a : Actor M)
          → s.actors p ≡ some a
          → a.supervision ≡ none
          → Represents s p (worker a.tree_number)
      is_supervisor :
          {p : Ptr} {f : Forest} (a : Actor M) (sv : Supervision)
          → s.actors p ≡ some a
          → a.supervision ≡ some sv
          → RepresentsAll s sv.workers.values f
          → Represents s p (supervisor a.tree_number f)

    pub data RepresentsAll (s : System M) : List Bucket → Forest → Type 0 where
      no_slot : RepresentsAll s [] nil
      free_slot :
          {bs : List Bucket} {f : Forest} (b : Bucket)
          → b.value ≡ null
          → RepresentsAll s bs f
          → RepresentsAll s (b ∷ bs) f
      used_slot :
          {bs : List Bucket} {t : Tree} {f : Forest} (b : Bucket)
          → b.value ≢ null
          → Represents s b.value t
          → RepresentsAll s bs f
          → RepresentsAll s (b ∷ bs) (plant t f)

  -- the forests below the supervisors that wait in the queue
  pub data Waits (s : System M) : List Ptr → List Forest → Type 0 where
    no_one : Waits s [] []
    first :
        {ps : List Ptr} {fs : List Forest} {f : Forest} (p : Ptr) (a : Actor M) (sv : Supervision)
        → s.actors p ≡ some a
        → a.supervision ≡ some sv
        → RepresentsAll s sv.workers.values f
        → Waits s ps fs
        → Waits s (p ∷ ps) (f ∷ fs)

-- what the queue gains from a forest, and whether one of its own actors has the number
abbrev gained : Forest → List Forest
gained nil = []
gained (plant (worker n) f) = gained f
gained (plant (supervisor n g) f) = g ∷ gained f

abbrev direct : ℕ → Forest → Bool
direct bad nil = false
direct bad (plant t f) = (number t == bad) || direct bad f

abbrev among_all : ℕ → List Forest → Bool
among_all bad [] = false
among_all bad (f ∷ fs) = among bad f || among_all bad fs

abbrev total : List Forest → ℕ
total [] = 0
total (f ∷ fs) = suc (supervisors_in f) + total fs

among-direct : (bad : ℕ) (f : Forest) → among bad f ≡ (direct bad f || among_all bad (gained f))
unfolding among below
among-direct bad nil = refl
among-direct bad (plant (worker n) f) = ground (arith, among-direct bad f)
among-direct bad (plant (supervisor n g) f) = ground (arith, among-direct bad f)

total-gained : (f : Forest) → total (gained f) ≡ supervisors_in f
unfolding supervisors supervisors_in
total-gained nil = refl
total-gained (plant (worker n) f) = omega (arith, total-gained f)
total-gained (plant (supervisor n g) f) = omega (arith, total-gained f)

among_all-append :
    (bad : ℕ) (fs gs : List Forest)
    → among_all bad (fs ++ gs) ≡ (among_all bad fs || among_all bad gs)
among_all-append bad [] gs = refl
among_all-append bad (f ∷ fs) gs = ground (arith, among_all-append bad fs gs)

total-append : (fs gs : List Forest) → total (fs ++ gs) ≡ total fs + total gs
total-append [] gs = omega arith
total-append (f ∷ fs) gs = omega (arith, total-append fs gs)

module _ {M : Type 0} where
  Waits-append :
      (s : System M) (ps qs : List Ptr) (fs gs : List Forest)
      → Waits s ps fs
      → Waits s qs gs
      → Waits s (ps ++ qs) (fs ++ gs)
  Waits-append s ps qs fs gs no_one y = y
  Waits-append s ps qs fs gs (first {ps = ps'} {fs = fs'} p a sv h e r x) y =
      first p a sv h e r (Waits-append s ps' qs fs' gs x y)

  -- The scan of a table stops at the number, or lengthens the queue.
  scan_workers-lem :
      (s : System M) (bad : ℕ) (bs : List Bucket) (f : Forest) (ps : List Ptr) (fs : List Forest)
      → RepresentsAll s bs f
      → Waits s ps fs
      → ((direct bad f ≡ true) × (scan_workers bad bs ps s ≡ ok none s))
        ⊎ ((direct bad f ≡ false)
            × (qs : List Ptr) × (scan_workers bad bs ps s ≡ ok (some qs) s)
            × Waits s qs (fs ++ gained f))
  unfolding scan_workers enqueue_supervisor
  scan_workers-lem s bad _ _ ps fs no_slot w =
      inr (refl, ps, refl, subst (Waits s ps) (sym (append-nil fs)) w)
  scan_workers-lem s bad _ _ ps fs (free_slot {bs = bs} {f = f} b e r) w =
      let free : (b.value == null) ≡ true = ground arith in
      rw free (scan_workers-lem s bad bs f ps fs r w)
  scan_workers-lem s bad _ _ ps fs (used_slot {bs = bs} {f = f} b ne (is_worker a h e) r) w =
      let used : (b.value == null) ≡ false = ground arith in
      elim (Bool-cases (a.tree_number == bad)) [
        | inl eq ↦ rw (used, h, eq) (inl (refl, refl))
        | inr apart ↦ rw (used, h, apart, e) (scan_workers-lem s bad bs f ps fs r w)
      ]
  scan_workers-lem s bad _ _ ps fs
        (used_slot {bs = bs} {f = f} b ne (is_supervisor {f = g} a sv h e x) r) w =
      let used : (b.value == null) ≡ false = ground arith in
      let more = Waits-append s ps (b.value ∷ []) fs (g ∷ []) w (first b.value a sv h e x no_one) in
      elim (Bool-cases (a.tree_number == bad)) [
        | inl eq ↦ rw (used, h, eq) (inl (refl, refl))
        | inr apart ↦
            rw (used, h, apart, e, ← append_assoc fs (g ∷ []) (gained f))
              (scan_workers-lem s bad bs f (ps ++ b.value ∷ []) (fs ++ g ∷ []) r more)
      ]

  continues :
      (s : System M) (bad fuel : ℕ) (qs : List Ptr) (gs : List Forest)
      → ((q : Ptr) (qs : List Ptr) (gs : List Forest)
          → Waits s (q ∷ qs) gs
          → total gs ≤ fuel
          → detection_loop fuel bad (q ∷ qs) s ≡ ok (among_all bad gs) s)
      → Waits s qs gs
      → total gs ≤ fuel
      → after_scan (detection_loop fuel bad) (some qs) s ≡ ok (among_all bad gs) s
  unfolding after_scan
  continues s bad fuel [] _ rec no_one small = refl
  continues s bad fuel (q ∷ qs) gs rec w small = rec q qs gs w small

  -- The queue's supervisors are looked through one by one: as much fuel as there are in their trees
  -- is enough.
  detection_loop-lem :
      (fuel : ℕ) (s : System M) (bad : ℕ) (p : Ptr) (ps : List Ptr) (fs : List Forest)
      → Waits s (p ∷ ps) fs
      → total fs ≤ fuel
      → detection_loop fuel bad (p ∷ ps) s ≡ ok (among_all bad fs) s
  unfolding detection_loop after_scan
  detection_loop-lem zero s bad _ _ _ (first p a sv h e r w) small = absurd (omega arith)
  detection_loop-lem (suc fuel) s bad _ _ _ (first {ps = ps} {fs = fs} {f = f} p a sv h e r w)
        small =
      elim (scan_workers-lem s bad sv.workers.values f ps fs r w) [
        | inl (d, run) ↦
            let found : among bad f ≡ true = ground (arith, among-direct bad f) in
            rw (h, e, run, found) refl
        | inr (d, qs, run, w') ↦
            let same : among bad f ≡ among_all bad (gained f) =
              ground (arith, among-direct bad f) in
            let value : (among bad f || among_all bad fs) ≡ among_all bad (fs ++ gained f) =
              ground (arith, among_all-append bad fs (gained f)) in
            rw (h, e, run, value)
              (continues s bad fuel qs (fs ++ gained f)
                (λ q qs' gs. detection_loop-lem fuel s bad q qs' gs) w'
                (omega (arith, total-append fs (gained f), total-gained f)))
      ]

  -- `ph_supervisor_cycle_detection` for a worker below which a finite tree stands returns, with
  -- as much fuel as the tree has supervisors, and changes nothing. It reports exactly whether
  -- an actor strictly below the worker has the tree number of the supervisor's tree.
  pub cycle_detection-below :
      (fuel : ℕ) (p w : Ptr) (a : Actor M) (sv : Supervision) (t : Tree) (s : System M)
      → s.actors p ≡ some a
      → a.supervision ≡ some sv
      → Represents s w t
      → supervisors t ≤ fuel
      → ph_supervisor_cycle_detection fuel p w s ≡ ok (below sv.tree_number t) s
  unfolding ph_supervisor_cycle_detection detect_below below supervisors
  cycle_detection-below fuel p w a sv _ s h e (is_worker b k n) small = rw (k, n) refl
  cycle_detection-below fuel p w a sv _ s h e (is_supervisor {f = f} b sw k m r) small =
      rw (k, m, h, e)
        (detection_loop-lem fuel s sv.tree_number w [] (f ∷ []) (first w b sw k m r no_one)
            (omega arith)
          ∙ ground arith)

-- ===== src/Supervisor/Termination.antt =====
-- `ph_actor_terminate_workers` of src/classes/supervisor.c on a tree of actors.
use phactor.Base.{
  ℕ, zero, suc, ◌+◌, ◌<◌, ◌≡◌, refl, ◌∙◌, ◌≢◌, inl, inr, Option, none, some, arith, ◌==◌, Ptr, null,
  Bool-cases,
}
use phactor.Removal.{apply_workers, visit_worker}
use phactor.Supervisor.{for_workers, ph_actor_terminate_workers}
use phactor.System.{Actor, System, Supervision, terminated, is_crashed}
use phactor.System.Machine.{Cmd, Returns}
use phactor.Supervisor.Tree.{
  worker, IsTree, Terminates, Terminates-refl, Terminates-trans, IsTerminated,
  IsTerminated-Terminates, same_place, IsTree-Terminates, Under, Under-Terminates, TerminatesTree,
  TerminatesFrom, ended, terminate_one, at_root, alone, covered,
}

module _ {M : Type 0} where
  module _ (f : Ptr → Cmd M (Unit {0})) (n : ℕ)
      (terminates : (r : Ptr) (s : System M)
        → IsTree n s r
        → Returns (f r s) (λ _ t. TerminatesTree s r t)) where
    visit-Terminates :
        (r : Ptr) (s : System M)
        → (r ≢ null → IsTree n s r)
        → Returns (visit_worker f r s) (λ _ t.
          Terminates s t × ((q : Ptr) → r ≢ null → Under s r q → IsTerminated (t.actors q)))
    unfolding visit_worker
    visit-Terminates r s tree = elim (Bool-cases (r == null)) [
      | inl e ↦ rw e (tt, s, refl, (Terminates-refl s, λ q ne u. absurd (ne (ground arith))))
      | inr e ↦
          let (_, t, run, (x, all)) = terminates r s (tree (ground arith)) in
          rw e (tt, t, run, (x, λ q ne u. all q u))
    ]

    apply_terminates :
        (rounds i : ℕ) (p : Ptr) (s : System M) (a : Actor M) (sv : Supervision)
        → s.actors p ≡ some a
        → a.supervision ≡ some sv
        → i + rounds ≡ sv.workers.size
        → ((j : ℕ) → j < sv.workers.size → worker sv j ≢ null → IsTree n s (worker sv j))
        → Returns (apply_workers f rounds i p s) (λ _ t. TerminatesFrom s sv i t)
    unfolding apply_workers
    apply_terminates zero i p s a sv h e size trees =
        (tt, s, refl, (Terminates-refl s, λ j q le small. absurd (omega arith)))
    apply_terminates (suc rounds) i p s a sv h e size trees =
        let (_, t, run, (x, first)) = visit-Terminates (worker sv i) s (trees i (omega arith)) in
        let (b, k, same, _) = same_place s t p a x h in
        let (_, u, run', (y, rest)) =
          apply_terminates rounds (i + 1) p t b sv k (same ∙ e) (omega arith)
            (λ j small ne. IsTree-Terminates n s t (worker sv j) x (trees j small ne)) in
        rw (h, e, run)
          (
            tt,
            u,
            run',
            (
              Terminates-trans s t u x y,
              λ j q le small ne under. elim (Bool-cases (i == j)) [
                | inl eq ↦
                    let at_i : i ≡ j = ground arith in
                    IsTerminated-Terminates t u q y (first q (rw at_i ne) (rw at_i under))
                | inr apart ↦
                    rest j q (ground arith) small ne (Under-Terminates s t (worker sv j) q x under)
              ],
            ),
          )

    workers_terminated :
        (s : System M) (p : Ptr) (a : Actor M) (o : Option Supervision)
        → s.actors p ≡ some a
        → a.supervision ≡ o
        → ((sv : Supervision) (i : ℕ)
            → a.supervision ≡ some sv
            → i < sv.workers.size
            → worker sv i ≢ null
            → IsTree n s (worker sv i))
        → Returns (for_workers f p o (ended p a s)) (λ _ u. TerminatesTree s p u)
    unfolding for_workers
    workers_terminated s p a none h e trees =
        (tt, ended p a s, refl, (terminate_one s p a h, λ q. alone s p q a h (inr e)))
    workers_terminated s p a (some sv) h e trees =
        let t = ended p a s in
        let one = terminate_one s p a h in
        let (_, u, run, (x, all)) =
          apply_terminates sv.workers.size 0 p t (record a { state = terminated }) sv
            (at_root s p a) e (omega arith)
            (λ j small ne. IsTree-Terminates n s t (worker sv j) one (trees sv j e small ne)) in
        (tt, u, run, (Terminates-trans s t u one x, λ q. covered s u p q a sv h e (x, all)))

  -- Terminating a tree of actors whose height is below the fuel returns. Every actor of the
  -- tree is terminated then, where what is below a crashed actor does not count, and nothing
  -- but the states of terminated actors has changed.
  pub terminate_workers-terminates :
      (n : ℕ) (p : Ptr) (s : System M)
      → IsTree n s p
      → Returns (ph_actor_terminate_workers n p s) (λ _ t. TerminatesTree s p t)
  unfolding ph_actor_terminate_workers
  terminate_workers-terminates zero p s tree = elim tree [ ]
  terminate_workers-terminates (suc n) p s (a, h, trees) = elim (Bool-cases (is_crashed a.state)) [
    | inl crashed ↦
        rw (h, crashed)
          (tt, ended p a s, refl, (terminate_one s p a h, λ q. alone s p q a h (inl crashed)))
    | inr alive ↦
        rw (h, alive)
          (workers_terminated (ph_actor_terminate_workers n) n (terminate_workers-terminates n) s p
            a a.supervision h refl trees)
  ]

-- ===== src/ActorSystem/Threads/Shutdown.antt =====
-- The order in which the threads of src/classes/actor_system.c begin and end.
use phactor.ActorSystem.Threads.{ended, done, Life, Reach, begin}
use phactor.ActorSystem.Threads.Counts.{
  has_prepared, has_finished, has_passed, is_started, is_drained, is_counted, Counts, begin-Counts,
}
use phactor.ActorSystem.Threads.Invariant.{Reach-Counts}
use phactor.Base.{
  ℕ, ◌+◌, ◌^◌, ◌<◌, ◌≡◌, ◌↔◌, sym, ◌∙◌, true, false, ap, arith, Bool-cases, inl, inr,
}
use phactor.Base.Counting.{bit, bit-le_one, count_below-le, count_below-all, count_below-full}
use phactor.System.{System, Platform}

module _ {M : Type 0} where
  -- What a system of `n` workers keeps to.
  pub record IsOrdered (n : ℕ) (l : Life M) : Type 0 where
    -- The script goes on when each worker is prepared.
    pub prepared : is_started l.main ≡ true → (i : ℕ) → i < n → has_prepared (l.workers i) ≡ true
    -- The tables and the queues are destroyed when each worker has left its loop.
    pub drained : is_drained l.main ≡ true → (i : ℕ) → i < n → has_finished (l.workers i) ≡ true
    -- A worker removes its last actors when each worker has left its loop and the tables are gone.
    pub removals :
        (i : ℕ)
        → has_passed (l.workers i) ≡ true
        → (is_counted l.main ≡ true) × ((j : ℕ) → j < n → has_finished (l.workers j) ≡ true)
    -- `block` returns when each worker has ended.
    pub ends : l.main ≡ done → (i : ℕ) → i < n → l.workers i ≡ ended

  all_finished :
      {n : ℕ} {l : Life M}
      → Counts n l
      → l.system.finished_thread_count ≡ n + 1
      → (is_counted l.main ≡ true) × ((j : ℕ) → j < n → has_finished (l.workers j) ≡ true)
  all_finished {n} {l} c full =
      let most = count_below-le (λ k. has_finished (l.workers k)) n in
      (
        elim (Bool-cases (is_counted l.main)) [
          | inl counted ↦ counted
          | inr uncounted ↦ absurd (omega (arith, full, most, c.finished, ap bit uncounted))
        ],
        count_below-all _ n (omega (arith, full, most, c.finished, bit-le_one (is_counted l.main))),
      )

  pub Counts-IsOrdered : {n : ℕ} {l : Life M} → Counts n l → IsOrdered n l
  Counts-IsOrdered {n} {l} c = record {
    prepared = λ e. count_below-all _ n (c.ready e);
    drained = λ e. count_below-all _ n (c.drained e);
    removals = λ i e. all_finished c (c.passed i e);
    ends = λ e i lt. c.ends i (rw e lt);
  }

module _ {M : Type 0} (platform : Platform) (fuel exit_status : ℕ) where
  -- In every state that a new system of fewer than 2 ^ 31 workers reaches: the script goes on
  -- only when every worker is prepared; the main thread destroys the tables and the queues only
  -- when every worker has left its loop; a worker removes its last actors only when, in
  -- addition, the tables are destroyed; and `block` returns only when every worker has ended.
  pub Reach-IsOrdered :
      {n : ℕ} (s : System M) {l : Life M}
      → n < 2 ^ 31
      → s.prepared_thread_count ≡ 0
      → s.finished_thread_count ≡ 0
      → Reach platform fuel exit_status (begin n s) l
      → IsOrdered n l
  Reach-IsOrdered {n} s small p f r =
      Counts-IsOrdered (Reach-Counts platform fuel exit_status small (begin-Counts n s p f) r)

  -- In every state that a new system of fewer than 2 ^ 31 workers reaches, the test that lets a
  -- worker past the barrier at its end holds exactly when the main thread has counted itself
  -- and every worker has left its loop and counted itself.
  pub barrier_iff :
      {n : ℕ} (s : System M) {l : Life M}
      → n < 2 ^ 31
      → s.prepared_thread_count ≡ 0
      → s.finished_thread_count ≡ 0
      → Reach platform fuel exit_status (begin n s) l
      → (l.system.thread_count + 1 ≡ l.system.finished_thread_count)
        ↔ ((is_counted l.main ≡ true) × ((j : ℕ) → j < n → has_finished (l.workers j) ≡ true))
  barrier_iff {n} s {l} small p f r =
      let c = Reach-Counts platform fuel exit_status small (begin-Counts n s p f) r in
      (
        λ e. all_finished c (sym e ∙ ap (λ k. k + 1) c.threads),
        λ (counted, all).
            omega (arith, c.threads, c.finished, count_below-full _ n all, ap bit counted),
      )

  pub wait_iff :
      {n : ℕ} (s : System M) {l : Life M}
      → n < 2 ^ 31
      → s.prepared_thread_count ≡ 0
      → s.finished_thread_count ≡ 0
      → Reach platform fuel exit_status (begin n s) l
      → is_counted l.main ≡ false
      → (l.system.thread_count ≡ l.system.finished_thread_count)
        ↔ ((j : ℕ) → j < n → has_finished (l.workers j) ≡ true)
  wait_iff {n} s {l} small p f r uncounted =
      let c = Reach-Counts platform fuel exit_status small (begin-Counts n s p f) r in
      (
        λ e. count_below-all _ n (omega (arith, e, c.threads, c.finished, ap bit uncounted)),
        λ all. omega (arith, c.threads, c.finished, count_below-full _ n all, ap bit uncounted),
      )

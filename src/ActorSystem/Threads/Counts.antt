-- ===== src/ActorSystem/Threads/Counts.antt =====
-- What the counts of threads of src/classes/actor_system.c stand for: the places of the threads in
-- `worker_function` and `scheduler_blocking`.
use phactor.ActorSystem.{create_threads}
use phactor.ActorSystem.Threads.{
  Worker, starting, waiting, removing, ended, Main, initialising, destroying, counting, emptying,
  joining, done, Life, begin,
}
use phactor.Base.{
  ℕ, ◌+◌, ◌≤◌, ◌<◌, ◌≡◌, ◌≢◌, ◌⊎◌, refl, sym, ◌∙◌, Bool, true, false, inl, inr, ap, arith, ◌==◌,
  Bool-cases,
}
use phactor.Base.Counting.{
  bit, bit-le_one, count_below, count_below-le, count_below-none, count_below-update,
}
use phactor.System.{System, update}

abbrev pub has_prepared : Worker → Bool
has_prepared starting = false
has_prepared _ = true

-- counted in `finished_thread_count`
abbrev pub has_finished : Worker → Bool
has_finished waiting = true
has_finished removing = true
has_finished ended = true
has_finished _ = false

-- behind the barrier
abbrev pub has_passed : Worker → Bool
has_passed removing = true
has_passed ended = true
has_passed _ = false

abbrev pub is_started : Main → Bool
is_started initialising = false
is_started _ = true

-- behind the wait for the workers
abbrev pub is_drained : Main → Bool
is_drained destroying = true
is_drained counting = true
is_drained (emptying i) = true
is_drained (joining i) = true
is_drained done = true
is_drained _ = false

-- The main thread has destroyed the tables, and is counted as finished.
abbrev pub is_counted : Main → Bool
is_counted (emptying i) = true
is_counted (joining i) = true
is_counted done = true
is_counted _ = false

-- how many workers are joined
abbrev pub joined : ℕ → Main → ℕ
joined n (emptying i) = i
joined n (joining i) = i
joined n done = n
joined n _ = 0

module _ {M : Type 0} where
  pub record Counts (n : ℕ) (l : Life M) : Type 0 where
    pub threads : l.system.thread_count ≡ n
    pub prepared : l.system.prepared_thread_count ≡ count_below (λ i. has_prepared (l.workers i)) n
    pub finished :
        l.system.finished_thread_count
        ≡ count_below (λ i. has_finished (l.workers i)) n + bit (is_counted l.main)
    pub ready : is_started l.main ≡ true → n ≤ count_below (λ i. has_prepared (l.workers i)) n
    pub drained : is_drained l.main ≡ true → n ≤ count_below (λ i. has_finished (l.workers i)) n
    pub passed : (i : ℕ) → has_passed (l.workers i) ≡ true → l.system.finished_thread_count ≡ n + 1
    pub ends : (i : ℕ) → i < joined n l.main → l.workers i ≡ ended

  pub begin-Counts :
      (n : ℕ) (s : System M)
      → s.prepared_thread_count ≡ 0
      → s.finished_thread_count ≡ 0
      → Counts n (begin n s)
  unfolding begin create_threads
  begin-Counts n s p f = record {
    threads = refl;
    prepared = p ∙ sym (count_below-none _ n (λ i. refl));
    finished = ground (arith, count_below-none (λ i. false) n (λ i. refl));
    ready = λ e. cc;
    drained = λ e. cc;
    passed = λ i e. cc;
    ends = λ i lt. absurd (omega arith);
  }

  -- What a step of a worker leaves or adds to: it does not go back.
  pub record Moves (n i : ℕ) (s : System M) (w w' : Worker) (t : System M) : Type 0 where
    pub threads : t.thread_count ≡ s.thread_count
    pub prepared :
        t.prepared_thread_count + bit (has_prepared w)
        ≡ s.prepared_thread_count + bit (has_prepared w')
    pub finished :
        t.finished_thread_count + bit (has_finished w)
        ≡ s.finished_thread_count + bit (has_finished w')
    pub forth :
        (bit (has_prepared w) ≤ bit (has_prepared w'))
        × (bit (has_finished w) ≤ bit (has_finished w'))
    pub barrier :
        has_passed w' ≡ true
        → (has_passed w ≡ true)
          ⊎ ((has_finished w ≡ true) × (s.finished_thread_count ≡ s.thread_count + 1))
    pub last : w ≢ ended

  pub moved :
      {n : ℕ} {l : Life M} {w : Worker} {t : System M} (i : ℕ)
      → Counts n l
      → i < n
      → Moves n i l.system (l.workers i) w t
      → Counts n (record { system = t; workers = update l.workers i w; main = l.main })
  moved {n} {l} {w} {t} i c lt m =
      let p = count_below-update has_prepared l.workers i w n lt in
      let f = count_below-update has_finished l.workers i w n lt in
      record {
        threads = m.threads ∙ c.threads;
        prepared = omega (arith, m.prepared, c.prepared, p);
        finished = omega (arith, m.finished, c.finished, f);
        ready = λ e. omega (arith, c.ready e, p, m.forth);
        drained = λ e. omega (arith, c.drained e, f, m.forth);
        passed = λ j e.
            let full : l.system.finished_thread_count ≡ n + 1 = elim (Bool-cases (j == i)) [
              | inl same ↦ elim (m.barrier (ground arith)) [
                | inl before ↦ c.passed i before
                | inr (_, now) ↦ now ∙ ap (λ k. k + 1) c.threads
              ]
              | inr other ↦ c.passed j (ground arith)
            ] in
            let most = count_below-le (λ k. has_finished (update l.workers i w k)) n in
            omega (
              arith,
              full,
              most,
              c.finished,
              m.finished,
              m.forth,
              f,
              bit-le_one (is_counted l.main),
            );
        ends = λ j below. elim (Bool-cases (j == i)) [
          | inl same ↦
              let is_i : j ≡ i = ground arith in
              absurd (m.last (ap l.workers (sym is_i) ∙ c.ends j below))
          | inr other ↦ rw other (c.ends j below)
        ];
      }

  pub stays :
      {n i : ℕ} {s t : System M} {w : Worker}
      → t.thread_count ≡ s.thread_count
      → t.prepared_thread_count ≡ s.prepared_thread_count
      → t.finished_thread_count ≡ s.finished_thread_count
      → w ≢ ended
      → Moves n i s w w t
  stays e p f last = record {
    threads = e;
    prepared = rw p;
    finished = rw f;
    forth = (omega arith, omega arith);
    barrier = λ b. inl b;
    last = last;
  }

module _ {M : Type 0} {n : ℕ} {w : ℕ → Worker} {m : Main} {s : System M}
    (c : Counts n (record { system = s; workers = w; main = m })) where
  -- a step of the main thread from `m` to `m'`
  pub leads :
      {m' : Main} {t : System M}
      → t.thread_count ≡ s.thread_count
      → t.prepared_thread_count ≡ s.prepared_thread_count
      → t.finished_thread_count + bit (is_counted m) ≡ s.finished_thread_count + bit (is_counted m')
      → bit (is_counted m) ≤ bit (is_counted m')
      → (is_started m' ≡ true → n ≤ count_below (λ i. has_prepared (w i)) n)
      → (is_drained m' ≡ true → n ≤ count_below (λ i. has_finished (w i)) n)
      → ((i : ℕ) → i < joined n m' → w i ≡ ended)
      → Counts n (record { system = t; workers = w; main = m' })
  leads {m'} threads prepared finished forth ready drained ends = record {
    threads = threads ∙ c.threads;
    prepared = prepared ∙ c.prepared;
    finished = omega (arith, finished, c.finished);
    ready = ready;
    drained = drained;
    passed = λ i e. omega (
      arith,
      c.passed i e,
      finished,
      c.finished,
      forth,
      bit-le_one (is_counted m'),
      count_below-le (λ k. has_finished (w k)) n,
    );
    ends = ends;
  }

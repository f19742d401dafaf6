-- ===== src/ActorSystem/Threads/SecondLife.antt =====
-- A second `ActorSystem` of src/classes/actor_system.c, created after `block` has returned: the
-- counts of the first one are still there.
use phactor.ActorSystem.{create_threads}
use phactor.ActorSystem.Threads.{
  Worker, done, Main, Life, Lead, Step, work, lead, Reach, here, next, begin,
}
use phactor.ActorSystem.Threads.Counts.{
  has_prepared, has_finished, has_passed, is_counted, is_drained, is_started, Counts, Moves,
  begin-Counts,
}
use phactor.ActorSystem.Threads.Invariant.{steady, Work-Moves, Reach-Counts}
use phactor.ActorSystem.Counters.{round-IsSteady}
use phactor.Base.{
  ℕ, ◌+◌, ◌^◌, ◌≤◌, ◌<◌, ◌≡◌, refl, ◌∙◌, Bool, true, false, ap, arith, Bool-cases, inl, inr, ◌==◌,
}
use phactor.Base.Counting.{
  bit, count_below, count_below-le, count_below-none, count_below-some, count_below-update,
}
use phactor.System.{System, Platform, update}

false-true : {b : Bool} → b ≡ false → b ≡ true → ⊥
false-true e h = cc

module _ {M : Type 0} where
  -- The state of a second life of `k` workers, where `old` threads finished before.
  record Stuck (old k : ℕ) (l : Life M) : Type 0 where
    threads : l.system.thread_count ≡ k
    prepared :
        l.system.prepared_thread_count + 1 ≡ old + count_below (λ i. has_prepared (l.workers i)) k
    finished :
        l.system.finished_thread_count ≡ old + count_below (λ i. has_finished (l.workers i)) k
    behind : (i : ℕ) → has_passed (l.workers i) ≡ false
    before : is_drained l.main ≡ false

  moved_on :
      {old k : ℕ} {l : Life M} {w : Worker} {t : System M} (i : ℕ)
      → Stuck old k l
      → k < old
      → i < k
      → Moves k i l.system (l.workers i) w t
      → Stuck old k (record { system = t; workers = update l.workers i w; main = l.main })
  moved_on {old} {k} {l} {w} {t} i c more lt m =
      let p = count_below-update has_prepared l.workers i w k lt in
      let f = count_below-update has_finished l.workers i w k lt in
      record {
        threads = m.threads ∙ c.threads;
        prepared = omega (arith, m.prepared, c.prepared, p);
        finished = omega (arith, m.finished, c.finished, f);
        behind = λ j. elim (Bool-cases (has_passed (update l.workers i w j))) [
          | inr behind ↦ behind
          | inl through ↦ elim (Bool-cases (j == i)) [
            | inr other ↦ absurd (false-true (c.behind j) (ground arith))
            | inl same ↦ elim (m.barrier (ground arith)) [
              | inl before ↦ absurd (false-true (c.behind i) before)
              | inr (counted, now) ↦
                  let one = count_below-some (λ j. has_finished (l.workers j)) k i lt counted in
                  absurd (omega (arith, one, now, c.finished, c.threads))
            ]
          ]
        ];
        before = c.before;
      }

  stays :
      {old k : ℕ} {w : ℕ → Worker} {m m' : Main} {s t : System M}
      → Stuck old k (record { system = s; workers = w; main = m })
      → t.thread_count ≡ s.thread_count
      → t.prepared_thread_count ≡ s.prepared_thread_count
      → t.finished_thread_count ≡ s.finished_thread_count
      → is_drained m' ≡ false
      → Stuck old k (record { system = t; workers = w; main = m' })
  stays c threads prepared finished before = record {
    threads = threads ∙ c.threads;
    prepared = rw prepared c.prepared;
    finished = rw finished c.finished;
    behind = c.behind;
    before = before;
  }

  begin-Stuck :
      {n : ℕ} {l : Life M} (k : ℕ) → Counts n l → l.main ≡ done → Stuck (n + 1) k (begin k l.system)
  unfolding begin create_threads
  begin-Stuck {n} {l} k c e = record {
    threads = refl;
    prepared =
        let all : n ≤ count_below (λ i. has_prepared (l.workers i)) n = c.ready (ap is_started e) in
        omega (
          arith,
          all,
          c.prepared,
          count_below-le (λ i. has_prepared (l.workers i)) n,
          count_below-none (λ i. has_prepared Worker.starting) k (λ i. refl),
        );
    finished =
        let all : n ≤ count_below (λ i. has_finished (l.workers i)) n =
          c.drained (ap is_drained e) in
        omega (
          arith,
          all,
          c.finished,
          ap (λ m. bit (is_counted m)) e,
          count_below-le (λ i. has_finished (l.workers i)) n,
          count_below-none (λ i. has_finished Worker.starting) k (λ i. refl),
        );
    behind = λ i. refl;
    before = refl;
  }

module _ {M : Type 0} (platform : Platform) (fuel exit_status : ℕ) where
  Lead-Stuck :
      {old k : ℕ} {w : ℕ → Worker} {m m' : Main} {s t : System M}
      → k < old
      → Stuck old k (record { system = s; workers = w; main = m })
      → Lead platform fuel exit_status w m s m' t
      → Stuck old k (record { system = t; workers = w; main = m' })
  Lead-Stuck more c (Lead.start e) = stays c refl refl refl refl
  Lead-Stuck more c (Lead.script r) = stays c r.thread_count r.prepared r.finished refl
  Lead-Stuck more c (Lead.block e x) = stays c refl refl refl refl
  Lead-Stuck more c (Lead.kill e x) = stays c refl refl refl refl
  Lead-Stuck more c (Lead.round object code onward k e) =
      let f = steady platform fuel (round-IsSteady platform fuel _ object code k) _ _ _ e in
      stays c f.thread_count f.prepared f.finished refl
  Lead-Stuck more c (Lead.leave object code k e) =
      let f = steady platform fuel (round-IsSteady platform fuel _ object code k) _ _ _ e in
      stays c f.thread_count f.prepared f.finished refl
  Lead-Stuck more c (Lead.drained e) = absurd (omega (arith, e, c.threads, c.finished))
  Lead-Stuck more c (Lead.destroy e) = absurd (false-true c.before refl)
  Lead-Stuck more c Lead.finish = absurd (false-true c.before refl)
  Lead-Stuck more c (Lead.empty e) = absurd (false-true c.before refl)
  Lead-Stuck more c (Lead.join e) = absurd (false-true c.before refl)
  Lead-Stuck more c (Lead.return e) = absurd (false-true c.before refl)
  Lead-Stuck more c (Lead.script_on r) = absurd (false-true c.before refl)

  Step-Stuck :
      {old k : ℕ} {l m : Life M}
      → k < old
      → old + k < 2 ^ 31
      → Stuck old k l
      → Step platform fuel exit_status l m
      → Stuck old k m
  Step-Stuck {k} {l} more small c (work i lt mv) =
      moved_on i c more (omega (arith, lt, c.threads)) (
        Work-Moves platform fuel
          (omega (arith, small, c.prepared, count_below-le (λ j. has_prepared (l.workers j)) k))
          (omega (arith, small, c.finished, count_below-le (λ j. has_finished (l.workers j)) k)) mv)
  Step-Stuck more small c (lead mv) = Lead-Stuck more c mv

  Reach-Stuck :
      {old k : ℕ} {l m : Life M}
      → k < old
      → old + k < 2 ^ 31
      → Stuck old k l
      → Reach platform fuel exit_status l m
      → Stuck old k m
  Reach-Stuck more small c here = c
  Reach-Stuck more small c (next r st) = Step-Stuck more small (Reach-Stuck more small c r) st

  -- Where a system of `n` workers has ended and a second one is created, with no more workers
  -- than the first, no worker of the second ever passes the barrier at its end, and the main
  -- thread never passes its wait for the workers: the counts of the first system are not reset.
  pub second_life-never_ends :
      {n k : ℕ} (s : System M) {l m : Life M}
      → n + k + 1 < 2 ^ 31
      → s.prepared_thread_count ≡ 0
      → s.finished_thread_count ≡ 0
      → Reach platform fuel exit_status (begin n s) l
      → l.main ≡ done
      → k ≤ n
      → Reach platform fuel exit_status (begin k l.system) m
      → ((i : ℕ) → has_passed (m.workers i) ≡ false) × (is_drained m.main ≡ false)
  second_life-never_ends {n} {k} s small p f first ended less second =
      let c = Reach-Counts platform fuel exit_status (omega arith) (begin-Counts n s p f) first in
      let stuck = Reach-Stuck (omega arith) (omega arith) (begin-Stuck k c ended) second in
      (stuck.behind, stuck.before)

-- ===== src/ActorSystem/Threads/Invariant.antt =====
-- What the counts of threads of src/classes/actor_system.c say, in every state that a system with
-- `n` workers reaches.
use phactor.ActorSystem.Counters.{round-IsSteady}
use phactor.ActorSystem.Threads.{
  Worker, Main, Life, clear_bucket, clear_by_ref, destroy_tables, Work, Lead, Step, work, lead,
  Reach, here, next,
}
use phactor.Base.{
  ℕ, zero, suc, ◌+◌, ◌^◌, ◌≤◌, ◌<◌, ◌≡◌, refl, sym, ◌∙◌, inl, inr, subst, ap, arith, ◌==◌, Ptr,
  null, Bool-cases, [],
}
use phactor.Base.Counting.{bit-le_one, count_below-le}
use phactor.HashTable.{Bucket, at, ph_hashtable_clear}
use phactor.Removal.{ph_actor_free_dummy, ph_actor_mark_for_removal}
use phactor.Removal.Counters.{perform_actor_removals-IsSteady, mark_for_removal-IsSteady}
use phactor.System.{System, Platform}
use phactor.System.Counters.{
  Steady, Keeps, IsSteady, bind-IsSteady, pure-IsSteady, get-IsSteady, modify-IsSteady, if-IsSteady,
  Steps,
}
use phactor.System.Machine.{ok, Cmd}
use phactor.ActorSystem.Threads.Counts.{
  has_prepared, has_finished, is_counted, Counts, Moves, moved, stays, leads,
}

module _ {M : Type 0} (platform : Platform) (fuel : ℕ) where
  pub steady :
      {A : Type 0} {m : Cmd M A} → IsSteady m → (s t : System M) (a : A) → m s ≡ ok a t → Steady s t
  steady {m} h s t a e = subst (λ r. Keeps s r) e (h.kept s)

  pub Work-Moves :
      {n i : ℕ} {s t : System M} {w w' : Worker}
      → s.prepared_thread_count ≤ 2 ^ 31
      → s.finished_thread_count ≤ 2 ^ 31
      → Work platform fuel i w s w' t
      → Moves n i s w w' t
  Work-Moves few done_few Work.prepare = record {
    threads = refl;
    prepared = omega arith;
    finished = refl;
    forth = (omega arith, omega arith);
    barrier = λ b. cc;
    last = λ e. cc;
  }
  Work-Moves few done_few (Work.round object code onward k e) =
      let f = steady (round-IsSteady platform fuel _ object code k) _ _ _ e in
      stays f.thread_count f.prepared f.finished (λ e. cc)
  Work-Moves few done_few (Work.run r) = stays r.thread_count r.prepared r.finished (λ e. cc)
  Work-Moves few done_few (Work.leave object code k e) =
      let f = steady (round-IsSteady platform fuel _ object code k) _ _ _ e in
      record {
        threads = f.thread_count;
        prepared = rw f.prepared;
        finished = rw f.finished;
        forth = (omega arith, omega arith);
        barrier = λ b. cc;
        last = λ e. cc;
      }
  Work-Moves few done_few Work.finish = record {
    threads = refl;
    prepared = refl;
    finished = omega arith;
    forth = (omega arith, omega arith);
    barrier = λ b. cc;
    last = λ e. cc;
  }
  Work-Moves few done_few (Work.pass e) = record {
    threads = refl;
    prepared = refl;
    finished = refl;
    forth = (omega arith, omega arith);
    barrier = λ b. inr (refl, sym e);
    last = λ e. cc;
  }
  Work-Moves few done_few (Work.remove destruct k e) =
      let f = steady (perform_actor_removals-IsSteady destruct k _) _ _ _ e in
      record {
        threads = f.thread_count;
        prepared = rw f.prepared;
        finished = rw f.finished;
        forth = (omega arith, omega arith);
        barrier = λ b. inl refl;
        last = λ e. cc;
      }

  clear_bucket-IsSteady :
      (dtor : Ptr → Cmd M (Unit {0}))
      → Steps dtor
      → (i : ℕ) (b : Bucket) → IsSteady (clear_bucket dtor i b)
  unfolding clear_bucket
  clear_bucket-IsSteady dtor h i b =
      if-IsSteady (b.value == null) (pure-IsSteady tt)
        (bind-IsSteady (h b.value) (λ _. modify-IsSteady _ (λ s. ground arith)))

  clear_by_ref-IsSteady :
      (dtor : Ptr → Cmd M (Unit {0}))
      → Steps dtor
      → (rounds i : ℕ) → IsSteady (clear_by_ref dtor rounds i)
  unfolding clear_by_ref
  clear_by_ref-IsSteady dtor h zero i = modify-IsSteady _ (λ s. ground arith)
  clear_by_ref-IsSteady dtor h (suc rounds) i = bind-IsSteady get-IsSteady (λ s.
      bind-IsSteady (clear_bucket-IsSteady dtor h i (at s.actors_by_ref.values i))
        (λ _. clear_by_ref-IsSteady dtor h rounds (i + 1)))

  pub destroy_tables-IsSteady : IsSteady {M = M} (destroy_tables platform fuel)
  unfolding destroy_tables
  destroy_tables-IsSteady =
      let mark = ph_actor_mark_for_removal {M = M} platform fuel in
      bind-IsSteady
        (modify-IsSteady
          (λ s. record s {
            actors_by_name = record (ph_hashtable_clear ph_actor_free_dummy s.actors_by_name tt).0 {
              values = [];
            };
          })
          (λ s. ground arith))
        (λ _. bind-IsSteady get-IsSteady (λ s.
          bind-IsSteady
            (clear_by_ref-IsSteady mark (mark_for_removal-IsSteady platform fuel)
              s.actors_by_ref.size 0)
            (λ _.
              modify-IsSteady
                (λ t. record t { actors_by_ref = record t.actors_by_ref { values = [] } })
                (λ s. ground arith))))

module _ {M : Type 0} (platform : Platform) (fuel exit_status : ℕ) where
  -- Every step of the main thread keeps what the counts say.
  Lead-Counts :
      {n : ℕ} {w : ℕ → Worker} {m m' : Main} {s t : System M}
      → n < 2 ^ 31
      → Counts n (record { system = s; workers = w; main = m })
      → Lead platform fuel exit_status w m s m' t
      → Counts n (record { system = t; workers = w; main = m' })
  Lead-Counts small c (Lead.start e) =
      leads c refl refl refl (omega arith) (λ _. omega (arith, e, c.threads, c.prepared)) (λ d. cc)
        (λ i lt. c.ends i lt)
  Lead-Counts small c (Lead.script r) =
      leads c r.thread_count r.prepared (rw r.finished) (omega arith) c.ready c.drained c.ends
  Lead-Counts small c (Lead.block e x) =
      leads c refl refl refl (omega arith) c.ready c.drained c.ends
  Lead-Counts small c (Lead.kill e x) =
      leads c refl refl refl (omega arith) c.ready c.drained c.ends
  Lead-Counts small c (Lead.round object code onward k e) =
      let f = steady platform fuel (round-IsSteady platform fuel _ object code k) _ _ _ e in
      leads c f.thread_count f.prepared (rw f.finished) (omega arith) c.ready c.drained c.ends
  Lead-Counts small c (Lead.leave object code k e) =
      let f = steady platform fuel (round-IsSteady platform fuel _ object code k) _ _ _ e in
      leads c f.thread_count f.prepared (rw f.finished) (omega arith) c.ready c.drained c.ends
  Lead-Counts small c (Lead.drained e) =
      leads c refl refl refl (omega arith) c.ready (λ _. omega (arith, e, c.threads, c.finished))
        c.ends
  Lead-Counts small c (Lead.destroy e) =
      let f = steady platform fuel (destroy_tables-IsSteady platform fuel) _ _ _ e in
      leads c f.thread_count f.prepared (rw f.finished) (omega arith) c.ready c.drained c.ends
  Lead-Counts {n} {w} small c Lead.finish =
      let most = count_below-le (λ k. has_finished (w k)) n in
      leads c refl refl (omega (arith, c.finished, most)) (omega arith) c.ready c.drained c.ends
  Lead-Counts small c (Lead.empty e) = leads c refl refl refl (omega arith) c.ready c.drained c.ends
  Lead-Counts {w} small c (Lead.join {i} e) =
      leads c refl refl refl (omega arith) c.ready c.drained (λ j lt. elim (Bool-cases (j == i)) [
        | inl same ↦ let is_i : j ≡ i = ground arith in ap w is_i ∙ e
        | inr other ↦ c.ends j (ground arith)
      ])
  Lead-Counts small c (Lead.return e) =
      leads c refl refl refl (omega arith) c.ready c.drained
        (λ j lt. c.ends j (omega (arith, e, c.threads)))
  Lead-Counts small c (Lead.script_on r) =
      leads c r.thread_count r.prepared (rw r.finished) (omega arith) c.ready c.drained c.ends

  -- Every step of every thread keeps what the counts say.
  pub Step-Counts :
      {n : ℕ} {l l' : Life M}
      → n < 2 ^ 31
      → Counts n l
      → Step platform fuel exit_status l l'
      → Counts n l'
  Step-Counts {n} {l} small c (work i lt mv) = moved i c (omega (arith, lt, c.threads)) (
      Work-Moves platform fuel
        (omega (arith, c.prepared, count_below-le (λ k. has_prepared (l.workers k)) n))
        (omega (
          arith,
          c.finished,
          bit-le_one (is_counted l.main),
          count_below-le (λ k. has_finished (l.workers k)) n,
        ))
        mv)
  Step-Counts small c (lead mv) = Lead-Counts small c mv

  pub Reach-Counts :
      {n : ℕ} {l l' : Life M}
      → n < 2 ^ 31
      → Counts n l
      → Reach platform fuel exit_status l l'
      → Counts n l'
  Reach-Counts small c here = c
  Reach-Counts small c (next r st) = Step-Counts small (Reach-Counts small c r) st

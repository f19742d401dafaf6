-- ===== src/Supervisor/Crash.antt =====
-- `ph_actor_crash` of src/classes/supervisor.c for an actor of a supervision tree, below the restart
-- limit and at it.
use phactor.Base.{
  ℕ, suc, ◌≡◌, refl, sym, ap, ◌∙◌, subst, ◌≢◌, ◌⊎◌, inl, inr, false, some, ◌++◌, arith, ◌==◌, Ptr,
  null, Bool-cases,
}
use phactor.Base.Words.{incr}
use phactor.Supervisor.{
  after_crash, ph_actor_terminate_workers, ph_actor_crash, ph_supervisor_handle_crash,
}
use phactor.Supervisor.Tree.{
  IsTree, Terminates, IsTerminated, Under, same_place, SamePlaces, IsTree-SamePlaces,
  Under-SamePlaces,
}
use phactor.Supervisor.Termination.{terminate_workers-terminates}
use phactor.System.{
  Actor, ActorState, System, Platform, Supervision, terminated, is_crashed, put_actor,
}
use phactor.System.Machine.{Run, ok, Returns}
use phactor.Supervisor.Restart.{restarted, restart_tasks, handle_crash-Restarts, handle_crash-crash}

module _ {M : Type 0} (platform : Platform) where
  -- What a crash of the actor `a` at `p`, restarted by its supervisor, makes of `s`.
  pub record Crashes (s : System M) (p : Ptr) (a : Actor M) (t : System M) : Type 0 where
    pub actor : t.actors p ≡ some (restarted platform (incr a.restart_count_streak) a)
    pub below : (q : Ptr) → q ≢ p → Under s p q → IsTerminated (t.actors q)
    pub others : (q : Ptr) → q ≢ p → (t.actors q ≡ s.actors q) ⊎ IsTerminated (t.actors q)
    pub queue : t.threads a.thread_offset ≡ s.threads a.thread_offset ++ restart_tasks a
    pub queues : (i : ℕ) → i ≢ a.thread_offset → t.threads i ≡ s.threads i
    pub tables : (t.actors_by_ref ≡ s.actors_by_ref) × (t.actors_by_name ≡ s.actors_by_name)

  -- `v` supervises, under the limit that `sv` states
  abbrev pub Supervises : System M → Ptr → Supervision → Type 0
  Supervises s v sv = (b : Actor M) × (s.actors v ≡ some b) × (b.supervision ≡ some sv)

  Supervises-SamePlaces :
      (s t : System M) (v : Ptr) (sv : Supervision)
      → SamePlaces s t
      → Supervises s v sv
      → Supervises t v sv
  Supervises-SamePlaces s t v sv x (b, k, e) = let (b', k', same, _) = x v b k in (b', k', same ∙ e)

  -- the actor `a`, in the state that it has or terminated
  left_of :
      (s t : System M) (p : Ptr) (a : Actor M)
      → Terminates s t
      → s.actors p ≡ some a
      → (st : ActorState) × (t.actors p ≡ some (record a { state = st }))
  left_of s t p a x h = elim (x.each p) [
    | inl same ↦ (a.state, same ∙ h)
    | inr (c, k, k') ↦ (terminated, ground arith)
  ]

  others_of :
      (s t u : System M) (q : Ptr)
      → Terminates s t
      → IsTerminated (t.actors q) ⊎ (t.actors q ≡ s.actors q)
      → u.actors q ≡ t.actors q
      → (u.actors q ≡ s.actors q) ⊎ IsTerminated (u.actors q)
  others_of s t u q x (inl (c, k, e)) same = inr (c, same ∙ k, e)
  others_of s t u q x (inr k) same = inl (same ∙ k)

  each_of :
      (s t : System M) (q : Ptr)
      → Terminates s t
      → IsTerminated (t.actors q) ⊎ (t.actors q ≡ s.actors q)
  each_of s t q x = elim (x.each q) [
    | inl same ↦ inr same
    | inr (c, k, k') ↦ inl (record c { state = terminated }, k', refl)
  ]

  crash-handle_crash :
      (n : ℕ) (p : Ptr) (a : Actor M) (st : ActorState) (s t : System M) (r : Run M (Unit {0}))
      → s.actors p ≡ some a
      → is_crashed a.state ≡ false
      → ph_actor_terminate_workers n p s ≡ ok tt t
      → t.actors p ≡ some (record a { state = st })
      → a.supervisor ≢ null
      → ph_supervisor_handle_crash platform n a.supervisor p t ≡ r
      → ph_actor_crash platform (suc n) p s ≡ r
  unfolding ph_actor_crash after_crash ph_supervisor_handle_crash
  crash-handle_crash n p a st s t r h alive run h' ne e =
      let given : (a.supervisor == null) ≡ false = ground arith in rw (h, alive, run, h', given) e

  -- A crash of an actor that is not crashed and has a supervisor, where the streak does not
  -- reach the limit and the fuel exceeds the height of its tree, returns: the actor is
  -- restarting with its streak one higher, its thread has the tasks of the restart, and every
  -- other actor below it is terminated. Any other actor is as before or terminated, the other
  -- queues and the tables are as before.
  pub crash-Crashes :
      (n : ℕ) (p : Ptr) (a : Actor M) (sv : Supervision) (s : System M)
      → IsTree n s p
      → s.actors p ≡ some a
      → is_crashed a.state ≡ false
      → a.supervisor ≢ null
      → a.supervisor ≢ p
      → Supervises s a.supervisor sv
      → incr a.restart_count_streak ≢ sv.restart_count_streak_max
      → Returns (ph_actor_crash platform (suc n) p s) (λ _ t. Crashes s p a t)
  crash-Crashes n p a sv s tree h alive ne apart supervises limit =
      let (_, t, run, (x, all)) = terminate_workers-terminates n p s tree in
      let (st, h') = left_of s t p a x h in
      let (b, k, e) =
        Supervises-SamePlaces s t a.supervisor sv (λ q c. same_place s t q c x) supervises in
      let (_, u, run', r) =
        handle_crash-Restarts platform n a.supervisor p b (record a { state = st }) sv t h' k e
          apart limit in
      let same = x.same in
      (
        tt,
        u,
        crash-handle_crash n p a st s t (ok tt u) h alive run h' ne run',
        record {
          actor = r.actor;
          below = λ q far under. subst IsTerminated (sym (r.others q far)) (all q under);
          others = λ q far. others_of s t u q x (each_of s t q x) (r.others q far);
          queue = r.queue ∙ ap (λ w. w.threads a.thread_offset ++ restart_tasks a) same;
          queues = λ i far. r.queues i far ∙ ap (λ w. w.threads i) same;
          tables = (
            r.tables.0 ∙ ap (λ w. w.actors_by_ref) same,
            r.tables.1 ∙ ap (λ w. w.actors_by_name) same,
          );
        },
      )

  stays_alive :
      (s t : System M) (p : Ptr) (a : Actor M) (st : ActorState)
      → Terminates s t
      → s.actors p ≡ some a
      → t.actors p ≡ some (record a { state = st })
      → is_crashed a.state ≡ false
      → is_crashed st ≡ false
  stays_alive s t p a st x h h' alive =
      let (b, k, _, keeps) = same_place s t p a x h in
      let same : b ≡ record a { state = st } = ground arith in
      subst (λ d. is_crashed d.state ≡ false) same (keeps alive)

  -- after the streak is written too
  recount :
      (s t : System M) (p : Ptr) (a : Actor M) (st : ActorState)
      → Terminates s t
      → t.actors p ≡ some (record a { state = st })
      → SamePlaces s (
          put_actor p
            (record a { state = st; restart_count_streak = incr a.restart_count_streak })
            t)
  recount s t p a st x h' q c k =
      let (b, k', same, keeps) = same_place s t q c x k in
      elim (Bool-cases (q == p)) [
        | inl eq ↦
            let known : b ≡ record a { state = st } = ground arith in
            (
              record a { state = st; restart_count_streak = incr a.restart_count_streak },
              ground arith,
              subst (λ d. d.supervision ≡ c.supervision) known same,
              λ alive. subst (λ d. is_crashed d.state ≡ false) known (keeps alive),
            )
        | inr ne ↦ (b, ground arith, same, keeps)
      ]

  -- An actor that is not crashed, and whose crash brings its streak to the limit of its
  -- supervisor, crashes the supervisor. Where that is not crashed either, and its own streak
  -- does not reach the limit of its own supervisor, the call returns: the supervisor is
  -- restarting with its streak one higher, its thread has the tasks of the restart, and every
  -- other actor below it is terminated. The trees of both have heights below the fuel.
  pub crash-escalates :
      (n : ℕ) (p : Ptr) (a b : Actor M) (sv sw : Supervision) (s : System M)
      → IsTree (suc n) s p
      → IsTree n s a.supervisor
      → s.actors p ≡ some a
      → is_crashed a.state ≡ false
      → a.supervisor ≢ null
      → a.supervisor ≢ p
      → s.actors a.supervisor ≡ some b
      → is_crashed b.state ≡ false
      → b.supervision ≡ some sv
      → incr a.restart_count_streak ≡ sv.restart_count_streak_max
      → b.supervisor ≢ null
      → b.supervisor ≢ a.supervisor
      → Supervises s b.supervisor sw
      → incr b.restart_count_streak ≢ sw.restart_count_streak_max
      → Returns (ph_actor_crash platform (suc (suc n)) p s) (λ _ t.
        (t.actors a.supervisor ≡ some (restarted platform (incr b.restart_count_streak) b))
        × ((q : Ptr) → q ≢ a.supervisor → Under s a.supervisor q → IsTerminated (t.actors q))
        × (t.threads b.thread_offset ≡ s.threads b.thread_offset ++ restart_tasks b))
  crash-escalates n p a b sv sw s tree tree_v h alive ne apart at_v alive_v e limit up far
        supervises below =
      let (_, t, run, (x, all)) = terminate_workers-terminates (suc n) p s tree in
      let (st, h') = left_of s t p a x h in
      let (st_v, k') = left_of s t a.supervisor b x at_v in
      let alive' : is_crashed st_v ≡ false =
        stays_alive s t a.supervisor b st_v x at_v k' alive_v in
      let c = record a { state = st; restart_count_streak = incr a.restart_count_streak } in
      let t2 = put_actor p c t in
      let places = recount s t p a st x h' in
      let k2 : t2.actors a.supervisor ≡ some (record b { state = st_v }) = ground arith in
      let (_, u, run', r) =
        crash-Crashes n a.supervisor (record b { state = st_v }) sw t2
          (IsTree-SamePlaces n s t2 a.supervisor places tree_v) k2 alive' up far
          (Supervises-SamePlaces s t2 b.supervisor sw places supervises) below in
      (
        tt,
        u,
        crash-handle_crash (suc n) p a st s t (ok tt u) h alive run h' ne (
            handle_crash-crash platform (suc n) a.supervisor p (record b { state = st_v })
              (record a { state = st }) sv t h' k' e apart limit
            ∙ run'),
        (
          r.actor,
          λ q away under. r.below q away (Under-SamePlaces s t2 a.supervisor q places under),
          r.queue ∙ ap (λ w. w.threads b.thread_offset ++ restart_tasks b) x.same,
        ),
      )

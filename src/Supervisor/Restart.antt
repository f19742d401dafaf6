-- ===== src/Supervisor/Restart.antt =====
-- `ph_supervisor_handle_crash` and `ph_supervisor_one_for_one` of src/classes/supervisor.c.
use phactor.Base.{
  ℕ, ◌≡◌, refl, sym, ap, ◌≢◌, true, false, Option, none, some, List, [], ◌∷◌, ◌++◌, arith, ◌==◌,
  Ptr,
}
use mathlib.Core.List.{append_assoc, append-nil}
use phactor.Base.Words.{incr}
use phactor.Context.{ph_vmcontext_reset}
use phactor.PhString.{ph_str_create}
use phactor.Supervisor.{
  ph_supervisor_one_for_one, reset_context, handle_crash_with, ph_actor_crash,
  ph_supervisor_handle_crash,
}
use phactor.System.{Actor, ActorInternal, System, Platform, Supervision, restarting, put_actor}
use phactor.System.Machine.{Returns}
use phactor.Task.{Task, ph_task_create_new_actor, ph_task_create_vm_stack_free}

abbrev pub reset_internal : Platform → Option ActorInternal → Option ActorInternal
reset_internal platform none = none
reset_internal platform (some i) =
    some (record i { vmc = ph_vmcontext_reset platform.vm_stack_header i.vmc })

module _ {M : Type 0} where
  abbrev pub freeing : Option ActorInternal → List (Task M)
  freeing none = []
  freeing (some i) = ph_task_create_vm_stack_free i.vmc ∷ []

  abbrev pub new_task : Actor M → Task M
  new_task a =
      ph_task_create_new_actor (ph_str_create a.ref.val a.ref.len)
        (ph_str_create a.class_name.val a.class_name.len)

  -- the tasks that the thread of a restarted actor is given: the VM stack's, if the object had been
  -- allocated, before the new actor's
  abbrev pub restart_tasks : Actor M → List (Task M)
  restart_tasks a = freeing a.internal ++ new_task a ∷ []

module _ {M : Type 0} (platform : Platform) where
  -- the actor that is restarted
  abbrev pub restarted : ℕ → Actor M → Actor M
  restarted streak a = record a {
    restart_count_streak = streak;
    state = restarting;
    internal = reset_internal platform a.internal;
  }

  -- What a restart of the actor `a` at `p` makes of `s`.
  pub record Restarts (s : System M) (p : Ptr) (a : Actor M) (streak : ℕ) (t : System M)
      : Type 0 where
    pub actor : t.actors p ≡ some (restarted streak a)
    pub others : (q : Ptr) → q ≢ p → t.actors q ≡ s.actors q
    pub queue : t.threads a.thread_offset ≡ s.threads a.thread_offset ++ restart_tasks a
    pub queues : (i : ℕ) → i ≢ a.thread_offset → t.threads i ≡ s.threads i
    pub tables : (t.actors_by_ref ≡ s.actors_by_ref) × (t.actors_by_name ≡ s.actors_by_name)

  -- What the reset of the contexts makes of `s`.
  record Resets (s : System M) (p : Ptr) (a : Actor M) (o : Option ActorInternal) (t : System M)
      : Type 0 where
    actor : t.actors p ≡ some (record a { internal = reset_internal platform o })
    others : (q : Ptr) → q ≢ p → t.actors q ≡ s.actors q
    queue : t.threads a.thread_offset ≡ s.threads a.thread_offset ++ freeing o
    queues : (i : ℕ) → i ≢ a.thread_offset → t.threads i ≡ s.threads i
    tables : (t.actors_by_ref ≡ s.actors_by_ref) × (t.actors_by_name ≡ s.actors_by_name)

  reset_context-Resets :
      (p : Ptr) (a : Actor M) (o : Option ActorInternal) (s : System M)
      → s.actors p ≡ some a
      → a.internal ≡ o
      → Returns (reset_context platform p a o s) (λ _ t. Resets s p a o t)
  unfolding reset_context
  reset_context-Resets p a none s h e = (
    tt,
    s,
    refl,
    record {
      actor = rw h (ap (λ o. some (record a { internal = o })) e);
      others = λ q n. refl;
      queue = sym (append-nil _);
      queues = λ i n. refl;
      tables = (refl, refl);
    },
  )
  reset_context-Resets p a (some i) s h e = (
    tt,
    _,
    refl,
    record {
      actor = ground arith;
      others = λ q n. ground arith;
      queue = ground arith;
      queues = λ i n. ground arith;
      tables = (refl, refl);
    },
  )

  one_for_one-Restarts :
      (p : Ptr) (a : Actor M) (s : System M)
      → s.actors p ≡ some a
      → Returns
          (ph_supervisor_one_for_one platform p s)
          (λ _ t. Restarts s p a a.restart_count_streak t)
  unfolding ph_supervisor_one_for_one
  one_for_one-Restarts p a s h =
      let (_, t, run, r) = reset_context-Resets p a a.internal s h refl in
      rw (h, run, r.actor)
        (
          tt,
          _,
          refl,
          record {
            actor = ground arith;
            others = λ q n. ground (arith, r.others q n);
            queue = ground (
              arith,
              r.queue,
              append_assoc (s.threads a.thread_offset) (freeing a.internal) (new_task a ∷ []),
            );
            queues = λ i n. ground (arith, r.queues i n);
            tables = r.tables;
          },
        )

  -- Where the streak of a crashed actor, one higher, is not the limit, its supervisor restarts
  -- it: its thread gets the task that frees the VM stack, if the object is allocated, and then
  -- the task that starts it. This holds below the limit as well as past it, since the code
  -- tests for equality.
  pub handle_crash-Restarts :
      (fuel : ℕ) (v p : Ptr) (b a : Actor M) (sv : Supervision) (s : System M)
      → s.actors p ≡ some a
      → s.actors v ≡ some b
      → b.supervision ≡ some sv
      → v ≢ p
      → incr a.restart_count_streak ≢ sv.restart_count_streak_max
      → Returns
          (ph_supervisor_handle_crash platform fuel v p s)
          (λ _ t. Restarts s p a (incr a.restart_count_streak) t)
  unfolding ph_supervisor_handle_crash handle_crash_with
  handle_crash-Restarts fuel v p b a sv s h k e apart below =
      let a' = record a { restart_count_streak = incr a.restart_count_streak } in
      let s' = put_actor p a' s in
      let (_, t, run, r) = one_for_one-Restarts p a' s' (ground arith) in
      let at_v : s'.actors v ≡ some b = ground arith in
      let no : (incr a.restart_count_streak == sv.restart_count_streak_max) ≡ false =
        ground arith in
      rw (h, at_v, e, no)
        (
          tt,
          t,
          run,
          record {
            actor = r.actor;
            others = λ q n. ground (arith, r.others q n);
            queue = r.queue;
            queues = r.queues;
            tables = r.tables;
          },
        )

  -- A crash at the limit crashes the supervisor.
  pub handle_crash-crash :
      (fuel : ℕ) (v p : Ptr) (b a : Actor M) (sv : Supervision) (s : System M)
      → s.actors p ≡ some a
      → s.actors v ≡ some b
      → b.supervision ≡ some sv
      → v ≢ p
      → incr a.restart_count_streak ≡ sv.restart_count_streak_max
      → ph_supervisor_handle_crash platform fuel v p s
        ≡ ph_actor_crash platform fuel v
            (put_actor p (record a { restart_count_streak = incr a.restart_count_streak }) s)
  unfolding ph_supervisor_handle_crash handle_crash_with
  handle_crash-crash fuel v p b a sv s h k e apart limit =
      let a' = record a { restart_count_streak = incr a.restart_count_streak } in
      let at_v : (put_actor p a' s).actors v ≡ some b = ground arith in
      let yes : (incr a.restart_count_streak == sv.restart_count_streak_max) ≡ true =
        ground arith in
      rw (h, at_v, e, yes) refl

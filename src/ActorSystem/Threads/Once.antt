-- ===== src/ActorSystem/Threads/Once.antt =====
-- `ActorSystem::__construct` while a system runs: from the return of the call that creates it to the
-- return of `block`.
use phactor.ActorSystem.{created, invalid_thread_count, already_created, construct}
use phactor.ActorSystem.Counters.{round-IsSteady}
use phactor.ActorSystem.Life.{construct-initialised, construct-IsCreated}
use phactor.ActorSystem.Threads.{
  Worker, Main, in_script, scheduling, draining, destroying, counting, emptying, joining, Life,
  Work, Lead, work, lead, Reach, here, next, begin,
}
use phactor.ActorSystem.Threads.Invariant.{steady, destroy_tables-IsSteady}
use phactor.Base.{ℕ, ◌≤◌, ◌≡◌, refl, ◌∙◌, ◌⊎◌, Bool, true, false, Option}
use phactor.Removal.Counters.{perform_actor_removals-IsSteady}
use phactor.System.{System, Platform}

abbrev pub is_running : Main → Bool
is_running in_script = true
is_running scheduling = true
is_running draining = true
is_running destroying = true
is_running counting = true
is_running (emptying i) = true
is_running (joining i) = true
is_running _ = false

module _ {M : Type 0} (platform : Platform) (fuel : ℕ) where
  Work-initialised :
      {i : ℕ} {s t : System M} {w w' : Worker}
      → Work platform fuel i w s w' t
      → t.initialised ≡ s.initialised
  Work-initialised Work.prepare = refl
  Work-initialised (Work.round object code onward k e) =
      (steady platform fuel (round-IsSteady platform fuel _ object code k) _ _ _ e).initialised
  Work-initialised (Work.run r) = r.initialised
  Work-initialised (Work.leave object code k e) =
      (steady platform fuel (round-IsSteady platform fuel _ object code k) _ _ _ e).initialised
  Work-initialised Work.finish = refl
  Work-initialised (Work.pass e) = refl
  Work-initialised (Work.remove destruct k e) =
      (steady platform fuel (perform_actor_removals-IsSteady destruct k _) _ _ _ e).initialised

module _ {M : Type 0} (platform : Platform) (fuel exit_status : ℕ) where
  Lead-initialised :
      {w : ℕ → Worker} {m m' : Main} {s t : System M}
      → Lead platform fuel exit_status w m s m' t
      → (is_running m ≡ true → s.initialised ≡ true)
      → is_running m' ≡ true
      → t.initialised ≡ true
  Lead-initialised (Lead.start e) h r = refl
  Lead-initialised (Lead.script k) h r = k.initialised ∙ h refl
  Lead-initialised (Lead.block e n) h r = e
  Lead-initialised (Lead.kill e n) h r = cc
  Lead-initialised (Lead.round object code onward k e) h r =
      (steady platform fuel (round-IsSteady platform fuel _ object code k) _ _ _ e).initialised
      ∙ h refl
  Lead-initialised (Lead.leave object code k e) h r =
      (steady platform fuel (round-IsSteady platform fuel _ object code k) _ _ _ e).initialised
      ∙ h refl
  Lead-initialised (Lead.drained e) h r = h refl
  Lead-initialised (Lead.destroy e) h r =
      (steady platform fuel (destroy_tables-IsSteady platform fuel) _ _ _ e).initialised ∙ h refl
  Lead-initialised Lead.finish h r = h refl
  Lead-initialised (Lead.empty lt) h r = h refl
  Lead-initialised (Lead.join e) h r = h refl
  Lead-initialised (Lead.return e) h r = cc
  Lead-initialised (Lead.script_on k) h r = cc

  Reach-initialised :
      (n : ℕ) (s : System M) {l : Life M}
      → Reach platform fuel exit_status (begin n s) l
      → is_running l.main ≡ true
      → l.system.initialised ≡ true
  unfolding begin
  Reach-initialised n s here r = cc
  Reach-initialised n s (next before (work i lt step)) r =
      Work-initialised platform fuel step ∙ Reach-initialised n s before r
  Reach-initialised n s (next before (lead step)) r =
      Lead-initialised step (Reach-initialised n s before) r

  -- A system that the constructor creates has 1 to 1024 threads. In every state that its
  -- threads reach, from the start of the script to the return of `block`, another call of the
  -- constructor creates none: it refuses the number of threads and changes nothing, or sets the
  -- shutdown flag.
  pub construct-once :
      (given again : Option ℕ) (prepared others : ℕ) (s t : System M) {l : Life M}
      → construct given prepared s ≡ (created, t)
      → Reach platform fuel exit_status (begin t.thread_count s) l
      → is_running l.main ≡ true
      → (1 ≤ t.thread_count)
        × (t.thread_count ≤ 1024)
        × ((construct again others l.system ≡ (invalid_thread_count, l.system))
            ⊎ (construct again others l.system
                ≡ (already_created, record l.system { shutdown = true })))
  construct-once given again prepared others s t {l} e r running =
      let c = construct-IsCreated given prepared s t e in
      (
        c.some_thread,
        c.bounded,
        construct-initialised again others l.system (Reach-initialised t.thread_count s r running),
      )

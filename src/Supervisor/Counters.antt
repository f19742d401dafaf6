-- ===== src/Supervisor/Counters.antt =====
-- A crash, and what it does to the workers, changes none of the counters and flags of
-- `System.Counters`.
use phactor.Base.{ℕ, zero, suc, Option, none, some, arith, ◌==◌, Ptr, null}
use phactor.Base.Words.{incr}
use phactor.Supervisor.{
  for_workers, ph_actor_terminate_workers, reset_context, ph_supervisor_one_for_one,
  handle_crash_with, after_crash, ph_actor_crash,
}
use phactor.System.{terminated, Actor, ActorInternal, Platform, Supervision, is_crashed, push_task}
use phactor.System.Counters.{
  IsSteady, bind-IsSteady, pure-IsSteady, modify-IsSteady, if-IsSteady, load-IsSteady,
  store-IsSteady, load_supervision-IsSteady, out_of_fuel-IsSteady, steady_commands,
}
use phactor.System.Machine.{Cmd, modify}
use phactor.Task.{Task}
use phactor.System.Counters.{Steps}
use phactor.Removal.Counters.{apply_workers-IsSteady, remove_from_table-IsSteady}

module _ {M : Type 0} where
  pub for_workers-IsSteady :
      (f : Ptr → Cmd M (Unit {0}))
      → Steps f
      → (p : Ptr) (o : Option Supervision) → IsSteady (for_workers f p o)
  unfolding for_workers
  for_workers-IsSteady f h p none = pure-IsSteady tt
  for_workers-IsSteady f h p (some sv) = apply_workers-IsSteady f h sv.workers.size 0 p

  terminate_workers-IsSteady : (fuel : ℕ) → Steps {M = M} (ph_actor_terminate_workers fuel)
  unfolding ph_actor_terminate_workers
  terminate_workers-IsSteady zero p = search steady_commands
  terminate_workers-IsSteady (suc fuel) p = bind-IsSteady (load-IsSteady p) (λ a.
      bind-IsSteady (store-IsSteady p (record a { state = terminated })) (λ _.
        if-IsSteady (is_crashed a.state) (pure-IsSteady tt) (
          for_workers-IsSteady (ph_actor_terminate_workers fuel) (terminate_workers-IsSteady fuel) p
            a.supervision)))

  pub push_task-IsSteady : (offset : ℕ) (task : Task M) → IsSteady (modify (push_task offset task))
  push_task-IsSteady offset task = modify-IsSteady (push_task offset task) (λ s. ground arith)

module _ {M : Type 0} (platform : Platform) where
  reset_context-IsSteady :
      (p : Ptr) (a : Actor M) (o : Option ActorInternal) → IsSteady (reset_context platform p a o)
  unfolding reset_context
  reset_context-IsSteady p a none = pure-IsSteady tt
  reset_context-IsSteady p a (some internal) = search (steady_commands, push_task-IsSteady)

  pub one_for_one-IsSteady : Steps {M = M} (ph_supervisor_one_for_one platform)
  unfolding ph_supervisor_one_for_one
  one_for_one-IsSteady p = search (steady_commands, push_task-IsSteady, reset_context-IsSteady)

  handle_crash_with-IsSteady :
      (crash : Ptr → Cmd M (Unit {0}))
      → Steps crash
      → (supervisor p : Ptr) → IsSteady (handle_crash_with platform crash supervisor p)
  unfolding handle_crash_with
  handle_crash_with-IsSteady crash h supervisor p = bind-IsSteady (load-IsSteady p) (λ a.
      let streak = incr a.restart_count_streak in
      bind-IsSteady (store-IsSteady p (record a { restart_count_streak = streak })) (λ _.
        bind-IsSteady (load_supervision-IsSteady supervisor) (λ sv.
          if-IsSteady (streak == sv.restart_count_streak_max) (h supervisor)
            (one_for_one-IsSteady p))))

  after_crash-IsSteady :
      (fuel : ℕ) (crash : Ptr → Cmd M (Unit {0}))
      → Steps crash
      → (p supervisor : Ptr) → IsSteady (after_crash platform fuel crash p supervisor)
  unfolding after_crash
  after_crash-IsSteady fuel crash h p supervisor =
      if-IsSteady (supervisor == null) (search (steady_commands, remove_from_table-IsSteady))
        (handle_crash_with-IsSteady crash h supervisor p)

  pub crash-IsSteady : (fuel : ℕ) → Steps {M = M} (ph_actor_crash platform fuel)
  unfolding ph_actor_crash
  crash-IsSteady zero p = out_of_fuel-IsSteady
  crash-IsSteady (suc fuel) p = bind-IsSteady (load-IsSteady p) (λ a.
      if-IsSteady (is_crashed a.state) (pure-IsSteady tt) (
        bind-IsSteady (terminate_workers-IsSteady fuel p) (λ _.
          bind-IsSteady (load-IsSteady p) (λ b.
            after_crash-IsSteady fuel (ph_actor_crash platform fuel) (crash-IsSteady fuel) p
              b.supervisor))))

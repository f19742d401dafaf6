-- ===== src/Tests/Threads.antt =====
-- The threads of a system with one worker, from its creation to its end, and of a second one.
use phactor.ActorSystem.{
  invalid_thread_count, already_created, construct, create_threads, initialise_actor_system,
  force_shutdown_actor_system, phactor_actor_system_ctor, message_handling_round,
}
use phactor.ActorSystem.Counters.{IsSteadyCode}
use phactor.Messaging.{Code}
use phactor.System.Counters.{pure-IsSteady}
use phactor.System.Machine.{pure}
use phactor.ActorSystem.Threads.Once.{construct-once}
use phactor.ActorSystem.Threads.{
  done, Life, Work, Lead, work, lead, Reach, here, next, begin, destroy_tables,
}
use phactor.ActorSystem.Threads.Counts.{has_finished, has_passed, is_counted, is_drained}
use phactor.ActorSystem.Threads.SecondLife.{second_life-never_ends}
use phactor.ActorSystem.Threads.Shutdown.{IsOrdered, Reach-IsOrdered, barrier_iff}
use phactor.Base.{ℕ, ◌+◌, ◌<◌, ◌≡◌, ◌↔◌, refl, true, false, none, some, ◌≤◌, ◌⊎◌, arith}
use phactor.HashTable.{ph_hashtable_init, ph_hashtable_clear}
use phactor.Removal.{perform_actor_removals}
use phactor.System.{System}
use phactor.Tests.Systems.{platform}
use phactor.Vector.{ph_vector_init, ph_vector_size}

abbrev fresh : System ℕ
fresh = phactor_actor_system_ctor 0

abbrev first : Life ℕ
first = begin 1 fresh

-- PHP code without effects on the system
abbrev silent : Code ℕ
silent = record { construct = λ p. pure none; destruct = λ p. pure tt }

silent-IsSteadyCode : IsSteadyCode silent
silent-IsSteadyCode = record {
  constructs = λ p. pure-IsSteady none;
  destructs = λ p. pure-IsSteady tt;
}

abbrev running : System ℕ
running = (initialise_actor_system 1 1 fresh).1

-- The worker is prepared, the script shuts the system down and blocks, and both threads end.
ended : (l : Life ℕ) × Reach platform 3 0 first l × (l.main ≡ done)
unfolding begin initialise_actor_system force_shutdown_actor_system phactor_actor_system_ctor
    message_handling_round destroy_tables perform_actor_removals ph_vector_size ph_vector_init
    ph_hashtable_init ph_hashtable_clear
ended =
    let closed : System ℕ = force_shutdown_actor_system running in
    (
      _,
      next
          (next
            (next
              (next
                (next
                  (next
                    (next
                      (next
                        (next
                          (next
                            (next
                              (next
                                (next
                                  (next (next here (work 0 (omega arith) Work.prepare))
                                    (lead (Lead.start refl)))
                                  (lead (
                                    Lead.script {t = closed} (record {
                                      initialised = refl;
                                      thread_count = refl;
                                      prepared = refl;
                                      finished = refl;
                                    }))))
                                (lead (Lead.block refl (λ e. absurd (omega arith)))))
                              (lead (Lead.leave none silent silent-IsSteadyCode refl)))
                            (work 0 (omega arith)
                              (Work.leave none silent silent-IsSteadyCode refl)))
                          (work 0 (omega arith) Work.finish))
                        (lead (Lead.drained refl)))
                      (lead (Lead.destroy refl)))
                    (lead Lead.finish))
                  (work 0 (omega arith) (Work.pass refl)))
                (work 0 (omega arith)
                  (Work.remove silent.destruct silent-IsSteadyCode.destructs refl)))
              (lead (Lead.empty (omega arith))))
            (lead (Lead.join refl)))
          (lead (Lead.return refl)),
      refl,
    )

fresh_counts : (fresh.prepared_thread_count ≡ 0) × (fresh.finished_thread_count ≡ 0)
unfolding phactor_actor_system_ctor
fresh_counts = (refl, refl)

Reach-IsOrdered_example : IsOrdered 1 ended.0
Reach-IsOrdered_example =
    Reach-IsOrdered platform 3 0 fresh (omega arith) fresh_counts.0 fresh_counts.1 ended.1

barrier_iff_example : (ended.0.system.thread_count + 1 ≡ ended.0.system.finished_thread_count) ↔ (
    (is_counted ended.0.main ≡ true) × ((j : ℕ) → j < 1 → has_finished (ended.0.workers j) ≡ true))
barrier_iff_example =
    barrier_iff platform 3 0 fresh (omega arith) fresh_counts.0 fresh_counts.1 ended.1

-- a second system of one worker, as it begins
second_life-never_ends_example :
    ((i : ℕ) → has_passed ((begin 1 ended.0.system).workers i) ≡ false)
    × (is_drained (begin 1 ended.0.system).main ≡ false)
second_life-never_ends_example =
    second_life-never_ends platform 3 0 fresh (omega arith) fresh_counts.0 fresh_counts.1 ended.1
      ended.2 (omega arith) here

-- The second call is made when the worker is prepared and the script runs.
construct-once_example :
    (1 ≤ running.thread_count)
    × (running.thread_count ≤ 1024)
    × ((construct none 0 running ≡ (invalid_thread_count, running))
        ⊎ (construct none 0 running ≡ (already_created, record running { shutdown = true })))
unfolding construct initialise_actor_system begin create_threads phactor_actor_system_ctor
construct-once_example =
    construct-once platform 3 0 (some 1) none 1 0 fresh running {l = _} refl
      (next (next here (work 0 (omega arith) Work.prepare)) (lead (Lead.start refl))) refl

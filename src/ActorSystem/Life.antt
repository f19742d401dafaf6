-- ===== src/ActorSystem/Life.antt =====
-- What `ActorSystem::__construct` of src/classes/actor_system.c does on a system that is initialised,
-- and what it creates.
use phactor.ActorSystem.{
  create_threads, Construction, created, invalid_thread_count, already_created,
  initialise_actor_system, construct,
}
use phactor.Base.{
  ◌==◌, ℕ, ◌≤◌, ◌≡◌, refl, subst, ◌⊎◌, true, ◌||◌, Option, none, some, arith, ltb, if◌then◌else◌,
  Bool-cases, inl, inr,
}
use phactor.System.{System}

module _ {M : Type 0} where
  -- the constructor on a system that is initialised
  pub construct-initialised :
      (given : Option ℕ) (prepared : ℕ) (t : System M)
      → t.initialised ≡ true
      → (construct given prepared t ≡ (invalid_thread_count, t))
        ⊎ (construct given prepared t ≡ (already_created, record t { shutdown = true }))
  unfolding construct
  construct-initialised none prepared t e =
      elim (Bool-cases (ltb t.thread_count 1 || ltb 1024 t.thread_count)) [
        | inl bad ↦ inl (rw bad refl)
        | inr good ↦ inr (rw (good, e) refl)
      ]
  construct-initialised (some n) prepared t e = elim (Bool-cases (ltb n 1 || ltb 1024 n)) [
    | inl bad ↦ inl (rw bad refl)
    | inr good ↦ inr (rw (good, e) refl)
  ]

  -- what is created
  pub record IsCreated (t : System M) : Type 0 where
    pub some_thread : 1 ≤ t.thread_count
    pub bounded : t.thread_count ≤ 1024
    pub prepared : t.prepared_thread_count ≡ t.thread_count

  created_with :
      (n prepared : ℕ) (s t : System M)
      → ◌≡◌ {A = Construction × System M}
          (if ltb n 1 || ltb 1024 n
            then (invalid_thread_count, s)
            else if s.initialised
            then (already_created, record s { shutdown = true })
            else initialise_actor_system n prepared s)
          (created, t)
      → IsCreated t
  unfolding initialise_actor_system create_threads
  created_with n prepared s t e = elim (Bool-cases (ltb n 1 || ltb 1024 n)) [
    | inl bad ↦ absurd (ground arith)
    | inr good ↦ elim (Bool-cases s.initialised) [
      | inl was ↦ absurd (ground arith)
      | inr fresh ↦ elim (Bool-cases (n == prepared)) [
        | inr fewer ↦ absurd (ground arith)
        | inl all ↦
            let u : System M = record (create_threads n s) {
              prepared_thread_count = prepared;
              initialised = true;
            } in
            let same : u ≡ t = ground arith in
            subst IsCreated same (record {
              some_thread = ground arith;
              bounded = ground arith;
              prepared = ground arith;
            })
      ]
    ]
  ]

  pub construct-IsCreated :
      (given : Option ℕ) (prepared : ℕ) (s t : System M)
      → construct given prepared s ≡ (created, t)
      → IsCreated t
  unfolding construct
  construct-IsCreated none prepared s t e = created_with s.thread_count prepared s t e
  construct-IsCreated (some n) prepared s t e = created_with n prepared s t e

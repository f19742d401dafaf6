-- ===== src/System/Counters.antt =====
-- Commands that leave alone what src/classes/actor_system.c counts its threads by: the flags
-- `initialised` and the three counts of threads.
use phactor.Base.{◌≡◌, refl, ◌∙◌, Bool, true, false, Option, none, some, arith, if◌then◌else◌, Ptr}
use phactor.HashTable.{HashTable}
use phactor.System.{Actor, Supervision, System}
use phactor.System.Machine.{
  Run, ok, fault, blocked, out_of_fuel, Cmd, and_then, ◌>>=◌, pure, get, modify, load_from, load,
  store, supervision_from, load_supervision, store_workers, lock_actors_by_ref,
  unlock_actors_by_ref,
}

module _ {M : Type 0} where
  pub record Steady (s t : System M) : Type 0 where
    pub initialised : t.initialised ≡ s.initialised
    pub thread_count : t.thread_count ≡ s.thread_count
    pub prepared : t.prepared_thread_count ≡ s.prepared_thread_count
    pub finished : t.finished_thread_count ≡ s.finished_thread_count

  pub Steady-refl : (s : System M) → Steady s s
  Steady-refl s = record {
    initialised = refl;
    thread_count = refl;
    prepared = refl;
    finished = refl;
  }

  pub Steady-trans : {s t u : System M} → Steady s t → Steady t u → Steady s u
  Steady-trans f g = record {
    initialised = g.initialised ∙ f.initialised;
    thread_count = g.thread_count ∙ f.thread_count;
    prepared = g.prepared ∙ f.prepared;
    finished = g.finished ∙ f.finished;
  }

-- Where the run returns, the counters are as in `s`.
abbrev pub Keeps : {M A : Type 0} → System M → Run M A → Type 0
Keeps s (ok a t) = Steady s t
Keeps s _ = Unit {0}

and_then-Keeps :
    {M A B : Type 0} (s : System M) (r : Run M A) (k : A → Cmd M B)
    → Keeps s r
    → ((a : A) (t : System M) → Keeps t (k a t))
    → Keeps s (and_then r k)
and_then-Keeps s (ok a t) k h g = after (k a t) h (g a t)
  where
    after :
        {M B : Type 0} {s : System M} {t : System M} (r : Run M B)
        → Steady s t
        → Keeps t r
        → Keeps s r
    after (ok b u) f g = Steady-trans f g
    after fault f g = tt
    after blocked f g = tt
    after out_of_fuel f g = tt
and_then-Keeps s fault k h g = tt
and_then-Keeps s blocked k h g = tt
and_then-Keeps s out_of_fuel k h g = tt

pub record IsSteady {M A : Type 0} (m : Cmd M A) : Type 0 where
  pub kept : (s : System M) → Keeps s (m s)

module _ {M : Type 0} where
  pub pure-IsSteady : {A : Type 0} (a : A) → IsSteady {M = M} (pure a)
  pure-IsSteady a = record { kept = λ s. Steady-refl s }

  pub get-IsSteady : IsSteady {M = M} get
  get-IsSteady = record { kept = λ s. Steady-refl s }

  pub modify-IsSteady :
      (f : System M → System M) → ((s : System M) → Steady s (f s)) → IsSteady (modify f)
  modify-IsSteady f h = record { kept = h }

  pub bind-IsSteady :
      {A B : Type 0} {m : Cmd M A} {k : A → Cmd M B}
      → IsSteady m
      → ((a : A) → IsSteady (k a))
      → IsSteady (m >>= k)
  bind-IsSteady {m} {k} f g = record {
    kept = λ s. and_then-Keeps s (m s) k (f.kept s) (λ a. (g a).kept);
  }

  pub if-IsSteady :
      {A : Type 0} (b : Bool) {m n : Cmd M A}
      → IsSteady m
      → IsSteady n
      → IsSteady (if b then m else n)
  if-IsSteady true f g = f
  if-IsSteady false f g = g

  load_from-Keeps : (o : Option (Actor M)) (s : System M) → Keeps s (load_from o s)
  load_from-Keeps none s = tt
  load_from-Keeps (some a) s = Steady-refl s

  pub load-IsSteady : (p : Ptr) → IsSteady {M = M} (load p)
  load-IsSteady p = record { kept = λ s. load_from-Keeps (s.actors p) s }

  pub store-IsSteady : (p : Ptr) (a : Actor M) → IsSteady (store p a)
  store-IsSteady p a = record { kept = λ s. ground arith }

  pub supervision_from-IsSteady : (o : Option Supervision) → IsSteady {M = M} (supervision_from o)
  supervision_from-IsSteady none = record { kept = λ s. tt }
  supervision_from-IsSteady (some sv) = record { kept = λ s. Steady-refl s }

  pub load_supervision-IsSteady : (p : Ptr) → IsSteady {M = M} (load_supervision p)
  load_supervision-IsSteady p =
      bind-IsSteady (load-IsSteady p) (λ a. supervision_from-IsSteady a.supervision)

  pub store_workers-IsSteady : (p : Ptr) (ht : HashTable) → IsSteady {M = M} (store_workers p ht)
  store_workers-IsSteady p ht =
      bind-IsSteady (load-IsSteady p)
        (λ a. bind-IsSteady (supervision_from-IsSteady a.supervision) (λ sv. store-IsSteady p _))

  pub lock-IsSteady : IsSteady {M = M} lock_actors_by_ref
  lock-IsSteady = record { kept = λ s. held s s.actors_by_ref_lock }
    where
      held :
          (s : System M) (b : Bool)
          → Keeps s (if b then blocked else ok tt (record s { actors_by_ref_lock = true }))
      held s true = tt
      held s false = ground arith

  pub unlock-IsSteady : IsSteady {M = M} unlock_actors_by_ref
  unlock-IsSteady = record { kept = λ s. ground arith }

pub fault-IsSteady : {M A : Type 0} → IsSteady {M = M} {A = A} (λ _. fault)
fault-IsSteady = record { kept = λ s. tt }

pub out_of_fuel-IsSteady : {M A : Type 0} → IsSteady {M = M} {A = A} (λ _. out_of_fuel)
out_of_fuel-IsSteady = record { kept = λ s. tt }

-- The commands of `System.Machine`, with `bind-IsSteady` for their composition.
pub ruleset steady_commands = (
  bind-IsSteady, pure-IsSteady, get-IsSteady, load-IsSteady, store-IsSteady,
  load_supervision-IsSteady, store_workers-IsSteady, lock-IsSteady, unlock-IsSteady, fault-IsSteady,
  out_of_fuel-IsSteady,
)

-- a command for each actor
abbrev pub Steps : {M : Type 0} → (Ptr → Cmd M (Unit {0})) → Type 0
Steps f = (p : Ptr) → IsSteady (f p)

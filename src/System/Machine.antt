-- ===== src/System/Machine.antt =====
-- Commands on the system: they end, read or write through a pointer that leads to no actor, wait
-- for the lock of `actors_by_ref` that is held, or use up the fuel that bounds their recursion.
use phactor.Base.{◌≡◌, true, false, Option, none, some, Ptr, if◌then◌else◌}
use phactor.HashTable.{HashTable}
use phactor.System.{Actor, Supervision, System, put_actor}

pub data Run (M A : Type 0) : Type 0 where
  ok : A → System M → Run M A
  fault : Run M A
  blocked : Run M A
  out_of_fuel : Run M A

abbrev pub Cmd : Type 0 → Type 0 → Type 0
Cmd M A = System M → Run M A

module _ {M A B : Type 0} where
  abbrev pub and_then : Run M A → (A → Cmd M B) → Run M B
  and_then (ok a s) k = k a s
  and_then fault k = fault
  and_then blocked k = blocked
  and_then out_of_fuel k = out_of_fuel

  infixl 5 ◌>>=◌ ◌>>◌
  abbrev pub ◌>>=◌ : Cmd M A → (A → Cmd M B) → Cmd M B
  m >>= k = λ s. and_then (m s) k

  abbrev pub ◌>>◌ : Cmd M A → Cmd M B → Cmd M B
  m >> n = m >>= λ _. n

abbrev pub pure : {M A : Type 0} → A → Cmd M A
pure = ok

module _ {M : Type 0} where
  abbrev pub get : Cmd M (System M)
  get s = ok s s

  abbrev pub modify : (System M → System M) → Cmd M (Unit {0})
  modify f s = ok tt (f s)

  abbrev pub load_from : Option (Actor M) → Cmd M (Actor M)
  load_from none s = fault
  load_from (some a) s = ok a s

  -- reading `*actor`
  abbrev pub load : Ptr → Cmd M (Actor M)
  load p s = load_from (s.actors p) s

  -- writing `*actor`
  abbrev pub store : Ptr → Actor M → Cmd M (Unit {0})
  store p a = modify (put_actor p a)

  -- `pthread_mutex_lock(&PHACTOR_G(actor_system)->actors_by_ref.lock)`
  abbrev pub lock_actors_by_ref : Cmd M (Unit {0})
  lock_actors_by_ref s =
      if s.actors_by_ref_lock then blocked else ok tt (record s { actors_by_ref_lock = true })

  abbrev pub unlock_actors_by_ref : Cmd M (Unit {0})
  unlock_actors_by_ref = modify (λ s. record s { actors_by_ref_lock = false })

  -- reading `actor->supervision`, which must not be NULL
  abbrev pub supervision_from : Option Supervision → Cmd M Supervision
  supervision_from none s = fault
  supervision_from (some sv) s = ok sv s

  abbrev pub load_supervision : Ptr → Cmd M Supervision
  load_supervision p = load p >>= λ a. supervision_from a.supervision

  -- writing `actor->supervision->workers`
  abbrev pub store_workers : Ptr → HashTable → Cmd M (Unit {0})
  store_workers p workers = do
    a ← load p
    sv ← supervision_from a.supervision
    store p (record a { supervision = some (record sv { workers = workers }) })

-- The run ends, in a result and a state that satisfy `P`.
abbrev pub Returns : {M A : Type 0} → Run M A → (A → System M → Type 0) → Type 0
Returns {M} {A} r P = (a : A) × (s : System M) × (r ≡ ok a s) × P a s

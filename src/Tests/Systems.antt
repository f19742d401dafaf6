-- ===== src/Tests/Systems.antt =====
-- Systems of a few actors, and a platform.
use phactor.Base.{
  ℕ, ◌≡◌, refl, ◌≢◌, true, false, Option, none, some, List, [], ◌∷◌, arith, ◌==◌, if◌then◌else◌,
  Ptr, null, Bool-cases, inl, inr,
}
use phactor.HashTable.{ph_hashtable_init}
use phactor.Messaging.WakeUp.{IsAwake, resumes_of, pending}
use phactor.PhString.{PhString, ph_str_eq}
use phactor.System.{Actor, ActorInternal, ActorState, System, Platform, minus_one}
use phactor.Task.{Task, Message}

-- the hash of a string is its length
abbrev pub platform : Platform
platform = record { zend_hash_func = λ s. s.len; vm_stack_header = 16 }

abbrev pub letter : ℕ → PhString
letter c = record { len = 1; val = c ∷ [] }

-- An actor without a name, on thread 0.
abbrev pub actor : {M : Type 0} → ℕ → ActorState → List (Message M) → Actor M
actor c state mailbox = record {
  name = none;
  ref = letter c;
  mailbox = mailbox;
  class_name = letter 67;
  ctor_args = [];
  thread_offset = 0;
  state = state;
  restart_count_streak = 0;
  tree_number = minus_one;
  supervisor = null;
  supervision = none;
  internal = none;
}

abbrev pub object : ℕ → ActorInternal
object c = record {
  ref = letter c;
  vmc = record { vm_stack = []; vm_stack_top = 0; vm_stack_end = 0 };
}

-- an actor whose object is allocated
abbrev pub living : {M : Type 0} → ℕ → ActorState → List (Message M) → Actor M
living c state mailbox = record (actor c state mailbox) { internal = some (object c) }

-- no table leads to an actor
abbrev pub system : {M : Type 0} → (Ptr → Option (Actor M)) → List (Task M) → System M
system actors queue = record {
  initialised = true;
  shutdown = false;
  actors_by_ref_lock = false;
  actors_by_ref = ph_hashtable_init 64;
  actors_by_name = ph_hashtable_init 64;
  thread_count = 1;
  prepared_thread_count = 1;
  finished_thread_count = 0;
  threads = λ i. if i == 0 then queue else [];
  actor_removals = λ i. record { values = []; size = 0; used = 0 };
  actors = actors;
  global_tree_number = 0;
  global_actor_id = 0;
}

-- two actors, at the addresses 1 and 2
abbrev pub pair : {M : Type 0} → Actor M → Actor M → Ptr → Option (Actor M)
pair a b p = if p == 1 then some a else if p == 2 then some b else none

pair-cases :
    (a b c : Actor ℕ) (p : Ptr) (P : Ptr → Actor ℕ → Type 0)
    → P 1 a
    → P 2 b
    → pair a b p ≡ some c
    → P p c
pair-cases a b c p P x y h = elim (Bool-cases (p == 1)) [
  | inl e ↦ let at : p ≡ 1 = ground arith in let same : a ≡ c = ground arith in rw (at, ← same) x
  | inr e ↦ elim (Bool-cases (p == 2)) [
    | inl e' ↦ let at : p ≡ 2 = ground arith in let same : b ≡ c = ground arith in rw (at, ← same) y
    | inr e' ↦ absurd (ground arith)
  ]
]

pub pair-IsAwake :
    (a b : Actor ℕ) (i j : ActorInternal) (queue : List (Task ℕ))
    → a.internal ≡ some i
    → b.internal ≡ some j
    → i.ref ≡ a.ref
    → j.ref ≡ b.ref
    → ph_str_eq a.ref b.ref ≡ false
    → ph_str_eq b.ref a.ref ≡ false
    → resumes_of a.ref ((system (pair a b) queue).threads a.thread_offset) ≡ pending a
    → resumes_of b.ref ((system (pair a b) queue).threads b.thread_offset) ≡ pending b
    → IsAwake (system (pair a b) queue)
pair-IsAwake a b i j queue o o' r r' n n' x y = record {
  awake = λ p c h.
      pair-cases a b c p
        (λ q d. resumes_of d.ref ((system (pair a b) queue).threads d.thread_offset) ≡ pending d) x
        y h;
  distinct = λ p q c d ne h k.
      pair-cases a b c p (λ p' c'. p' ≢ q → ph_str_eq c'.ref d.ref ≡ false)
        (pair-cases a b d q (λ q' d'. 1 ≢ q' → ph_str_eq a.ref d'.ref ≡ false)
          (λ m. absurd (m refl)) (λ m. n) k)
        (pair-cases a b d q (λ q' d'. 2 ≢ q' → ph_str_eq b.ref d'.ref ≡ false) (λ m. n')
          (λ m. absurd (m refl)) k)
        h ne;
  objects = λ p c h runs.
      pair-cases a b c p (λ q d. (k : ActorInternal) × (d.internal ≡ some k)) (i, o) (j, o') h;
  refs = λ p c k h e.
      pair-cases a b c p (λ q d. d.internal ≡ some k → k.ref ≡ d.ref)
        (λ e'. let same : i ≡ k = ground arith in rw (← same) r)
        (λ e'. let same : j ≡ k = ground arith in rw (← same) r') h e;
}

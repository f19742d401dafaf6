-- ===== src/Removal/Freeing.antt =====
-- `perform_actor_removals` of src/classes/actor_system.c, on the actors that are marked for a thread.
use phactor.Base.{ℕ, ◌^◌, ◌<◌, ◌≡◌, ◌≢◌, none, some, Ptr, null, get_or}
use phactor.System.{Actor, System}
use phactor.System.Machine.{Cmd, Returns}
use phactor.Vector.{Vector}

-- the actor at a place of the vector
abbrev pub marked_at : Vector → ℕ → Ptr
marked_at v i = get_or v.values i null

module _ {M : Type 0} where
  -- Each place in use holds the address of an actor, and no address stands twice.
  pub record IsMarking (s : System M) (v : Vector) : Type 0 where
    pub small : v.used < 2 ^ 31
    pub live : (i : ℕ) → i < v.used → (a : Actor M) × (s.actors (marked_at v i) ≡ some a)
    pub apart : (i j : ℕ) → i < j → j < v.used → marked_at v i ≢ marked_at v j

  -- Destructors that return, and neither create actors nor change or remove any. They may send
  -- messages and shut the system down.
  pub record IsQuiet (destruct : Ptr → Cmd M (Unit {0})) : Type 0 where
    pub quiet :
        (p : Ptr) (s : System M)
        → Returns
            (destruct p s)
            (λ _ t. (t.actors ≡ s.actors) × (t.actor_removals ≡ s.actor_removals))

  -- What the freeing of the actors of `v` makes of `s`.
  pub record Frees (s : System M) (offset : ℕ) (v : Vector) (t : System M) : Type 0 where
    pub freed : (i : ℕ) → i < v.used → t.actors (marked_at v i) ≡ none
    pub others : (q : Ptr) → ((i : ℕ) → i < v.used → q ≢ marked_at v i) → t.actors q ≡ s.actors q
    pub emptied : (t.actor_removals offset).used ≡ 0
    pub elsewhere : (k : ℕ) → k ≢ offset → t.actor_removals k ≡ s.actor_removals k

-- ===== src/Tests/Life.antt =====
-- Actors that are created and removed, and the life of a system.
use phactor.ActorRef.{
  created, aborted, thrown, name_taken, find_supervisor, actor_ref_string, create_actor,
}
use phactor.ActorRef.Register.{
  next_ref, NoTrace, Enters, Vacant, create_actor-NoTrace, create_actor-Enters,
}
use phactor.ActorSystem.{force_shutdown_actor_system}
use phactor.Base.{ℕ, ◌≡◌, refl, inl, none, some, [], ◌∷◌, arith, ◌==◌, if◌then◌else◌, Ptr}
use phactor.HashTable.{
  HashTable, home, key_eq, make_room, ph_hashtable_init, ph_hashtable_search,
  ph_hashtable_search_direct, ph_hashtable_insert_direct,
}
use phactor.HashTable.Laws.{search-insert}
use phactor.HashTable.Valid.{IsValid, ph_hashtable_init-IsValid}
use phactor.Messaging.{ph_actor_create}
use phactor.PhString.{PhString, ph_str_create, ph_str_eq, strncmp_eq}
use phactor.Removal.{ph_actor_remove_from_table}
use phactor.Removal.Leaf.{Removes, remove_from_table-Removes}
use phactor.System.{Actor, ActorInternal, System, active, update}
use phactor.System.Machine.{Cmd, modify, Returns}
use phactor.Tests.Systems.{platform, letter, actor, system}

abbrev fresh_table : HashTable
fresh_table = ph_hashtable_init 64

fresh_table-IsValid : IsValid fresh_table
fresh_table-IsValid = ph_hashtable_init-IsValid 64 (omega arith) (omega arith)

abbrev blank : System ℕ
blank = system (λ p. none) []

fresh_table-Vacant : (key : PhString) → key.len ≡ 33 → Vacant platform fresh_table key
unfolding ph_hashtable_search ph_hashtable_search_direct ph_hashtable_init home
fresh_table-Vacant key e = (fresh_table-IsValid, omega arith, rw e refl)

fresh_table-Vacant_name : Vacant platform fresh_table (ph_str_create (97 ∷ []) 1)
unfolding ph_hashtable_search ph_hashtable_search_direct ph_hashtable_init home ph_str_create
fresh_table-Vacant_name = (fresh_table-IsValid, omega arith, refl)

-- an actor named `a`, at the address 5
create_actor-Enters_example :
    Returns (create_actor platform 1 5 0 (67 ∷ []) [] (some (97 ∷ [])) none blank) (λ c t.
      (c ≡ created (next_ref blank))
      × Enters platform blank 5 0
          (ph_actor_create
            (some (ph_str_create (97 ∷ []) 1))
            (next_ref blank)
            (ph_str_create (67 ∷ []) 1)
            [])
          t
      × (ph_hashtable_search platform.zend_hash_func t.actors_by_name (ph_str_create (97 ∷ []) 1)
          ≡ 5))
unfolding actor_ref_string
create_actor-Enters_example =
    create_actor-Enters platform 1 5 0 (67 ∷ []) [] (97 ∷ []) blank refl (λ e. omega arith)
      (fresh_table-Vacant (next_ref blank) refl) fresh_table-Vacant_name

-- a worker without a name, whose supervisor is not in the table
create_actor-NoTrace_example :
    Returns (create_actor platform 1 5 0 (67 ∷ []) [] none (some (letter 66)) blank) (λ c t.
      (c ≡ elim (find_supervisor platform (some (letter 66)) blank) [
        | none ↦ aborted
        | some v ↦ thrown name_taken
      ])
      × NoTrace blank 5 t)
unfolding find_supervisor ph_hashtable_search ph_hashtable_search_direct ph_hashtable_init home
create_actor-NoTrace_example =
    create_actor-NoTrace platform 1 5 0 (67 ∷ []) [] none (some (letter 66)) blank refl (inl refl)

-- an actor at the address 5, in both tables
abbrev named : Actor ℕ
named = record (actor 66 active []) { name = some (letter 98) }

abbrev entered : PhString → HashTable
entered key = ph_hashtable_insert_direct (make_room fresh_table) (some key) 1 5

entered-IsValid : (c : ℕ) → IsValid (entered (letter c))
unfolding ph_hashtable_search_direct ph_hashtable_init home
entered-IsValid c =
    (search-insert fresh_table (some (letter c)) 1 5 fresh_table-IsValid (omega arith)
      (λ e. omega arith) refl).0

abbrev inhabited : System ℕ
inhabited = record (system (λ p. if p == 5 then some named else none) []) {
  actors_by_ref = entered (letter 66);
  actors_by_name = entered (letter 98);
}

inhabited_found :
    ph_hashtable_search platform.zend_hash_func inhabited.actors_by_ref (letter 66) ≡ 5
unfolding ph_hashtable_search ph_hashtable_search_direct ph_hashtable_insert_direct make_room
    ph_hashtable_init home key_eq ph_str_eq strncmp_eq
inhabited_found = refl

remove_from_table-Removes_example :
    Returns
      (ph_actor_remove_from_table platform 1 5 inhabited)
      (λ _ t. Removes platform inhabited 5 named (letter 98) t)
remove_from_table-Removes_example =
    remove_from_table-Removes platform 0 5 named (letter 98) inhabited refl (λ e. omega arith) refl
      refl refl (entered-IsValid 66) (entered-IsValid 98) inhabited_found

abbrev object : ActorInternal
object = record {
  ref = letter 66;
  vmc = record { vm_stack = []; vm_stack_top = 0; vm_stack_end = 0 };
}

-- the actor at 5, whose object is allocated, is marked for thread 0
abbrev marked : System ℕ
marked = record inhabited {
  actors = update inhabited.actors 5 (some (record named { internal = some object }));
  actor_removals = λ i. record { values = 5 ∷ 0 ∷ []; size = 2; used = 1 };
}

-- a `__destruct` that shuts the system down
abbrev shuts_down : Ptr → Cmd ℕ (Unit {0})
shuts_down p = modify force_shutdown_actor_system

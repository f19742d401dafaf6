-- ===== src/Tests/Supervision.antt =====
-- A tree of three actors: 3 supervises 1, and 1 supervises 2.
use phactor.ActorRef.{ActorArg, ph_valid_actor_arg}
use phactor.Base.{
  ℕ, suc, ◌<◌, ◌≡◌, refl, sym, ap, ◌≢◌, subst, true, false, none, some, [], ◌∷◌, arith, ◌==◌,
  if◌then◌else◌, Ptr, null,
}
use phactor.HashTable.{
  Bucket, home, ph_hashtable_init, ph_hashtable_search, ph_hashtable_search_direct, key_eq,
}
use phactor.Messaging.{ph_actor_retrieve_from_object}
use phactor.PhString.{ph_str_create, ph_str_eq, strncmp_eq}
use phactor.Supervisor.{
  ph_actor_crash, ph_actor_terminate_workers, ph_supervisor_handle_crash,
  ph_supervisor_cycle_detection, ph_supervisor_add_worker,
}
use phactor.Supervisor.Crash.{Crashes, crash-Crashes, crash-escalates}
use phactor.Supervisor.Cycle.{cycle_detection-misses}
use phactor.Supervisor.Detection.{
  Tree, nil, plant, below, among, supervisors, supervisors_in, Represents, is_worker, is_supervisor,
  no_slot, used_slot, cycle_detection-below,
}
use phactor.Supervisor.Methods.{returned, add_worker, resolve}
use phactor.Supervisor.Methods.Lock.{add_worker-dead}
use phactor.Supervisor.Restart.{Restarts, restarted, restart_tasks, handle_crash-Restarts}
use phactor.Supervisor.Termination.{terminate_workers-terminates}
use phactor.Supervisor.Tree.{worker, IsTree, Under, IsTerminated, TerminatesTree}
use phactor.System.{minus_one, Actor, System, Supervision, one_for_one, active}
use phactor.System.Machine.{ok, blocked, out_of_fuel, Returns}
use phactor.Tests.Systems.{platform, letter, actor, system}

abbrev bucket_of : Ptr → Bucket
bucket_of p = record { key = none; value = p; hash = p; variance = 0 }

abbrev supervision : Ptr → ℕ → Supervision
supervision p tree = record {
  strategy = one_for_one;
  workers = record { values = bucket_of p ∷ []; size = 1; used = 1 };
  restart_count_streak_max = 5;
  tree_number = tree;
}

abbrev leaf : ℕ → Actor ℕ
leaf streak = record (actor 66 active []) {
  supervisor = 1;
  tree_number = 1;
  restart_count_streak = streak;
}

abbrev middle : Actor ℕ
middle = record (actor 65 active []) {
  supervisor = 3;
  tree_number = 0;
  supervision = some (supervision 2 1);
}

abbrev root : Actor ℕ
root = record (actor 67 active []) { supervision = some (supervision 1 0) }

abbrev tree : ℕ → System ℕ
tree streak =
    system
      (λ p.
        if p == 1
        then some middle
        else if p == 2
        then some (leaf streak)
        else if p == 3
        then some root
        else none)
      []

leaf-IsTree : (n streak : ℕ) → IsTree (suc n) (tree streak) 2
leaf-IsTree n streak = (leaf streak, refl, λ sv i e lt ne. absurd (ground arith))

only_worker :
    (sv : Supervision) (p : Ptr) (t i : ℕ)
    → some (supervision p t) ≡ some sv
    → i < sv.workers.size
    → worker sv i ≡ p
only_worker sv p t i e lt =
    let same : supervision p t ≡ sv = ground arith in
    let first : i ≡ 0 = omega (arith, ap (λ v. v.workers.size) same) in rw (← same, first) refl

middle-IsTree : (n streak : ℕ) → IsTree (suc (suc n)) (tree streak) 1
middle-IsTree n streak = (
  middle,
  refl,
  λ sv i e lt ne.
      subst (λ p. IsTree (suc n) (tree streak) p) (sym (only_worker sv 2 1 i e lt))
        (leaf-IsTree n streak),
)

terminate_workers-terminates_example :
    Returns (ph_actor_terminate_workers 2 1 (tree 0)) (λ _ t. TerminatesTree (tree 0) 1 t)
terminate_workers-terminates_example = terminate_workers-terminates 2 1 (tree 0) (middle-IsTree 0 0)

-- far past the limit of 5
handle_crash-Restarts_example :
    Returns
      (ph_supervisor_handle_crash platform 1 1 2 (tree 8))
      (λ _ t. Restarts platform (tree 8) 2 (leaf 8) 9 t)
handle_crash-Restarts_example =
    handle_crash-Restarts platform 1 1 2 middle (leaf 8) (supervision 2 1) (tree 8) refl refl refl
      (λ e. omega arith) (λ e. omega arith)

crash-Crashes_example :
    Returns (ph_actor_crash platform 2 2 (tree 3)) (λ _ t. Crashes platform (tree 3) 2 (leaf 3) t)
crash-Crashes_example =
    crash-Crashes platform 1 2 (leaf 3) (supervision 2 1) (tree 3) (leaf-IsTree 0 3) refl refl
      (λ e. omega arith) (λ e. omega arith) (middle, refl, refl) (λ e. omega arith)

crash-escalates_example : Returns (ph_actor_crash platform 4 2 (tree 4)) (λ _ t.
    (t.actors 1 ≡ some (restarted platform 1 middle))
    × ((q : Ptr) → q ≢ 1 → Under (tree 4) 1 q → IsTerminated (t.actors q))
    × (t.threads 0 ≡ restart_tasks middle))
crash-escalates_example =
    crash-escalates platform 2 2 (leaf 4) middle (supervision 2 1) (supervision 1 0) (tree 4)
      (leaf-IsTree 2 4) (middle-IsTree 0 4) refl refl (λ e. omega arith) (λ e. omega arith) refl
      refl refl refl (λ e. omega arith) (λ e. omega arith) (root, refl, refl) (λ e. omega arith)

-- 3 supervises 1, and 1 has become a supervisor since
abbrev fresh : Supervision
fresh = record {
  strategy = one_for_one;
  workers = ph_hashtable_init 1;
  restart_count_streak_max = 5;
  tree_number = 1;
}

abbrev promoted : Actor ℕ
promoted = record middle { supervision = some fresh }

abbrev growing : System ℕ
growing = system (λ p. if p == 1 then some promoted else if p == 3 then some root else none) []

cycle_detection-misses_example :
    (ph_supervisor_cycle_detection 2 1 3 growing ≡ ok false growing)
    × (ph_supervisor_add_worker 0 1 3 growing ≡ out_of_fuel)
cycle_detection-misses_example =
    cycle_detection-misses 0 1 3 growing promoted fresh
      (record {
        actor = root;
        supervision = supervision 1 0;
        bucket = bucket_of 1;
        at_p = refl;
        supervises = refl;
        workers = refl;
        value = refl;
      })
      (λ e. omega arith) (λ e. omega arith) (λ e. omega arith) refl refl refl (λ e. omega arith)

nobody : ph_hashtable_search platform.zend_hash_func (tree 0).actors_by_ref (letter 68) ≡ null
unfolding ph_hashtable_search ph_hashtable_search_direct ph_hashtable_init home
nobody = refl

add_worker-dead_example :
    (t : System ℕ) × (add_worker platform 9 (letter 68) (ActorArg.string (66 ∷ [])) (tree 0)
      ≡ ok (returned tt) t)
    × (ph_actor_retrieve_from_object platform (letter 66) t ≡ blocked)
add_worker-dead_example =
    add_worker-dead platform 9 (letter 68) (letter 66) (ActorArg.string (66 ∷ []))
      (true, ph_str_create (66 ∷ []) 1) (tree 0) (unfold ph_valid_actor_arg in refl) refl nobody

-- the actor 2, entered under its ref
abbrev entered : System ℕ
entered = record (tree 0) {
  actors_by_ref = record {
    values = record { key = some (letter 66); value = 2; hash = 1; variance = 0 } ∷ [];
    size = 1;
    used = 1;
  };
}

entered_found : resolve platform (false, ph_str_create (66 ∷ []) 1) entered ≡ 2
unfolding resolve ph_hashtable_search ph_hashtable_search_direct home ph_str_create key_eq ph_str_eq
    strncmp_eq
entered_found = refl

-- the tree of 3, as it stands in the system
abbrev grown : Tree
grown = Tree.supervisor minus_one (plant (Tree.supervisor 0 (plant (Tree.worker 1) nil)) nil)

grown_below : Represents (tree 0) 3 grown
grown_below = is_supervisor root (supervision 1 0) refl refl (
    used_slot (bucket_of 1) (λ e. omega arith)
      (is_supervisor middle (supervision 2 1) refl refl
        (used_slot (bucket_of 2) (λ e. omega arith) (is_worker (leaf 0) refl refl) no_slot))
      no_slot)

cycle_detection-below_example : ph_supervisor_cycle_detection 2 1 3 (tree 0) ≡ ok true (tree 0)
unfolding below among supervisors supervisors_in
cycle_detection-below_example =
    cycle_detection-below 2 1 3 middle (supervision 2 1) grown (tree 0) refl refl grown_below
      (omega arith)

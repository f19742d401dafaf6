-- ===== src/ActorSystem/Threads.antt =====
-- src/classes/actor_system.c, the threads of a system: `worker_function` for each worker, and
-- `initialise_actor_system` and `scheduler_blocking` for the main thread, as programs that take
-- turns. A round of `message_handling_loop` is one step, and so is each change of a count and each
-- test of a loop that waits; while such a test fails, its thread takes no step.
pub mod Counts
pub mod Invariant
pub mod Shutdown
pub mod SecondLife
pub mod Once
use phactor.ActorSystem.{Next, create_threads, message_handling_round}
use phactor.Base.{
  ℕ, zero, suc, ◌+◌, ◌<◌, ◌≡◌, ◌≢◌, Bool, true, false, Option, none, some, List, [], ◌==◌,
  if◌then◌else◌, Ptr, null, set,
}
use phactor.ActorSystem.Counters.{IsSteadyCode}
use phactor.Base.Words.{incr}
use phactor.System.Counters.{Steps}
use phactor.HashTable.{HashTable, Bucket, empty_bucket, at, ph_hashtable_clear}
use phactor.Messaging.{Code}
use phactor.Removal.{ph_actor_free_dummy, ph_actor_mark_for_removal, perform_actor_removals}
use phactor.System.{ActorInternal, System, Platform, update}
use phactor.System.Machine.{ok, Cmd, ◌>>=◌, ◌>>◌, pure, get, modify}

-- Where a worker stands in `worker_function`: before it is counted as prepared, in its loop, behind
-- it, counted as finished and waiting for the others, removing what is marked, and at its end.
pub data Worker : Type 0 where
  starting looping left waiting removing ended : Worker

-- Where the main thread stands: waiting in `initialise_actor_system`, in the PHP script, and in
-- `scheduler_blocking`, in the loop, behind it, before the tables are destroyed, before it is
-- counted, before the queue of a worker is destroyed, before the worker is joined, and behind; or
-- the process is killed.
pub data Main : Type 0 where
  initialising in_script scheduling draining destroying counting : Main
  emptying joining : ℕ → Main
  done killed : Main

pub record Life (M : Type 0) : Type 0 where
  pub system : System M
  pub workers : ℕ → Worker
  pub main : Main

module _ {M : Type 0} where
  -- a bucket of `ph_hashtable_clear` on `actors_by_ref`
  unfoldable pub clear_bucket : (Ptr → Cmd M (Unit {0})) → ℕ → Bucket → Cmd M (Unit {0})
  clear_bucket dtor i b = if b.value == null then pure tt else do
    dtor b.value
    modify λ s. record s {
      actors_by_ref = record s.actors_by_ref { values = set s.actors_by_ref.values i empty_bucket };
    }

  -- its loop, which reads the table as the destructor leaves it, with `rounds` buckets left
  unfoldable pub clear_by_ref : (Ptr → Cmd M (Unit {0})) → ℕ → ℕ → Cmd M (Unit {0})
  unfolding clear_bucket
  clear_by_ref dtor zero i =
      modify (λ s. record s { actors_by_ref = record s.actors_by_ref { used = 0 } })
  clear_by_ref dtor (suc rounds) i = do
    s ← get
    clear_bucket dtor i (at s.actors_by_ref.values i)
    clear_by_ref dtor rounds (i + 1)

  -- `ph_hashtable_destroy` on `actors_by_name` and then on `actors_by_ref`
  unfoldable pub destroy_tables : Platform → ℕ → Cmd M (Unit {0})
  unfolding clear_by_ref
  destroy_tables platform fuel = do
    modify λ s. record s {
      actors_by_name = record (ph_hashtable_clear ph_actor_free_dummy s.actors_by_name tt).0 {
        values = [];
      };
    }
    s ← get
    clear_by_ref (ph_actor_mark_for_removal platform fuel) s.actors_by_ref.size 0
    modify (λ t. record t { actors_by_ref = record t.actors_by_ref { values = [] } })

  -- What PHP code may do that a thread runs between two switches of its context: it may call
  -- `ActorSystem::shutdown`, and no method changes what the threads are counted by.
  pub record Ran (s t : System M) : Type 0 where
    pub initialised : t.initialised ≡ s.initialised
    pub thread_count : t.thread_count ≡ s.thread_count
    pub prepared : t.prepared_thread_count ≡ s.prepared_thread_count
    pub finished : t.finished_thread_count ≡ s.finished_thread_count

module _ {M : Type 0} (platform : Platform) (fuel : ℕ) where
  -- `worker_function` of the thread at an offset
  pub data Work (offset : ℕ) : Worker → System M → Worker → System M → Type 0 where
    prepare :
        {s : System M}
        → Work offset starting s looping
            (record s { prepared_thread_count = incr s.prepared_thread_count })
    round :
        {s t : System M} (object : Option ActorInternal) (code : Code M) (next : Next)
        → IsSteadyCode code
        → message_handling_round platform fuel offset object code s ≡ ok (some next) t
        → Work offset looping s looping t
    run : {s t : System M} → Ran s t → Work offset looping s looping t
    leave :
        {s t : System M} (object : Option ActorInternal) (code : Code M)
        → IsSteadyCode code
        → message_handling_round platform fuel offset object code s ≡ ok none t
        → Work offset looping s left t
    finish :
        {s : System M}
        → Work offset left s waiting
            (record s { finished_thread_count = incr s.finished_thread_count })
    pass :
        {s : System M}
        → s.thread_count + 1 ≡ s.finished_thread_count
        → Work offset waiting s removing s
    remove :
        {s t : System M} (destruct : Ptr → Cmd M (Unit {0}))
        → Steps destruct
        → perform_actor_removals destruct offset s ≡ ok tt t
        → Work offset removing s ended t

module _ {M : Type 0} (platform : Platform) (fuel exit_status : ℕ) where
  -- the main thread, from the first test of `initialise_actor_system`
  pub data Lead (workers : ℕ → Worker) : Main → System M → Main → System M → Type 0 where
    start :
        {s : System M}
        → s.thread_count ≡ s.prepared_thread_count
        → Lead workers initialising s in_script (record s { initialised = true })
    script : {s t : System M} → Ran s t → Lead workers in_script s in_script t
    block :
        {s : System M}
        → s.initialised ≡ true
        → exit_status ≢ 255
        → Lead workers in_script s scheduling s
    kill :
        {s : System M}
        → s.initialised ≡ true
        → exit_status ≡ 255
        → Lead workers in_script s killed s
    round :
        {s t : System M} (object : Option ActorInternal) (code : Code M) (next : Next)
        → IsSteadyCode code
        → message_handling_round platform fuel s.thread_count object code s ≡ ok (some next) t
        → Lead workers scheduling s scheduling t
    leave :
        {s t : System M} (object : Option ActorInternal) (code : Code M)
        → IsSteadyCode code
        → message_handling_round platform fuel s.thread_count object code s ≡ ok none t
        → Lead workers scheduling s draining t
    drained :
        {s : System M}
        → s.thread_count ≡ s.finished_thread_count
        → Lead workers draining s destroying s
    destroy :
        {s t : System M}
        → destroy_tables platform fuel s ≡ ok tt t
        → Lead workers destroying s counting t
    finish :
        {s : System M}
        → Lead workers counting s
            (emptying 0)
            (record s { finished_thread_count = incr s.finished_thread_count })
    empty :
        {s : System M} {i : ℕ}
        → i < s.thread_count
        → Lead workers (emptying i) s (joining i) (record s { threads = update s.threads i [] })
    join :
        {s : System M} {i : ℕ} → workers i ≡ ended → Lead workers (joining i) s (emptying (i + 1)) s
    return :
        {s : System M} {i : ℕ}
        → i ≡ s.thread_count
        → Lead workers (emptying i) s done (record s { initialised = false })
    script_on : {s t : System M} → Ran s t → Lead workers done s done t

  -- A step of one thread.
  pub data Step (l : Life M) : Life M → Type 0 where
    work :
        (offset : ℕ) {w : Worker} {t : System M}
        → offset < l.system.thread_count
        → Work platform fuel offset (l.workers offset) l.system w t
        → Step l (record { system = t; workers = update l.workers offset w; main = l.main })
    lead :
        {m : Main} {t : System M}
        → Lead l.workers l.main l.system m t
        → Step l (record { system = t; workers = l.workers; main = m })

  pub data Reach (first : Life M) : Life M → Type 0 where
    here : Reach first first
    next : {l m : Life M} → Reach first l → Step l m → Reach first m

-- `initialise_actor_system` where it has created its threads
unfoldable pub begin : {M : Type 0} → ℕ → System M → Life M
begin thread_count s = record {
  system = create_threads thread_count s;
  workers = λ _. starting;
  main = initialising;
}

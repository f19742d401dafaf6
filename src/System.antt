-- ===== src/System.antt =====
-- The state that src/classes/actor.h, src/classes/supervisor.h and src/classes/actor_system.h
-- declare: actors in memory by address, the two tables, and the threads' queues by offset. A
-- mailbox and a task queue are lists, the contents of a queue in the sense of `Queue.Fifo`. Of the locks,
-- `actors_by_ref_lock` says whether the lock of `actors_by_ref` is held; the others are taken and
-- released within one function.
pub mod Machine
pub mod Counters
use phactor.Base.{
  ℕ, ◌-◌, ◌^◌, Bool, true, false, Option, none, some, List, [], ◌∷◌, ◌++◌, ◌==◌, if◌then◌else◌, Ptr,
  null,
}
use phactor.Context.{VmContext}
use phactor.HashTable.{HashTable}
use phactor.PhString.{PhString}
use phactor.Task.{Task, Message}
use phactor.Vector.{Vector}

pub data ActorState : Type 0 where
  spawning idle active terminated crashed restarting shutting_down : ActorState

pub data SupervisionStrategy : Type 0 where
  one_for_one : SupervisionStrategy

pub record Supervision : Type 0 where
  pub strategy : SupervisionStrategy
  pub workers : HashTable
  pub restart_count_streak_max : ℕ
  pub tree_number : ℕ

-- the actor's PHP object, with the VM stack of its context
pub record ActorInternal : Type 0 where
  pub ref : PhString
  pub vmc : VmContext

-- `tree_number` is an `int`: its 32-bit pattern
pub record Actor (M : Type 0) : Type 0 where
  pub name : Option PhString
  pub ref : PhString
  pub mailbox : List (Message M)
  pub class_name : PhString
  pub ctor_args : List M
  pub thread_offset : ℕ
  pub state : ActorState
  pub restart_count_streak : ℕ
  pub tree_number : ℕ
  pub supervisor : Ptr
  pub supervision : Option Supervision
  pub internal : Option ActorInternal

abbrev pub minus_one : ℕ
minus_one = 2 ^ 32 - 1

-- `threads` is the task queue of each worker thread by its offset; the main thread's stands at
-- `thread_count`. An address of `actors` that holds no actor is `none`.
pub record System (M : Type 0) : Type 0 where
  pub initialised : Bool
  pub shutdown : Bool
  pub actors_by_ref_lock : Bool
  pub actors_by_ref : HashTable
  pub actors_by_name : HashTable
  pub thread_count : ℕ
  pub prepared_thread_count : ℕ
  pub finished_thread_count : ℕ
  pub threads : ℕ → List (Task M)
  pub actor_removals : ℕ → Vector
  pub actors : Ptr → Option (Actor M)
  pub global_tree_number : ℕ
  pub global_actor_id : ℕ

-- What PHP provides: its string hash, and the offset of the values in a page of a VM stack.
pub record Platform : Type 0 where
  pub zend_hash_func : PhString → ℕ
  pub vm_stack_header : ℕ

abbrev pub is_crashed : ActorState → Bool
is_crashed crashed = true
is_crashed _ = false

abbrev pub is_idle : ActorState → Bool
is_idle idle = true
is_idle _ = false

abbrev pub is_active : ActorState → Bool
is_active active = true
is_active _ = false

abbrev pub is_restarting : ActorState → Bool
is_restarting restarting = true
is_restarting _ = false

-- `state == PH_ACTOR_SPAWNING || state == PH_ACTOR_RESTARTING`
abbrev pub is_constructing : ActorState → Bool
is_constructing spawning = true
is_constructing restarting = true
is_constructing _ = false

abbrev pub update : {A : Type 0} → (ℕ → A) → ℕ → A → ℕ → A
update f i v j = if j == i then v else f j

module _ {M : Type 0} where
  abbrev pub put_actor : Ptr → Actor M → System M → System M
  put_actor p a s = record s { actors = update s.actors p (some a) }

  -- `ph_queue_push(&thread->tasks, task)`
  abbrev pub push_task : ℕ → Task M → System M → System M
  push_task offset task s = record s {
    threads = update s.threads offset (s.threads offset ++ task ∷ []);
  }

-- ===== src/ActorRef.antt =====
-- src/classes/actor_ref.c, and `ph_valid_actor_arg` of src/classes/actor.c: references to actors and
-- the creation of an actor. A byte string of PHP is the list of its bytes.
pub mod Names
pub mod Register
use phactor.Base.{
  ℕ, zero, suc, ◌+◌, ◌/◌, ◌%◌, Bool, true, false, Option, none, some, List, [], ◌∷◌, ◌++◌, ◌==◌,
  if◌then◌else◌, Ptr, null, length, replicate,
}
use phactor.Base.Words.{incr}
use phactor.HashTable.{ph_hashtable_insert, ph_hashtable_search}
use phactor.Messaging.{ph_actor_create}
use phactor.PhString.{PhString, ph_str_create}
use phactor.Removal.{ph_actor_free}
use phactor.Supervisor.{ph_supervisor_add_worker}
use phactor.System.{Actor, System, Platform, push_task}
use phactor.System.Machine.{
  Cmd, fault, ◌>>=◌, ◌>>◌, pure, get, modify, load, store, lock_actors_by_ref, unlock_actors_by_ref,
}
use phactor.Task.{ph_task_create_new_actor}
use phactor.Value.{PhpTypes, Zval, Entry, Php, ph_entry_convert_from_zval}

abbrev pub actor_ref_len : ℕ
actor_ref_len = 33

-- `%0<width>d` of a number of at most `width` digits
unfoldable pub pad_digits : ℕ → ℕ → List ℕ
pad_digits zero n = []
pad_digits (suc width) n = pad_digits width (n / 10) ++ (b'0' + n % 10) ∷ []

-- what `ph_actor_ref_set` prints for an id: `%022d` of 0, `%010d` of the id, and the final NUL; an
-- id is below 2 ^ 31
unfoldable pub ref_bytes : ℕ → List ℕ
unfolding pad_digits
ref_bytes id = pad_digits 22 0 ++ (pad_digits 10 id ++ 0 ∷ [])

unfoldable pub actor_ref_string : ℕ → PhString
unfolding ref_bytes
actor_ref_string id = record { len = actor_ref_len; val = ref_bytes id }

unfoldable pub ph_actor_ref_set : {M : Type 0} → Cmd M PhString
unfolding actor_ref_string
ph_actor_ref_set = do
  s ← get
  let id = incr s.global_actor_id
  modify (λ t. record t { global_actor_id = id })
  pure (actor_ref_string id)

-- a `string`, an object of the class `ActorRef` with its private `ref`, or anything else
pub data ActorArg : Type 0 where
  string actor_ref : List ℕ → ActorArg
  other : ActorArg

-- whether the recipient is meant by name, and the name or the ref; `none` is the result 0
unfoldable pub ph_valid_actor_arg : ActorArg → Option (Bool × PhString)
ph_valid_actor_arg (string s) = some (true, ph_str_create s (length s))
ph_valid_actor_arg (actor_ref r) = some (false, ph_str_create r (length r))
ph_valid_actor_arg other = none

-- The exceptions, and for an argument that cannot be serialised its position from 1.
pub data Error : Type 0 where
  no_actor_system name_taken : Error
  argument_not_serialised : ℕ → Error

-- `aborted`: the supervisor has died, and the call returns silently.
pub data Creation : Type 0 where
  created : PhString → Creation
  aborted : Creation
  thrown : Error → Creation

pub data Arguments (T : PhpTypes) : Type 0 where
  converted : List (Entry T) → Arguments T
  failed : ℕ → Arguments T

module _ {T : PhpTypes} where
  add_argument : Entry T → Arguments T → Arguments T
  add_argument e (converted es) = converted (e ∷ es)
  add_argument e (failed i) = failed i

  convert_argument : ℕ → Option (Entry T) → Arguments T → Arguments T
  unfolding add_argument
  convert_argument i none rest = failed (i + 1)
  convert_argument i (some e) rest = add_argument e rest

  -- the loop over the constructor's arguments, from position `i`
  unfoldable pub convert_arguments : Php T → ℕ → List (Zval T) → Arguments T
  unfolding convert_argument
  convert_arguments php i [] = converted []
  convert_arguments php i (v ∷ vs) =
      convert_argument i (ph_entry_convert_from_zval php v) (convert_arguments php (i + 1) vs)

abbrev pub name_string : Option (List ℕ) → Option PhString
name_string none = none
name_string (some bytes) = some (ph_str_create bytes (length bytes))

module _ {M : Type 0} (platform : Platform) where
  open platform use {zend_hash_func}

  -- NULL where no supervisor is asked for, `none` where it is not in the table
  unfoldable pub find_supervisor : Option PhString → System M → Option Ptr
  find_supervisor none s = some null
  find_supervisor (some ref) s =
      let p = ph_hashtable_search zend_hash_func s.actors_by_ref ref in
      if p == null then none else some p

  -- whether the name is free
  unfoldable pub name_is_taken : Option PhString → System M → Bool
  name_is_taken none s = false
  name_is_taken (some name) s =
      if ph_hashtable_search zend_hash_func s.actors_by_name name == null then false else true

  insert_by_name : Option PhString → Ptr → System M → System M
  insert_by_name none p s = s
  insert_by_name (some name) p s = record s {
    actors_by_name = ph_hashtable_insert zend_hash_func s.actors_by_name name p;
  }

  unfoldable pub insert_by_ref : PhString → Ptr → System M → System M
  insert_by_ref ref p s = record s {
    actors_by_ref = ph_hashtable_insert zend_hash_func s.actors_by_ref ref p;
  }

  -- what follows the lookups, with the lock held
  unfoldable pub register_actor : ℕ → Ptr → Ptr → Actor M → ℕ → Cmd M Creation
  unfolding insert_by_name insert_by_ref
  register_actor fuel supervisor new_actor a thread_offset = do
    modify (insert_by_name a.name new_actor)
    if supervisor == null then pure tt else ph_supervisor_add_worker fuel supervisor new_actor
    modify (insert_by_ref a.ref new_actor)
    unlock_actors_by_ref
    b ← load new_actor
    store new_actor (record b { thread_offset = thread_offset })
    modify (
        push_task thread_offset (
          ph_task_create_new_actor (ph_str_create a.ref.val a.ref.len)
            (ph_str_create a.class_name.val a.class_name.len)))
    pure (created a.ref)

  -- The new actor has no object yet.
  abandon_actor : Ptr → Creation → Cmd M Creation
  abandon_actor new_actor result = do
    unlock_actors_by_ref
    ph_actor_free (λ _. λ _. fault) new_actor
    pure result

  unfoldable pub enter_actor : ℕ → Ptr → Actor M → ℕ → Option Ptr → Bool → Cmd M Creation
  unfolding register_actor abandon_actor
  enter_actor fuel new_actor a thread_offset none taken = abandon_actor new_actor aborted
  enter_actor fuel new_actor a thread_offset (some supervisor) true =
      abandon_actor new_actor (thrown name_taken)
  enter_actor fuel new_actor a thread_offset (some supervisor) false =
      register_actor fuel supervisor new_actor a thread_offset

  -- `ph_actor_ref_create` from the converted arguments on. `new_actor` is what `calloc` returns and
  -- `thread_offset` what `php_mt_rand_range` returns.
  unfoldable pub create_actor :
      ℕ → Ptr → ℕ → List ℕ → List M → Option (List ℕ) → Option PhString → Cmd M Creation
  unfolding enter_actor
  create_actor fuel new_actor thread_offset actor_class args actor_name supervisor_ref = do
    ref ← ph_actor_ref_set
    let a =
        ph_actor_create (name_string actor_name) ref
          (ph_str_create actor_class (length actor_class)) args
    store new_actor a
    lock_actors_by_ref
    s ← get
    enter_actor fuel new_actor a thread_offset (find_supervisor supervisor_ref s)
        (name_is_taken a.name s)

module _ {T : PhpTypes} (platform : Platform) (php : Php T) where
  unfoldable pub with_arguments :
      ℕ
      → Ptr
      → ℕ
      → List ℕ
      → Arguments T
      → Option (List ℕ)
      → Option PhString
      → Cmd (Entry T) Creation
  unfolding create_actor
  with_arguments fuel new_actor thread_offset actor_class (failed i) actor_name supervisor_ref =
      pure (thrown (argument_not_serialised i))
  with_arguments fuel new_actor thread_offset actor_class (converted es) actor_name supervisor_ref =
      create_actor platform fuel new_actor thread_offset actor_class es actor_name supervisor_ref

  -- `system_exists` is `PHACTOR_G(actor_system) != NULL`
  unfoldable pub ph_actor_ref_create :
      ℕ
      → Ptr
      → ℕ
      → Bool
      → List ℕ
      → List (Zval T)
      → Option (List ℕ)
      → Option PhString
      → Cmd (Entry T) Creation
  unfolding with_arguments convert_arguments
  ph_actor_ref_create fuel new_actor thread_offset false actor_class args actor_name
        supervisor_ref =
      pure (thrown no_actor_system)
  ph_actor_ref_create fuel new_actor thread_offset true actor_class args actor_name supervisor_ref =
      with_arguments fuel new_actor thread_offset actor_class (convert_arguments php 0 args)
        actor_name supervisor_ref

-- ===== src/ActorRef/Register.antt =====
-- The creation of an actor, by `create_actor`: what it enters into the system, and what a refused
-- one leaves there.
use phactor.ActorRef.{
  created, aborted, thrown, name_taken, find_supervisor, name_is_taken, ph_actor_ref_set,
  actor_ref_string, register_actor, abandon_actor, enter_actor, create_actor, insert_by_name,
  insert_by_ref, name_string,
}
use phactor.Base.{
  ℕ, ◌^◌, ◌<◌, ◌≡◌, refl, ◌∙◌, ◌≢◌, ◌⊎◌, inl, inr, true, false, Option, none, some, List, [], ◌∷◌,
  ◌++◌, arith, ◌==◌, if◌then◌else◌, Ptr, null, length, Option-cases,
}
use phactor.Base.Words.{incr}
use phactor.HashTable.{
  HashTable, key_eq, ph_hashtable_search_direct, ph_hashtable_search, ph_hashtable_insert,
}
use phactor.HashTable.Laws.{search-insert, same_key}
use phactor.HashTable.Valid.{IsValid}
use phactor.Messaging.{ph_actor_create}
use phactor.PhString.{PhString, ph_str_create}
use phactor.PhString.Equality.{ph_str_eq_refl}
use phactor.Removal.{ph_actor_free}
use phactor.System.{Actor, System, Platform, update, put_actor}
use phactor.System.Machine.{Returns}
use phactor.Task.{ph_task_create_new_actor}

-- a table with room, in which the key is not
abbrev pub Vacant : Platform → HashTable → PhString → Type 0
Vacant platform ht key =
    IsValid ht × (ht.size < 2 ^ 30) × (ph_hashtable_search platform.zend_hash_func ht key ≡ null)

same_key_refl : (key : PhString) (hash : ℕ) → same_key (some key) hash (some key) hash ≡ true
unfolding key_eq
same_key_refl key hash = ground (arith, ph_str_eq_refl key)

module _ {M : Type 0} where
  -- the ref that the next actor is given
  abbrev pub next_ref : System M → PhString
  next_ref s = actor_ref_string (incr s.global_actor_id)

  -- Nothing of the actor at `p` is left: the counter of refs has moved on.
  pub record NoTrace (s : System M) (p : Ptr) (t : System M) : Type 0 where
    pub free : t.actors_by_ref_lock ≡ false
    pub freed : t.actors p ≡ none
    pub others : (q : Ptr) → q ≢ p → t.actors q ≡ s.actors q
    pub queues : t.threads ≡ s.threads
    pub by_ref : t.actors_by_ref ≡ s.actors_by_ref
    pub by_name : t.actors_by_name ≡ s.actors_by_name
    pub count : t.global_actor_id ≡ incr s.global_actor_id

module _ {M : Type 0} (platform : Platform) where
  open platform use {zend_hash_func}

  find_supervisor-tables :
      (r : Option PhString) (s t : System M)
      → t.actors_by_ref ≡ s.actors_by_ref
      → find_supervisor platform r t ≡ find_supervisor platform r s
  unfolding find_supervisor
  find_supervisor-tables none s t e = refl
  find_supervisor-tables (some r) s t e = rw e refl

  name_is_taken-tables :
      (n : Option PhString) (s t : System M)
      → t.actors_by_name ≡ s.actors_by_name
      → name_is_taken platform n t ≡ name_is_taken platform n s
  unfolding name_is_taken
  name_is_taken-tables none s t e = refl
  name_is_taken-tables (some n) s t e = rw e refl

  module _ (fuel : ℕ) (p : Ptr) (thread_offset : ℕ) (class : List ℕ) (args : List M)
      (name : Option (List ℕ)) (supervisor_ref : Option PhString) (s : System M) where
    abbrev fresh_actor : Actor M
    fresh_actor =
        ph_actor_create (name_string name) (next_ref s) (ph_str_create class (length class)) args

    -- the state in which `create_actor` looks for the supervisor and the name
    abbrev locked : System M
    locked = record (put_actor p fresh_actor s) {
      global_actor_id = incr s.global_actor_id;
      actors_by_ref_lock = true;
    }

    abbrev abandoned : System M
    abandoned = record s {
      actors = update (update s.actors p (some fresh_actor)) p none;
      global_actor_id = incr s.global_actor_id;
      actors_by_ref_lock = false;
    }

    no_trace : NoTrace s p abandoned
    no_trace = record {
      free = refl;
      freed = ground arith;
      others = λ q n. ground arith;
      queues = refl;
      by_ref = refl;
      by_name = refl;
      count = refl;
    }

    -- Where the supervisor that is asked for is not in the table, or the actor has a name that
    -- is taken, the creation ends silently or with the error, for an actor with a name or
    -- without. The new actor is freed, the tables, the queues and every other actor are as
    -- before, the counter of refs is one higher, and the lock is free again.
    pub create_actor-NoTrace :
        s.actors_by_ref_lock ≡ false
        → (find_supervisor platform supervisor_ref s ≡ none)
          ⊎ (name_is_taken platform (name_string name) s ≡ true)
        → Returns
            (create_actor platform fuel p thread_offset class args name supervisor_ref s)
            (λ c t.
              (c ≡ elim (find_supervisor platform supervisor_ref s) [
                | none ↦ aborted
                | some v ↦ thrown name_taken
              ])
              × NoTrace s p t)
    unfolding create_actor enter_actor abandon_actor ph_actor_free ph_actor_ref_set ph_actor_create
    create_actor-NoTrace unlocked why =
        let here : (p == p) ≡ true = ground arith in
        let found = find_supervisor-tables supervisor_ref s locked refl in
        let taken = name_is_taken-tables (name_string name) s locked refl in
        elim (Option-cases (find_supervisor platform supervisor_ref s)) [
          | inl e ↦
              (aborted, abandoned, rw (unlocked, found, taken, e, here) refl, (rw e refl, no_trace))
          | inr (v, e) ↦
              let yes : name_is_taken platform (name_string name) s ≡ true = ground arith in
              (
                thrown name_taken,
                abandoned,
                rw (unlocked, found, taken, e, yes, here) refl,
                (rw e refl, no_trace),
              )
        ]

  -- What the creation of an actor without a supervisor enters into the system, at the address `p`.
  pub record Enters (s : System M) (p : Ptr) (thread_offset : ℕ) (a : Actor M) (t : System M)
      : Type 0 where
    pub free : t.actors_by_ref_lock ≡ false
    pub actor : t.actors p ≡ some (record a { thread_offset = thread_offset })
    pub others : (q : Ptr) → q ≢ p → t.actors q ≡ s.actors q
    pub queue :
        t.threads thread_offset
        ≡ s.threads thread_offset
          ++ ph_task_create_new_actor
              (ph_str_create a.ref.val a.ref.len)
              (ph_str_create a.class_name.val a.class_name.len)
            ∷ []
    pub by_ref :
        (key : PhString) (hash : ℕ)
        → ph_hashtable_search_direct t.actors_by_ref (some key) hash ≡ (
            if same_key (some a.ref) (zend_hash_func a.ref) (some key) hash
            then p
            else ph_hashtable_search_direct s.actors_by_ref (some key) hash)
    pub valid : IsValid t.actors_by_ref × IsValid t.actors_by_name

  module _ (fuel : ℕ) (p : Ptr) (thread_offset : ℕ) (class : List ℕ) (args : List M) (name : List ℕ)
      (s : System M) where
    -- An actor with a name and without a supervisor, whose name and ref are not in the tables,
    -- which have room, is created: its ref and its name lead to it, every other ref leads where
    -- it led, the tables are well-formed, its thread has the task of starting it, every other
    -- actor is as before, and the lock is free again.
    pub create_actor-Enters :
        s.actors_by_ref_lock ≡ false
        → p ≢ null
        → Vacant platform s.actors_by_ref (next_ref s)
        → Vacant platform s.actors_by_name (ph_str_create name (length name))
        → Returns (create_actor platform fuel p thread_offset class args (some name) none s) (λ c t.
          (c ≡ created (next_ref s))
          × Enters s p thread_offset
              (ph_actor_create
                (some (ph_str_create name (length name)))
                (next_ref s)
                (ph_str_create class (length class))
                args)
              t
          × (ph_hashtable_search zend_hash_func t.actors_by_name (ph_str_create name (length name))
              ≡ p))
    unfolding create_actor enter_actor register_actor find_supervisor name_is_taken ph_actor_ref_set
        insert_by_name insert_by_ref ph_actor_create ph_hashtable_search ph_hashtable_insert
    create_actor-Enters unlocked ne (v, small, absent) (v', small', absent') =
        let here : (p == p) ≡ true = ground arith in
        let n = ph_str_create name (length name) in
        let r = next_ref s in
        let (valid, found) =
          search-insert s.actors_by_ref (some r) (zend_hash_func r) p v small ne absent in
        let (valid', found') =
          search-insert s.actors_by_name (some n) (zend_hash_func n) p v' small' ne absent' in
        let a = ph_actor_create (some n) r (ph_str_create class (length class)) args in
        (
          created r,
          record s {
            actors =
                update (update s.actors p (some a)) p
                  (some (record a { thread_offset = thread_offset }));
            global_actor_id = incr s.global_actor_id;
            actors_by_ref_lock = false;
            actors_by_name = ph_hashtable_insert zend_hash_func s.actors_by_name n p;
            actors_by_ref = ph_hashtable_insert zend_hash_func s.actors_by_ref r p;
            threads = update s.threads thread_offset (
                s.threads thread_offset
                ++ ph_task_create_new_actor (ph_str_create r.val r.len)
                    (ph_str_create a.class_name.val a.class_name.len)
                  ∷ []);
          },
          rw (unlocked, absent', here) refl,
          (
            refl,
            record {
              free = refl;
              actor = ground arith;
              others = λ q far. ground arith;
              queue = ground arith;
              by_ref = λ key hash. found (some key) hash;
              valid = (valid, valid');
            },
            found' (some n) (zend_hash_func n) ∙ rw (same_key_refl n (zend_hash_func n)) refl,
          ),
        )

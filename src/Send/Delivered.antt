-- ===== src/Send/Delivered.antt =====
-- A message from `Actor::send` to the recipient's mailbox.
use phactor.ActorRef.{ActorArg, ph_valid_actor_arg}
use phactor.Base.{
  ◌≡◌, refl, ◌≢◌, Bool, true, false, Option, none, some, List, [], ◌∷◌, ◌++◌, arith, ◌==◌, Ptr,
  null, length, Bool-cases, inl, inr,
}
use phactor.HashTable.{ph_hashtable_search}
use phactor.Messaging.{
  send_message, send_local_message, wake, ph_task_create_resume_actor,
  ph_actor_retrieve_from_object,
}
use phactor.PhString.{PhString, ph_str_create}
use phactor.Send.{sent, queue_for_main, send_from, send_to, send}
use phactor.Supervisor.Methods.{resolve}
use phactor.System.{Actor, ActorInternal, System, Platform, is_idle, update}
use phactor.System.Machine.{ok, pure, Returns}
use phactor.Task.{
  SendMessageTask, send_message as send_task, Message, resume_task, ph_msg_create,
  ph_task_create_send_message,
}
use phactor.Value.{PhpTypes, Zval, Entry, Php, ph_entry_convert_from_zval}

module _ {M : Type 0} where
  -- the mailbox of the actor at `p`
  abbrev pub mailbox_of : Option (Actor M) → List (Message M)
  mailbox_of none = []
  mailbox_of (some a) = a.mailbox

  resume_made :
      (o : Option ActorInternal) (i : ActorInternal)
      → o ≡ some i
      → ph_task_create_resume_actor o ≡ pure {M = M} (resume_task i.ref)
  unfolding ph_task_create_resume_actor
  resume_made o i e = rw e refl

  local-mailbox :
      (p : Ptr) (a : Actor M) (task : SendMessageTask M) (s : System M)
      → s.actors p ≡ some a
      → (is_idle a.state ≡ true → (i : ActorInternal) × (a.internal ≡ some i))
      → Returns (send_local_message p task s) (λ _ t.
        (mailbox_of (t.actors p) ≡ a.mailbox ++ ph_msg_create task.from_actor_ref task.message ∷ [])
        × (t.actors_by_ref_lock ≡ s.actors_by_ref_lock))
  unfolding send_local_message wake
  local-mailbox p a task s h has =
      let here : (p == p) ≡ true = ground arith in
      let m = ph_msg_create task.from_actor_ref task.message in
      elim (Bool-cases (is_idle a.state)) [
        | inl i ↦ elim (Bool-cases (length (a.mailbox ++ m ∷ []) == 1)) [
          | inl one ↦
              let (j, o) = has i in
              rw (h, i, one, here, resume_made a.internal j o) (tt, _, refl, (rw here refl, refl))
          | inr more ↦ rw (h, i, more) (tt, _, refl, (rw here refl, refl))
        ]
        | inr n ↦ rw (h, n) (tt, _, refl, (rw here refl, refl))
      ]

module _ {T : PhpTypes} (platform : Platform) (php : Php T) where
  open platform use {zend_hash_func}

  abbrev task_of : ActorInternal → PhString → Bool → Entry T → SendMessageTask (Entry T)
  task_of i n using e = record {
    from_actor_ref = ph_str_create i.ref.val i.ref.len;
    to_actor_name = n;
    message = e;
    using_actor_name = using;
  }

  task_made :
      (i : ActorInternal) (n : PhString) (using : Bool) (message : Zval T) (e : Entry T)
      → ph_entry_convert_from_zval php message ≡ some e
      → ph_task_create_send_message php (ph_str_create i.ref.val i.ref.len) n using message
        ≡ some (send_task (task_of i n using e))
  unfolding ph_task_create_send_message
  task_made i n using message e h = rw h refl

  delivered :
      (task : SendMessageTask (Entry T)) (p : Ptr) (b : Actor (Entry T)) (s : System (Entry T))
      → s.actors_by_ref_lock ≡ false
      → resolve platform (task.using_actor_name, task.to_actor_name) s ≡ p
      → p ≢ null
      → s.actors p ≡ some b
      → (is_idle b.state ≡ true → (j : ActorInternal) × (b.internal ≡ some j))
      → Returns (send_message platform task s) (λ _ u.
        (mailbox_of (u.actors p) ≡ b.mailbox ++ ph_msg_create task.from_actor_ref task.message ∷ [])
        × (u.actors_by_ref_lock ≡ false))
  unfolding send_message resolve
  delivered task p b s free found ne h has =
      let far : (p == null) ≡ false = ground arith in
      let (_, u, run, (got, _)) =
        local-mailbox p b task (record s { actors_by_ref_lock = true }) h has in
      rw (free, found, far, run) (tt, _, refl, (got, refl))

  -- `Actor::send` of a value that can be converted, by an actor whose object is allocated, to
  -- one that the tables lead to and that has its object if it waits, gives the main thread a
  -- task. When the main thread carries it out in the state that the call leaves, the
  -- recipient's mailbox ends with the converted value and the sender's ref. The lock, if it was
  -- free, is free again.
  pub send-send_message :
      (this : PhString) (to : ActorArg) (using : Bool) (n : PhString) (message : Zval T)
      (e : Entry T)
      → (f p : Ptr) (a b : Actor (Entry T)) (i : ActorInternal) (s : System (Entry T))
      → s.actors_by_ref_lock ≡ false
      → ph_valid_actor_arg to ≡ some (using, n)
      → ph_hashtable_search zend_hash_func s.actors_by_ref this ≡ f
      → f ≢ null
      → s.actors f ≡ some a
      → a.internal ≡ some i
      → ph_entry_convert_from_zval php message ≡ some e
      → resolve platform (using, n) s ≡ p
      → p ≢ null
      → s.actors p ≡ some b
      → (is_idle b.state ≡ true → (j : ActorInternal) × (b.internal ≡ some j))
      → (task : SendMessageTask (Entry T)) × (t : System (Entry T)) × (send platform php this to
            message s
          ≡ ok sent t)
        × (t.threads s.thread_count ≡ s.threads s.thread_count ++ send_task task ∷ [])
        × Returns (send_message platform task t) (λ _ u.
          (mailbox_of (u.actors p)
            ≡ b.mailbox ++ ph_msg_create (ph_str_create i.ref.val i.ref.len) e ∷ [])
          × (u.actors_by_ref_lock ≡ false))
  unfolding send send_to send_from queue_for_main ph_actor_retrieve_from_object resolve
  send-send_message this to using n message e f p a b i s free valid sender ne at_f internal
        converted found ne' at_p has =
      let far : (f == null) ≡ false = ground arith in
      let task = task_of i n using e in
      let t = record s {
        threads = update s.threads s.thread_count (s.threads s.thread_count ++ send_task task ∷ []);
        actors_by_ref_lock = false;
      } in
      (
        task,
        t,
        rw (valid, free, sender, far, at_f, internal, task_made i n using message e converted) refl,
        ground arith,
        delivered task p b t refl found ne' at_p has,
      )

-- ===== src/Messaging/Delivery.antt =====
-- The steps of an actor's mailbox, in src/classes/actor.c and src/classes/actor_system.c, and
-- sequences of them, with respect to `WakeUp.IsAwake`.
use phactor.Base.{
  ℕ, ◌+◌, ◌≡◌, refl, sym, ap, ◌∙◌, true, false, Option, none, some, List, [], ◌∷◌, ◌++◌, arith,
  ◌==◌, if◌then◌else◌, subst, inl, inr, Ptr, length, length-append, Bool-cases,
}
use phactor.Messaging.{
  Blocking, throws, returns, waits, wake, enter, ph_task_create_resume_actor, take_message,
  send_local_message, receive_block, receive_block_resumed, process_message,
}
use phactor.PhString.{PhString, ph_str_eq}
use phactor.PhString.Equality.{ph_str_eq_refl}
use phactor.System.{
  Actor, ActorInternal, ActorState, System, put_actor, idle, active, is_idle, is_active,
  is_constructing, update,
}
use phactor.System.Machine.{Run, ok, and_then, load_from, pure, Returns}
use phactor.Task.{Message, SendMessageTask, Task, resume_actor, resume_task, ph_msg_create}
use phactor.Messaging.WakeUp.{
  is_resume, resumes_of, runs, pending, IsAwake, changed, wakes, stays, eq_congr,
}

active-not_idle : (st : ActorState) → is_active st ≡ true → is_idle st ≡ false
active-not_idle idle h = cc
active-not_idle st h = refl

constructing-not_idle : (st : ActorState) → is_constructing st ≡ true → is_idle st ≡ false
constructing-not_idle idle h = cc
constructing-not_idle st h = refl

idle-runs : (st : ActorState) → is_idle st ≡ true → runs st ≡ true
idle-runs idle h = refl
idle-runs st h = cc

active-runs : (st : ActorState) → is_active st ≡ true → runs st ≡ true
active-runs active h = refl
active-runs st h = cc

module _ {M : Type 0} where
  task_made :
      (a : Actor M) (i : ActorInternal)
      → a.internal ≡ some i
      → i.ref ≡ a.ref
      → ph_task_create_resume_actor a.internal ≡ pure {M = M} (resume_task a.ref)
  unfolding ph_task_create_resume_actor
  task_made a i o e = rw o (rw e refl)

  -- Where no wake-up is lost, sending a message to an actor returns, and again no wake-up is
  -- lost.
  pub send-IsAwake :
      (s : System M) (p : Ptr) (a : Actor M) (task : SendMessageTask M)
      → IsAwake s
      → s.actors p ≡ some a
      → Returns (send_local_message p task s) (λ _ t. IsAwake t)
  unfolding send_local_message wake pending
  send-IsAwake s p a task w at =
      let b = record a {
        mailbox = a.mailbox ++ ph_msg_create task.from_actor_ref task.message ∷ [];
      } in
      let one_more =
        length-append a.mailbox (ph_msg_create task.from_actor_ref task.message ∷ []) in
      let here : (p == p) ≡ true = ground arith in
      elim (Bool-cases (is_idle a.state)) [
        | inl i ↦ elim (Bool-cases (length b.mailbox == 1)) [
          | inl one ↦
              let (j, o) = w.objects p a at (idle-runs a.state i) in
              rw (at, i, one, here, task_made a j o (w.refs p a j at o))
                (
                  tt,
                  _,
                  refl,
                  wakes s _ p a b w at refl refl refl refl (w.objects p a at) refl (ground arith)
                      (ground arith),
                )
          | inr more ↦
              rw (at, i, more)
                (
                  tt,
                  _,
                  refl,
                  stays s _ p a b w at refl refl refl refl (w.objects p a at) refl (ground arith),
                )
        ]
        | inr n ↦
            rw (at, n)
              (
                tt,
                _,
                refl,
                stays s _ p a b w at refl refl refl refl (w.objects p a at) refl (ground arith),
              )
      ]

  -- what `receive_block` does, in each state of the actor
  abbrev pub blocking_of : Actor M → Blocking
  blocking_of a =
      if is_constructing a.state then throws else if is_active a.state then waits else returns

  -- Where no wake-up is lost, `receive_block`, up to where it gives up the thread, returns for
  -- every state of the actor: it throws in a constructor, waits in an active actor, and returns
  -- at once in any other; and again no wake-up is lost.
  pub block-IsAwake :
      (s : System M) (p : Ptr) (a : Actor M)
      → IsAwake s
      → s.actors p ≡ some a
      → Returns (receive_block p s) (λ b t. (b ≡ blocking_of a) × IsAwake t)
  unfolding receive_block wake pending
  block-IsAwake s p a w at =
      let b = record a { state = idle; restart_count_streak = 0 } in
      let here : (p == p) ≡ true = ground arith in
      elim (Bool-cases (is_constructing a.state)) [
        | inl c ↦ rw (at, c) (throws, s, refl, (refl, w))
        | inr nc ↦ elim (Bool-cases (is_active a.state)) [
          | inr na ↦ rw (at, nc, na) (returns, s, refl, (refl, w))
          | inl act ↦
              let quiet = active-not_idle a.state act in
              elim (Bool-cases (length a.mailbox == 0)) [
                | inl none_left ↦
                    rw (at, nc, act, none_left)
                      (
                        waits,
                        _,
                        refl,
                        (
                          refl,
                          stays s _ p a b w at refl refl refl refl
                              (λ _. w.objects p a at (active-runs a.state act)) refl (ground arith),
                        ),
                      )
                | inr some_left ↦
                    let (j, o) = w.objects p a at (active-runs a.state act) in
                    rw (at, nc, act, some_left, here, task_made a j o (w.refs p a j at o))
                      (
                        waits,
                        _,
                        refl,
                        (
                          refl,
                          wakes s _ p a b w at refl refl refl refl
                              (λ _. w.objects p a at (active-runs a.state act)) refl (ground arith)
                              (ground arith),
                        ),
                      )
              ]
        ]
      ]

  -- the system with the first task of a queue taken
  abbrev pub taken : ℕ → List (Task M) → System M → System M
  taken i tasks s = record s { threads = update s.threads i tasks }

  -- Where no wake-up is lost, an actor for which a resume task is at the front of its thread's
  -- queue has a message: given the thread back, it takes the first message of its mailbox
  -- without a fault, becomes active with the rest, and again no wake-up is lost.
  pub resume-IsAwake :
      (s : System M) (p : Ptr) (a : Actor M) (r : PhString) (tasks : List (Task M))
      → IsAwake s
      → s.actors p ≡ some a
      → ph_str_eq r a.ref ≡ true
      → s.threads a.thread_offset ≡ resume_actor r ∷ tasks
      → (m : Message M) × (rest : List (Message M)) × (a.mailbox ≡ m ∷ rest)
        × Returns (receive_block_resumed p (taken a.thread_offset tasks s)) (λ m' t.
          (m' ≡ m) × (t.actors p ≡ some (record a { mailbox = rest; state = active })) × IsAwake t)
  unfolding receive_block_resumed take_message pending resumes_of is_resume
  resume-IsAwake s p a r tasks w at eq front = go a.mailbox refl
    where
      here : (p == p) ≡ true
      here = ground arith

      waits_for : (if ph_str_eq r a.ref then 1 else 0) + resumes_of a.ref tasks ≡ pending a
      waits_for = sym (ap (resumes_of a.ref) front) ∙ w.awake p a at

      waits_idle : is_idle a.state ≡ true
      waits_idle = ground (arith, waits_for, ph_str_eq_refl a.ref, Bool-cases (is_idle a.state))

      apart_congr : (r' : PhString) → ph_str_eq a.ref r' ≡ false → ph_str_eq r r' ≡ false
      apart_congr r' n = eq_congr r a.ref r' eq ∙ n

      go :
          (mailbox : List (Message M))
          → a.mailbox ≡ mailbox
          → (m : Message M) × (rest : List (Message M)) × (a.mailbox ≡ m ∷ rest)
            × Returns (receive_block_resumed p (taken a.thread_offset tasks s)) (λ m' t.
              (m' ≡ m)
              × (t.actors p ≡ some (record a { mailbox = rest; state = active }))
              × IsAwake t)
      go [] e = absurd (ground (arith, waits_for, ap length e))
      go (m ∷ rest) e = (
        m,
        rest,
        e,
        rw at (
            subst
              (λ ms. Returns (take_message p a ms (taken a.thread_offset tasks s)) (λ m' t.
                (m' ≡ m)
                × (t.actors p ≡ some (record a { mailbox = rest; state = active }))
                × IsAwake t))
              (sym e)
              (
                m,
                _,
                refl,
                (
                  refl,
                  rw here refl,
                  changed s _ p a (record a { mailbox = rest; state = active }) w at refl refl refl
                      (λ _. w.objects p a at (idle-runs a.state waits_idle)) refl
                      (ground (arith, waits_for, ap length e))
                      (λ r' i apart.
                        ground (arith, apart_congr r' apart, ap (resumes_of r') front)),
                ),
              )),
      )

  entered :
      (p : Ptr) (a : Actor M) (i : ActorInternal) (s : System M)
      → a.internal ≡ some i
      → enter p a a.internal s ≡ ok tt (put_actor p (record a { state = active }) s)
  unfolding enter
  entered p a i s o = enter-some a.internal o
    where
      enter-some :
          (x : Option ActorInternal)
          → x ≡ some i
          → enter p a x s ≡ ok tt (put_actor p (record a { state = active }) s)
      enter-some none e = cc
      enter-some (some j) e = refl

  start-IsAwake :
      (s : System M) (p : Ptr) (a : Actor M) (i : ActorInternal)
      → IsAwake s
      → s.actors p ≡ some a
      → is_constructing a.state ≡ true
      → a.internal ≡ some i
      → Returns (process_message p s) (λ _ t. IsAwake t)
  unfolding process_message pending
  start-IsAwake s p a i w at c o =
      let quiet = constructing-not_idle a.state c in
      rw (at, entered p a i s o)
        (
          tt,
          _,
          refl,
          stays s _ p a (record a { state = active }) w at refl refl refl refl (λ _. (i, o)) refl
              (ground arith),
        )

  -- What the threads do with a mailbox: a message is sent; an actor gives up its thread, starts its
  -- `receive`, or is given the thread back for the task at the front of its thread's queue.
  pub data Step (s : System M) : System M → Type 0 where
    sends :
        {t : System M} (p : Ptr) (a : Actor M) (task : SendMessageTask M)
        → s.actors p ≡ some a
        → send_local_message p task s ≡ ok tt t
        → Step s t
    blocks :
        {t : System M} (p : Ptr) (a : Actor M) (b : Blocking)
        → s.actors p ≡ some a
        → receive_block p s ≡ ok b t
        → Step s t
    starts :
        {t : System M} (p : Ptr) (a : Actor M)
        → s.actors p ≡ some a
        → is_constructing a.state ≡ true
        → process_message p s ≡ ok tt t
        → Step s t
    resumes :
        {t : System M} (p : Ptr) (a : Actor M) (r : PhString) (tasks : List (Task M))
        (m : Message M)
        → s.actors p ≡ some a
        → ph_str_eq r a.ref ≡ true
        → s.threads a.thread_offset ≡ resume_actor r ∷ tasks
        → receive_block_resumed p (taken a.thread_offset tasks s) ≡ ok m t
        → Step s t

  pub data Steps (s : System M) : System M → Type 0 where
    done : Steps s s
    then_step : {t u : System M} → Steps s t → Step t u → Steps s u

  state_of : {A : Type 0} → System M → Run M A → System M
  state_of s (ok a t) = t
  state_of s r = s

  returned :
      {A : Type 0} (r : Run M A) (a : A) (t : System M) (P : System M → Type 0)
      → Returns r (λ _ u. P u)
      → r ≡ ok a t
      → P t
  unfolding state_of
  returned r a t P (b, u, e, h) e' = subst P (ap (state_of t) (sym e ∙ e')) h

  -- A start without a fault finds the actor's object.
  started :
      (s t : System M) (p : Ptr) (a : Actor M)
      → s.actors p ≡ some a
      → process_message p s ≡ ok tt t
      → (i : ActorInternal) × (a.internal ≡ some i)
  unfolding process_message enter
  started s t p a at run =
      found a.internal
        (subst (λ o. and_then (load_from o s) (λ b. enter p b b.internal) ≡ ok tt t) at run)
    where
      found :
          (x : Option ActorInternal) → enter p a x s ≡ ok tt t → (i : ActorInternal) × (x ≡ some i)
      found none e = cc
      found (some i) e = (i, refl)

  Step-IsAwake : (s t : System M) → Step s t → IsAwake s → IsAwake t
  Step-IsAwake s t (sends p a task at run) w =
      returned _ _ t IsAwake (send-IsAwake s p a task w at) run
  Step-IsAwake s t (blocks p a b at run) w =
      let (b', u, e, h) = block-IsAwake s p a w at in returned _ b t IsAwake (b', u, e, h.1) run
  Step-IsAwake s t (starts p a at c run) w =
      let (i, o) = started s t p a at run in
      returned _ _ t IsAwake (start-IsAwake s p a i w at c o) run
  Step-IsAwake s t (resumes p a r tasks m at eq front run) w =
      let (m', rest, e, (m'', u, e', h)) = resume-IsAwake s p a r tasks w at eq front in
      returned _ m t IsAwake (m'', u, e', h.2) run

  -- No wake-up is lost: after any sequence of sends, blocks, starts and resumptions from a
  -- state in which it holds, an actor that waits with a message has exactly one resume task in
  -- the queue of its thread, any other actor has none, and the refs of different actors differ.
  -- An actor that runs or waits has its object, and the ref of an object is its actor's.
  pub Steps-IsAwake : (s t : System M) → IsAwake s → Steps s t → IsAwake t
  Steps-IsAwake s t w done = w
  Steps-IsAwake s t w (then_step {t = u} {u = v} steps step) =
      Step-IsAwake u v step (Steps-IsAwake s u w steps)

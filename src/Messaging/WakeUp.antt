-- ===== src/Messaging/WakeUp.antt =====
-- The resume tasks that `send_local_message` and `receive_block` queue, and those that an actor should
-- have in its thread's queue.
use phactor.Base.{
  ℕ, zero, suc, ◌+◌, ◌≡◌, refl, sym, ap, ◌∙◌, ◌≢◌, Bool, true, false, some, List, [], ◌∷◌, ◌++◌,
  arith, ◌==◌, if◌then◌else◌, subst, inl, inr, Ptr, take, length, Bool-cases,
}
use phactor.PhString.{PhString, ph_str_create, strncmp_eq, ph_str_eq}
use phactor.PhString.Equality.{ph_str_eq_refl, ph_str_eq_symm, ph_str_eq_trans}
use phactor.System.{Actor, ActorInternal, ActorState, idle, active, System, is_idle, update}
use phactor.Task.{Task, send_message, resume_actor, new_actor, free_vm_stack, resume_task}

strncmp_eq-take : (n : ℕ) (a : List ℕ) → strncmp_eq n (take n a) a ≡ true
unfolding strncmp_eq
strncmp_eq-take zero a = refl
strncmp_eq-take (suc n) [] = refl
strncmp_eq-take (suc n) (x ∷ a) = ground (arith, strncmp_eq-take n a)

copy-eq : (r : PhString) → ph_str_eq (ph_str_create r.val r.len) r ≡ true
unfolding ph_str_eq ph_str_create
copy-eq r = ground (arith, strncmp_eq-take r.len r.val)

pub eq_congr : (a b r : PhString) → ph_str_eq a b ≡ true → ph_str_eq a r ≡ ph_str_eq b r
eq_congr a b r h = ground (
  arith,
  ph_str_eq_trans a b r,
  ph_str_eq_trans b a r,
  ph_str_eq_symm a b,
  Bool-cases (ph_str_eq a r),
  Bool-cases (ph_str_eq b r),
)

abbrev pub runs : ActorState → Bool
runs idle = true
runs active = true
runs _ = false

module _ {M : Type 0} where
  unfoldable pub is_resume : PhString → Task M → Bool
  is_resume ref (resume_actor r) = ph_str_eq r ref
  is_resume ref (send_message t) = false
  is_resume ref (new_actor r c) = false
  is_resume ref (free_vm_stack p) = false

  -- the number of the resume tasks for the actor of a ref
  unfoldable pub resumes_of : PhString → List (Task M) → ℕ
  unfolding is_resume
  resumes_of ref [] = 0
  resumes_of ref (t ∷ ts) = (if is_resume ref t then 1 else 0) + resumes_of ref ts

  -- 1 for an actor that waits with a message, else 0
  unfoldable pub pending : Actor M → ℕ
  pending a = if is_idle a.state then (if length a.mailbox == 0 then 0 else 1) else 0

  -- No wake-up is lost or doubled, the refs of different actors differ, an actor that runs or waits
  -- has its object, and the ref of an object is that of its actor.
  pub record IsAwake (s : System M) : Type 0 where
    pub awake :
        (p : Ptr) (a : Actor M)
        → s.actors p ≡ some a
        → resumes_of a.ref (s.threads a.thread_offset) ≡ pending a
    pub distinct :
        (p q : Ptr) (a b : Actor M)
        → p ≢ q
        → s.actors p ≡ some a
        → s.actors q ≡ some b
        → ph_str_eq a.ref b.ref ≡ false
    pub objects :
        (p : Ptr) (a : Actor M)
        → s.actors p ≡ some a
        → runs a.state ≡ true
        → (i : ActorInternal) × (a.internal ≡ some i)
    pub refs :
        (p : Ptr) (a : Actor M) (i : ActorInternal)
        → s.actors p ≡ some a
        → a.internal ≡ some i
        → i.ref ≡ a.ref

  resumes_of-snoc :
      (ref : PhString) (ts : List (Task M)) (t : Task M)
      → resumes_of ref (ts ++ t ∷ []) ≡ resumes_of ref ts + (if is_resume ref t then 1 else 0)
  unfolding resumes_of
  resumes_of-snoc ref [] t = omega arith
  resumes_of-snoc ref (u ∷ ts) t = omega (arith, resumes_of-snoc ref ts t)

  -- A step writes to one actor, and queues or takes tasks of that actor's ref only.
  pub changed :
      (s t : System M) (p : Ptr) (a b : Actor M)
      → IsAwake s
      → s.actors p ≡ some a
      → t.actors ≡ update s.actors p (some b)
      → b.ref ≡ a.ref
      → b.internal ≡ a.internal
      → (runs b.state ≡ true → (i : ActorInternal) × (a.internal ≡ some i))
      → b.thread_offset ≡ a.thread_offset
      → resumes_of a.ref (t.threads a.thread_offset) ≡ pending b
      → ((r : PhString) (i : ℕ)
          → ph_str_eq a.ref r ≡ false
          → resumes_of r (t.threads i) ≡ resumes_of r (s.threads i))
      → IsAwake t
  unfolding pending
  changed s t p a b w at writes same_ref same_object has same_offset own others = record {
    awake = λ q c h.
        let e = written q c h in
        elim (Bool-cases (q == p)) [
          | inl eq ↦
              let same : b ≡ c = ground arith in
              subst (λ d. resumes_of d.ref (t.threads d.thread_offset) ≡ pending d) same
                (rw (same_ref, same_offset) own)
          | inr ne ↦
              let at_q : s.actors q ≡ some c = ground arith in
              let apart = w.distinct p q a c (ground arith) at at_q in
              others c.ref c.thread_offset apart ∙ w.awake q c at_q
        ];
    distinct = λ q q' c c' n h h'.
        let e = written q c h in
        let e' = written q' c' h' in
        elim (Bool-cases (q == p)) [
          | inl eq ↦
              let same : b ≡ c = ground arith in
              let at' : s.actors q' ≡ some c' = ground arith in
              subst (λ d. ph_str_eq d.ref c'.ref ≡ false) same
                (rw same_ref (w.distinct p q' a c' (ground arith) at at'))
          | inr ne ↦
              let at_q : s.actors q ≡ some c = ground arith in
              elim (Bool-cases (q' == p)) [
                | inl eq' ↦
                    let same : b ≡ c' = ground arith in
                    subst (λ d. ph_str_eq c.ref d.ref ≡ false) same
                      (rw same_ref (w.distinct q p c a (ground arith) at_q at))
                | inr ne' ↦ w.distinct q q' c c' n at_q (ground arith)
              ]
        ];
    objects = λ q c h r.
        let e = written q c h in
        elim (Bool-cases (q == p)) [
          | inl eq ↦
              let same : b ≡ c = ground arith in
              let (i, at_a) = has (ap (λ d. runs d.state) same ∙ r) in
              (i, sym (ap (λ d. d.internal) same) ∙ same_object ∙ at_a)
          | inr ne ↦ w.objects q c (ground arith) r
        ];
    refs = λ q c i h o.
        let e = written q c h in
        elim (Bool-cases (q == p)) [
          | inl eq ↦
              let same : b ≡ c = ground arith in
              w.refs p a i at (sym same_object ∙ ap (λ d. d.internal) same ∙ o)
              ∙ sym same_ref
              ∙ ap (λ d. d.ref) same
          | inr ne ↦ w.refs q c i (ground arith) o
        ];
  }
    where
      written :
          (q : Ptr) (c : Actor M)
          → t.actors q ≡ some c
          → (if q == p then some b else s.actors q) ≡ some c
      written q c h = sym (ap (λ f. f q) writes) ∙ h

  -- A wake-up queues one resume task, for the actor of the ref and no other.
  pushed :
      (ref r : PhString) (ts : List (Task M))
      → resumes_of r (ts ++ resume_task ref ∷ [])
        ≡ resumes_of r ts + (if ph_str_eq ref r then 1 else 0)
  unfolding resume_task is_resume
  pushed ref r ts =
      rw (← eq_congr (ph_str_create ref.val ref.len) ref r (copy-eq ref))
        (resumes_of-snoc r ts (resume_task ref))

  -- The actor at `p` becomes `b`, and its thread queues a resume task for it.
  pub wakes :
      (s t : System M) (p : Ptr) (a b : Actor M)
      → IsAwake s
      → s.actors p ≡ some a
      → t.actors ≡ update s.actors p (some b)
      → t.threads
        ≡ update s.threads a.thread_offset (s.threads a.thread_offset ++ resume_task a.ref ∷ [])
      → b.ref ≡ a.ref
      → b.internal ≡ a.internal
      → (runs b.state ≡ true → (i : ActorInternal) × (a.internal ≡ some i))
      → b.thread_offset ≡ a.thread_offset
      → pending a ≡ 0
      → pending b ≡ 1
      → IsAwake t
  wakes s t p a b w at writes queues same_ref same_object has same_offset before after =
      changed s t p a b w at writes same_ref same_object has same_offset
        (rw queues (
          ground (
            arith,
            pushed a.ref a.ref (s.threads a.thread_offset),
            w.awake p a at,
            ph_str_eq_refl a.ref,
          )))
        (λ r i apart. rw queues (ground (arith, pushed a.ref r (s.threads a.thread_offset))))

  -- The actor at `p` becomes `b`, and no task is queued.
  pub stays :
      (s t : System M) (p : Ptr) (a b : Actor M)
      → IsAwake s
      → s.actors p ≡ some a
      → t.actors ≡ update s.actors p (some b)
      → t.threads ≡ s.threads
      → b.ref ≡ a.ref
      → b.internal ≡ a.internal
      → (runs b.state ≡ true → (i : ActorInternal) × (a.internal ≡ some i))
      → b.thread_offset ≡ a.thread_offset
      → pending b ≡ pending a
      → IsAwake t
  stays s t p a b w at writes queues same_ref same_object has same_offset same =
      changed s t p a b w at writes same_ref same_object has same_offset
        (rw (queues, same) (w.awake p a at)) (λ r i apart. rw queues refl)

-- ===== src/Queue.antt =====
-- src/ds/ph_queue.h and src/ds/ph_queue.c: a linked list with a pointer to its last node, over an
-- explicit heap of nodes. `fresh` is what `malloc` returns, which does not fail; `none` is a read
-- or a write through a pointer that leads to no node. The lock is the callers'.
pub mod Chain
pub mod Fifo
use phactor.Base.{ℕ, zero, suc, ◌+◌, Option, none, some, ◌==◌, if◌then◌else◌, Ptr, null}
use phactor.Base.Words.{incr, decr}

pub record Node : Type 0 where
  pub element : Ptr
  pub next : Ptr

abbrev pub node : Ptr → Ptr → Node
node element next = record { element = element; next = next }

abbrev pub Heap : Type 0
Heap = Ptr → Option Node

unfoldable pub write : Heap → Ptr → Option Node → Heap
write h p c a = if a == p then c else h a

unfoldable pub load : Heap → Ptr → Option Node
load h p = if p == null then none else h p

pub record Queue : Type 0 where
  pub elements : Ptr
  pub last : Ptr
  pub size : ℕ

infixl 5 ◌>>=◌
abbrev pub ◌>>=◌ : {A B : Type 0} → Option A → (A → Option B) → Option B
none >>= f = none
some a >>= f = f a

abbrev pub ph_queue_init : Queue
ph_queue_init = record { elements = null; last = null; size = 0 }

unfoldable pub ph_queue_push : Ptr → Queue → Ptr → Heap → Option (Queue × Heap)
ph_queue_push fresh queue element heap =
    let h = write heap fresh (some (node element null)) in
    if queue.elements == null
    then some (record { elements = fresh; last = fresh; size = incr queue.size }, h)
    else do
      last ← load h queue.last
      some (
        record queue { last = fresh; size = incr queue.size },
        write h queue.last (some (record last { next = fresh })),
      )

unfoldable pub ph_queue_pop : Queue → Heap → Option (Ptr × Queue × Heap)
ph_queue_pop queue heap = if queue.elements == null then some (null, queue, heap) else do
  ll ← load heap queue.elements
  some (
    ll.element,
    record {
      elements = ll.next;
      last = if ll.next == null then null else queue.last;
      size = decr queue.size;
    },
    write heap queue.elements none,
  )

unfoldable pub ph_queue_size : Queue → ℕ
ph_queue_size queue = queue.size

-- `ph_queue_destroy`, with the size as fuel for the loop
unfoldable pub destroy_loop :
    {S : Type 0} → (Ptr → S → S) → ℕ → Queue → Heap → S → Option (Queue × Heap × S)
destroy_loop dtor zero queue heap s = if queue.size == 0 then some (queue, heap, s) else none
destroy_loop dtor (suc fuel) queue heap s =
    let rest = λ (r : Ptr × Queue × Heap). destroy_loop dtor fuel r.1 r.2 (dtor r.0 s) in
    if queue.size == 0 then some (queue, heap, s) else ph_queue_pop queue heap >>= rest

unfoldable pub ph_queue_destroy :
    {S : Type 0} → (Ptr → S → S) → Queue → Heap → S → Option (Queue × Heap × S)
ph_queue_destroy dtor queue heap s = destroy_loop dtor queue.size queue heap s

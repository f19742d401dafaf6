-- ===== src/Queue/Fifo.antt =====
-- The operations of src/ds/ph_queue.c against a list of elements, pushed at the end and popped at
-- the front.
use mathlib.Core.List.{foldl}
use phactor.Base.{
  ℕ, zero, suc, ◌+◌, ◌^◌, ◌<◌, ◌≡◌, refl, sym, ◌≢◌, false, none, some, [], ◌∷◌, ◌++◌, arith, ◌==◌,
  if◌then◌else◌, Ptr, null, length, length-append,
}
use phactor.Base.Words.{incr, decr}
use phactor.Queue.{
  node, Heap, write, load, Queue, ph_queue_init, ph_queue_push, ph_queue_pop, destroy_loop,
  ph_queue_destroy,
}
use phactor.Queue.Chain.{
  Cells, has, head_ptr, last_ptr, contents, Chain, Chain-frame, has-last, last_ptr-snoc, last-node,
  Chain-snoc,
}

-- The queue `q` in heap `h` has the nodes `cs`.
pub record IsQueue (h : Heap) (q : Queue) (cs : Cells) : Type 0 where
  pub chain : Chain h cs
  pub first : q.elements ≡ head_ptr cs
  pub last : q.last ≡ last_ptr cs
  pub size : q.size ≡ length cs
  pub small : length cs < 2 ^ 31

pub init-IsQueue : (h : Heap) → IsQueue h ph_queue_init []
init-IsQueue h = record { chain = tt; first = refl; last = refl; size = refl; small = omega arith }

-- What the two writes of a push to a queue that is not empty make of the heap.
module _ (h : Heap) (fresh l x y : Ptr) (apart : l ≢ fresh) where
  abbrev linked : Heap
  linked = write (write h fresh (some (node x null))) l (some (node y fresh))

  linked_new : linked fresh ≡ some (node x null)
  unfolding write
  linked_new = ground arith

  linked_last : linked l ≡ some (node y fresh)
  unfolding write
  linked_last = ground arith

  linked_other : (a : Ptr) → a ≢ fresh → a ≢ l → linked a ≡ h a
  unfolding write
  linked_other a n m = ground arith

  load_last :
      l ≢ null
      → h l ≡ some (node y null)
      → load (write h fresh (some (node x null))) l ≡ some (node y null)
  unfolding write load
  load_last ne at = ground arith

-- A push on an address that is not NULL and not a node of the queue, which has less than 2 ^ 31
-- - 1 elements, does not fault. It puts a node with the element behind the others, on the empty
-- queue as on any other, and writes to no node but the new one and the queue's own.
pub push-snoc :
    (fresh element : Ptr) (h : Heap) (q : Queue) (cs : Cells)
    → IsQueue h q cs
    → fresh ≢ null
    → has fresh cs ≡ false
    → length cs + 1 < 2 ^ 31
    → (q' : Queue) × (h' : Heap) × (ph_queue_push fresh q element h ≡ some (q', h'))
      × IsQueue h' q' (cs ++ (fresh, element) ∷ [])
      × ((a : Ptr) → a ≢ fresh → has a cs ≡ false → h' a ≡ h a)
unfolding ph_queue_push
push-snoc fresh element h q [] is ne new small = (
  record { elements = fresh; last = fresh; size = incr q.size },
  write h fresh (some (node element null)),
  rw is.first refl,
  record {
    chain = (ne, unfold write in ground arith, refl, tt);
    first = refl;
    last = refl;
    size = omega (arith, is.size);
    small = omega arith;
  },
  λ a n out. unfold write in ground arith,
)
push-snoc fresh element h q (c ∷ cs) is ne new small =
    let (y, at_last, last_ne) = last-node h c cs is.chain in
    let l = last_ptr (c ∷ cs) in
    let apart : l ≢ fresh = ground (arith, has-last c cs) in
    let g = linked h fresh l element y apart in
    let taken : (q.elements == null) ≡ false = ground (arith, is.first, is.chain.0) in
    (
      record q { last = fresh; size = incr q.size },
      g,
      rw (taken, is.last, load_last h fresh l element y apart last_ne at_last) refl,
      record {
        chain =
            Chain-snoc h g c cs fresh element y is.chain ne new at_last
              (linked_new h fresh l element y apart) (linked_last h fresh l element y apart)
              (linked_other h fresh l element y apart);
        first = is.first;
        last = sym (last_ptr-snoc (c ∷ cs) (fresh, element));
        size = omega (arith, is.size, length-append (c ∷ cs) ((fresh, element) ∷ []));
        small = omega (arith, length-append (c ∷ cs) ((fresh, element) ∷ []));
      },
      λ a n out. linked_other h fresh l element y apart a n (ground (arith, has-last c cs)),
    )

-- A pop of the empty queue returns NULL and changes nothing.
pub pop-nil : (h : Heap) (q : Queue) → IsQueue h q [] → ph_queue_pop q h ≡ some (null, q, h)
unfolding ph_queue_pop
pop-nil h q is = rw is.first

-- A pop of a queue with an element does not fault: it returns the first element, frees its node
-- and no other, and leaves a well-formed queue of the rest.
pub pop-cons :
    (h : Heap) (q : Queue) (p x : Ptr) (cs : Cells)
    → IsQueue h q ((p, x) ∷ cs)
    → (q' : Queue) × (ph_queue_pop q h ≡ some (x, q', write h p none))
      × IsQueue (write h p none) q' cs
unfolding ph_queue_pop load write
pop-cons h q p x cs is =
    let (ne, at, out, chain) = is.chain in
    let taken : (q.elements == null) ≡ false = ground (arith, is.first) in
    let first = is.first in
    (
      record {
        elements = head_ptr cs;
        last = if head_ptr cs == null then null else q.last;
        size = decr q.size;
      },
      ground arith,
      record {
        chain = Chain-frame h (write h p none) cs chain (λ a i. ground arith);
        first = refl;
        last = last_of cs chain is.last;
        size = omega (arith, is.size, is.small);
        small = omega (arith, is.small);
      },
    )
  where
    last_of :
        (cs : Cells)
        → Chain h cs
        → q.last ≡ last_ptr ((p, x) ∷ cs)
        → (if head_ptr cs == null then null else q.last) ≡ last_ptr cs
    last_of [] chain e = refl
    last_of ((a, y) ∷ cs) chain e = ground arith

module _ {S : Type 0} (dtor : Ptr → S → S) where
  destroy_loop-foldl :
      (fuel : ℕ) (h : Heap) (q : Queue) (cs : Cells) (s : S)
      → IsQueue h q cs
      → fuel ≡ length cs
      → (q' : Queue) × (h' : Heap) × (destroy_loop dtor fuel q h s
          ≡ some (q', h', foldl (λ t x. dtor x t) s (contents cs)))
        × IsQueue h' q' []
  unfolding destroy_loop
  destroy_loop-foldl zero h q [] s is e = (q, h, rw is.size refl, is)
  destroy_loop-foldl zero h q (c ∷ cs) s is e = absurd (omega arith)
  destroy_loop-foldl (suc fuel) h q [] s is e = absurd (omega arith)
  destroy_loop-foldl (suc fuel) h q ((p, x) ∷ cs) s is e =
      let (q', run, is') = pop-cons h q p x cs is in
      let more : (q.size == 0) ≡ false = ground (arith, is.size) in
      let (q'', h'', run', is'') =
        destroy_loop-foldl fuel (write h p none) q' cs (dtor x s) is' (omega arith) in
      (q'', h'', rw (more, run) run', is'')

  -- `ph_queue_destroy` does not fault and its loop ends, with the size as fuel. It calls the
  -- destructor once on each element, from the first to the last, and leaves an empty queue.
  pub queue_destroy-foldl :
      (h : Heap) (q : Queue) (cs : Cells) (s : S)
      → IsQueue h q cs
      → (q' : Queue) × (h' : Heap) × (ph_queue_destroy dtor q h s
          ≡ some (q', h', foldl (λ t x. dtor x t) s (contents cs)))
        × IsQueue h' q' []
  unfolding ph_queue_destroy
  queue_destroy-foldl h q cs s is = destroy_loop-foldl q.size h q cs s is is.size

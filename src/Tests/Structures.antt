-- ===== src/Tests/Structures.antt =====
-- Queues, vectors and contexts of concrete contents.
use phactor.Base.{
  ◌+◌, ◌≡◌, refl, ◌≢◌, ◌⊎◌, false, none, some, [], ◌∷◌, ◌++◌, arith, ◌==◌, if◌then◌else◌, Ptr, null,
}
use phactor.Context.{VmContext}
use phactor.Queue.{node, Heap, Queue, write, ph_queue_push, ph_queue_pop}
use phactor.Queue.Chain.{Cells, has}
use phactor.Queue.Fifo.{IsQueue, push-snoc, pop-cons}
use phactor.Vector.{Vector, ph_vector_space_check, ph_vector_push, ph_vector_pop, ph_vector_size}
use phactor.Vector.Stack.{IsValid, elements, elements-push, elements-pop}

-- a full vector of two elements
abbrev full : Vector
full = record { values = 7 ∷ 8 ∷ []; size = 2; used = 2 }

full-IsValid : IsValid full
full-IsValid = record { width = refl; within = omega arith }

push_grows : ph_vector_push full 9 ≡ record { values = 7 ∷ 8 ∷ 9 ∷ 0 ∷ []; size = 4; used = 3 }
unfolding ph_vector_push ph_vector_space_check
push_grows = refl

pop_last : ph_vector_pop full ≡ (8, record { values = 7 ∷ 8 ∷ []; size = 2; used = 1 })
unfolding ph_vector_pop
pop_last = refl

elements-push_example :
    IsValid (ph_vector_push full 9)
    × (elements (ph_vector_push full 9) ≡ elements full ++ 9 ∷ [])
    × (ph_vector_size (ph_vector_push full 9) ≡ ph_vector_size full + 1)
elements-push_example = elements-push full 9 full-IsValid (omega arith)

elements-pop_example :
    let (x, v') = ph_vector_pop full in
    ((full.used ≡ 0) × (x ≡ null) × (v' ≡ full))
    ⊎ (IsValid v' × (elements full ≡ elements v' ++ x ∷ []) × (v'.used + 1 ≡ full.used))
elements-pop_example = elements-pop full full-IsValid (omega arith)

-- a queue of one node
abbrev one_node : Heap
one_node a = if a == 10 then some (node 5 null) else none

abbrev one : Queue
one = record { elements = 10; last = 10; size = 1 }

abbrev one_cells : Cells
one_cells = (10, 5) ∷ []

one-IsQueue : IsQueue one_node one one_cells
one-IsQueue = record {
  chain = (λ e. omega arith, refl, refl, tt);
  first = refl;
  last = refl;
  size = refl;
  small = omega arith;
}

push-snoc_example :
    (q' : Queue) × (h' : Heap) × (ph_queue_push 20 one 6 one_node ≡ some (q', h'))
    × IsQueue h' q' (one_cells ++ (20, 6) ∷ [])
    × ((a : Ptr) → a ≢ 20 → has a one_cells ≡ false → h' a ≡ one_node a)
push-snoc_example =
    push-snoc 20 6 one_node one one_cells one-IsQueue (λ e. omega arith) refl (omega arith)

pop-cons_example :
    (q' : Queue) × (ph_queue_pop one one_node ≡ some (5, q', write one_node 10 none))
    × IsQueue (write one_node 10 none) q' []
pop-cons_example = pop-cons one_node one 10 5 [] one-IsQueue

abbrev three_pages : VmContext
three_pages = record {
  vm_stack = 3000 ∷ 2000 ∷ 1000 ∷ [];
  vm_stack_top = 3100;
  vm_stack_end = 3256;
}

abbrev one_page : VmContext
one_page = record { vm_stack = 500 ∷ []; vm_stack_top = 516; vm_stack_end = 756 }

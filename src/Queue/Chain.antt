-- ===== src/Queue/Chain.antt =====
-- The nodes that a queue's pointers lead through.
use phactor.Base.{
  ◌≡◌, refl, ◌≢◌, Bool, true, false, ◌||◌, some, List, [], ◌∷◌, ◌++◌, arith, ◌==◌, Ptr, null,
}
use phactor.Queue.{node, Heap}

-- address and element of each node, in order
abbrev pub Cells : Type 0
Cells = List (Ptr × Ptr)

abbrev pub has : Ptr → Cells → Bool
has a [] = false
has a ((p, x) ∷ cs) = (a == p) || has a cs

abbrev pub head_ptr : Cells → Ptr
head_ptr [] = null
head_ptr ((p, x) ∷ cs) = p

abbrev pub last_ptr : Cells → Ptr
last_ptr [] = null
last_ptr ((p, x) ∷ []) = p
last_ptr (c ∷ d ∷ cs) = last_ptr (d ∷ cs)

abbrev pub contents : Cells → List Ptr
contents [] = []
contents ((p, x) ∷ cs) = x ∷ contents cs

-- Distinct nodes, each of which leads to the next one, and the last to NULL.
abbrev pub Chain : Heap → Cells → Type 0
Chain h [] = Unit {0}
Chain h ((p, x) ∷ cs) =
    (p ≢ null) × (h p ≡ some (node x (head_ptr cs))) × (has p cs ≡ false) × Chain h cs

-- A chain survives a change that spares its nodes.
pub Chain-frame :
    (h g : Heap) (cs : Cells) → Chain h cs → ((a : Ptr) → has a cs ≡ true → g a ≡ h a) → Chain g cs
Chain-frame h g [] c same = tt
Chain-frame h g ((p, x) ∷ cs) (ne, at, out, c) same =
    (ne, ground (arith, same p), out, Chain-frame h g cs c (λ a i. same a (ground arith)))

pub has-append : (a : Ptr) (cs ds : Cells) → has a (cs ++ ds) ≡ (has a cs || has a ds)
has-append a [] ds = refl
has-append a ((p, x) ∷ cs) ds = ground (arith, has-append a cs ds)

pub has-last : (c : Ptr × Ptr) (cs : Cells) → has (last_ptr (c ∷ cs)) (c ∷ cs) ≡ true
has-last (p, x) [] = ground arith
has-last (p, x) (d ∷ cs) = ground (arith, has-last d cs)

pub last_ptr-snoc : (cs : Cells) (c : Ptr × Ptr) → last_ptr (cs ++ c ∷ []) ≡ c.0
last_ptr-snoc [] c = refl
last_ptr-snoc (d ∷ []) c = refl
last_ptr-snoc (d ∷ e ∷ cs) c = last_ptr-snoc (e ∷ cs) c

pub contents-append : (cs ds : Cells) → contents (cs ++ ds) ≡ contents cs ++ contents ds
contents-append [] ds = refl
contents-append ((p, x) ∷ cs) ds = ground (arith, contents-append cs ds)

-- The node that the last pointer leads to.
pub last-node :
    (h : Heap) (c : Ptr × Ptr) (cs : Cells)
    → Chain h (c ∷ cs)
    → (x : Ptr) × (h (last_ptr (c ∷ cs)) ≡ some (node x null)) × (last_ptr (c ∷ cs) ≢ null)
last-node h (p, x) [] (ne, at, out, c) = (x, at, ne)
last-node h (p, x) (d ∷ cs) (ne, at, out, c) = last-node h d cs c

-- A new node behind the last one.
pub Chain-snoc :
    (h g : Heap) (c : Ptr × Ptr) (cs : Cells) (fresh x y : Ptr)
    → Chain h (c ∷ cs)
    → fresh ≢ null
    → has fresh (c ∷ cs) ≡ false
    → h (last_ptr (c ∷ cs)) ≡ some (node y null)
    → g fresh ≡ some (node x null)
    → g (last_ptr (c ∷ cs)) ≡ some (node y fresh)
    → ((a : Ptr) → a ≢ fresh → a ≢ last_ptr (c ∷ cs) → g a ≡ h a)
    → Chain g ((c ∷ cs) ++ (fresh, x) ∷ [])
Chain-snoc h g (p, v) [] fresh x y (ne, at, out, c) nf new last gf gl same =
    (ne, ground arith, ground arith, (nf, gf, refl, tt))
Chain-snoc h g (p, v) (d ∷ cs) fresh x y (ne, at, out, c) nf new last gf gl same = (
  ne,
  ground (arith, same p, has-last d cs),
  ground (arith, has-append p (d ∷ cs) ((fresh, x) ∷ [])),
  Chain-snoc h g d cs fresh x y c nf (ground arith) last gf gl same,
)

-- ===== src/Context.antt =====
-- src/ph_context.h and src/ph_context.c: the part of a context that is PHP's VM stack. A stack is
-- its pages by address, the newest first; `prev` leads to the next of the list. The first of a
-- stack's values stands `header` bytes into a page.
use phactor.Base.{ℕ, ◌+◌, ◌≡◌, refl, ap, List, [], ◌∷◌, ◌++◌, Ptr, null}

pub record VmContext : Type 0 where
  pub vm_stack : List Ptr
  pub vm_stack_top : Ptr
  pub vm_stack_end : Ptr

abbrev pub vm_stack_size : ℕ
vm_stack_size = 256

-- `EG(vm_stack)`, `EG(vm_stack_top)` and `EG(vm_stack_end)` of a thread are a `VmContext` too.
unfoldable pub ph_vmcontext_get : VmContext → VmContext → VmContext
ph_vmcontext_get eg vmc = record vmc {
  vm_stack = eg.vm_stack;
  vm_stack_top = eg.vm_stack_top;
  vm_stack_end = eg.vm_stack_end;
}

unfoldable pub ph_vmcontext_set : VmContext → VmContext → VmContext
ph_vmcontext_set eg vmc = record eg {
  vm_stack = vmc.vm_stack;
  vm_stack_top = vmc.vm_stack_top;
  vm_stack_end = vmc.vm_stack_end;
}

-- the new `from_vmc` and the new executor globals
unfoldable pub ph_vmcontext_swap : VmContext → VmContext → VmContext → VmContext × VmContext
ph_vmcontext_swap eg from_vmc to_vmc = (ph_vmcontext_get eg from_vmc, ph_vmcontext_set eg to_vmc)

-- the pages that `ph_vmcontext_clear` frees
unfoldable pub ph_vmcontext_clear : List Ptr → List Ptr
ph_vmcontext_clear [] = []
ph_vmcontext_clear (page ∷ []) = []
ph_vmcontext_clear (page ∷ prev ∷ pages) = page ∷ ph_vmcontext_clear (prev ∷ pages)

unfoldable pub last_page : List Ptr → List Ptr
last_page [] = []
last_page (page ∷ []) = page ∷ []
last_page (page ∷ prev ∷ pages) = last_page (prev ∷ pages)

abbrev pub page_address : List Ptr → Ptr
page_address [] = null
page_address (page ∷ pages) = page

unfoldable pub ph_vmcontext_reset : ℕ → VmContext → VmContext
ph_vmcontext_reset header vmc =
    let vm_stack = last_page vmc.vm_stack in
    record {
      vm_stack = vm_stack;
      vm_stack_top = page_address vm_stack + header;
      vm_stack_end = page_address vm_stack + vm_stack_size;
    }

clear-last_page : (s : List Ptr) → ph_vmcontext_clear s ++ last_page s ≡ s
unfolding ph_vmcontext_clear last_page
clear-last_page [] = refl
clear-last_page (p ∷ []) = refl
clear-last_page (p ∷ q ∷ s) = ap (◌∷◌ p) (clear-last_page (q ∷ s))

-- The pages that `ph_vmcontext_clear` frees of a stack and the page that `ph_vmcontext_reset`
-- leaves of it are together the pages of the stack, in their order: none is lost or freed in
-- use.
pub clear-reset :
    (header : ℕ) (vmc : VmContext)
    → ph_vmcontext_clear vmc.vm_stack ++ (ph_vmcontext_reset header vmc).vm_stack ≡ vmc.vm_stack
unfolding ph_vmcontext_reset
clear-reset header vmc = clear-last_page vmc.vm_stack

-- A swap to an actor's context gives the thread the actor's executor globals, and the swap back
-- gives it those that it had before and leaves in the actor's context the globals as they were
-- when it ran.
pub swap-swap :
    (eg ran actor thread : VmContext)
    → let (thread', eg') = ph_vmcontext_swap eg thread actor in
      let (actor', eg'') = ph_vmcontext_swap ran eg' thread' in
      (eg' ≡ actor) × (eg'' ≡ eg) × (actor' ≡ ran)
unfolding ph_vmcontext_swap ph_vmcontext_get ph_vmcontext_set
swap-swap eg ran actor thread = (refl, refl, refl)

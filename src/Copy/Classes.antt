-- ===== src/Copy/Classes.antt =====
-- src/ph_copy.c, the copies of classes with the classes that they name: parents, interfaces, traits
-- and the references of trait rules. Fuel bounds how deep these lead. The classes of the main thread
-- are in memory by address.
pub mod Defs
pub mod Members
pub mod Names
pub mod Known
pub mod Creation
pub mod Ordered
pub mod Growth
pub mod Hierarchy
pub mod Twice
use phactor.Base.{
  ℕ, zero, suc, ◌+◌, Bool, true, false, Option, none, some, List, [], ◌∷◌, ◌==◌, if◌then◌else◌, Ptr,
  null,
}
use phactor.Copy.Classes.Defs.{
  MethodReference, TraitAlias, Excluded, TraitPrecedence, ClassType, internal_class, user_class,
  ClassEntry, CopyState, CopyOutcome, ok, fault, out_of_fuel, Copy, ◌>>=◌, pure,
}
use phactor.Copy.Classes.Members.{copy_members}
use phactor.Copy.Functions.{copy_string}
use phactor.Copy.Zend.{ZendString, Zend, Table, find, add}

-- `emalloc`ed arrays of `n` classes, from an array
unfoldable pub copy_pointers : (Ptr → Copy Ptr) → ℕ → List Ptr → Copy (List Ptr)
copy_pointers copy zero ps = pure []
copy_pointers copy (suc n) [] = λ _. fault
copy_pointers copy (suc n) (p ∷ ps) = do q ← copy p; qs ← copy_pointers copy n ps; pure (q ∷ qs)

unfoldable pub copy_interfaces : (Ptr → Copy Ptr) → Option (List Ptr) → ℕ → Copy (Option (List Ptr))
unfolding copy_pointers
copy_interfaces copy none num_interfaces = pure none
copy_interfaces copy (some old) num_interfaces = do
  new ← copy_pointers copy num_interfaces old
  pure (some new)

unfoldable pub copy_traits : (Ptr → Copy Ptr) → Option (List Ptr) → ℕ → Copy (Option (List Ptr))
unfolding copy_pointers
copy_traits copy none num_traits = pure none
copy_traits copy (some old) num_traits = do new ← copy_pointers copy num_traits old; pure (some new)

-- The loops that count an array down to its first element.
unfoldable pub copy_from_last : {A : Type 0} → (A → Copy A) → List A → Copy (List A)
copy_from_last f [] = pure []
copy_from_last f (x ∷ xs) = do ys ← copy_from_last f xs; y ← f x; pure (y ∷ ys)

module _ (zend : Zend) where
  open zend use {zend_string_dup, zend_string_tolower, is_anon_class, zend_lookup_class}

  unfoldable pub copy_trait_method_reference :
      (Ptr → Copy Ptr) → MethodReference → Copy MethodReference
  copy_trait_method_reference copy old = do
    ce ← copy old.ce
    pure (record {
      method_name = zend_string_dup old.method_name;
      ce = ce;
      class_name = copy_string zend old.class_name;
    })

  -- the first element of `exclude_from_classes`, which is all that the new array has room for
  unfoldable pub copy_excluded :
      (Ptr → Copy Ptr) → Option (List Excluded) → Copy (Option (List Excluded))
  copy_excluded copy none = pure none
  copy_excluded copy (some []) = λ _. fault
  copy_excluded copy (some (e ∷ rest)) = do
    ce ← copy e.ce
    pure (some (record { ce = ce; class_name = zend_string_dup e.class_name } ∷ []))

  unfoldable pub copy_trait_precedence : (Ptr → Copy Ptr) → TraitPrecedence → Copy TraitPrecedence
  unfolding copy_trait_method_reference copy_excluded
  copy_trait_precedence copy old = do
    trait_method ← copy_trait_method_reference copy old.trait_method
    excluded ← copy_excluded copy old.exclude_from_classes
    pure (record { trait_method = trait_method; exclude_from_classes = excluded })

  unfoldable pub copy_trait_precedences :
      (Ptr → Copy Ptr) → Option (List TraitPrecedence) → Copy (Option (List TraitPrecedence))
  unfolding copy_from_last copy_trait_precedence
  copy_trait_precedences copy none = pure none
  copy_trait_precedences copy (some old) = do
    new ← copy_from_last (copy_trait_precedence copy) old
    pure (some new)

  unfoldable pub copy_trait_alias : (Ptr → Copy Ptr) → TraitAlias → Copy TraitAlias
  unfolding copy_trait_method_reference
  copy_trait_alias copy old = do
    trait_method ← copy_trait_method_reference copy old.trait_method
    pure (record {
      trait_method = trait_method;
      alias = copy_string zend old.alias;
      modifiers = old.modifiers;
    })

  unfoldable pub copy_trait_aliases :
      (Ptr → Copy Ptr) → Option (List TraitAlias) → Copy (Option (List TraitAlias))
  unfolding copy_from_last copy_trait_alias
  copy_trait_aliases copy none = pure none
  copy_trait_aliases copy (some old) = do
    new ← copy_from_last (copy_trait_alias copy) old
    pure (some new)

  -- `zend_arena_calloc` of a class entry: its address
  abbrev pub allocate : Copy Ptr
  allocate s = ok s.next (record s { next = s.next + 1 })

  lift_members : Option (ClassEntry × Table ZendString) → Copy ClassEntry
  lift_members none = λ _. fault
  lift_members (some (c, names)) = λ s. ok c (record s { op_array_file_names = names })

  unfoldable pub members_of : ClassEntry → Ptr → Copy ClassEntry
  unfolding lift_members
  members_of old new_ce = λ s. lift_members (copy_members zend old new_ce s.op_array_file_names) s

  -- the new entry, at its address in the arena
  abbrev pub put : Ptr → ClassEntry → Copy Ptr
  put p c = λ s. ok p (record s { arena = λ q. if q == p then some c else s.arena q })

  -- `create_new_ce`, given `copy_ce`
  unfoldable pub create_new_ce : (Ptr → Copy Ptr) → ClassEntry → Copy Ptr
  unfolding copy_interfaces copy_traits copy_trait_aliases copy_trait_precedences members_of
  create_new_ce copy old = do
    new_ce ← allocate
    parent ← copy old.parent
    members ← members_of old new_ce
    interfaces ← copy_interfaces copy old.interfaces old.num_interfaces
    traits ← copy_traits copy old.traits old.num_traits
    trait_aliases ← copy_trait_aliases copy old.trait_aliases
    trait_precedences ← copy_trait_precedences copy old.trait_precedences
    put new_ce (record members {
      name = zend_string_dup old.name;
      parent = parent;
      refcount = 1;
      interfaces = interfaces;
      traits = traits;
      trait_aliases = trait_aliases;
      trait_precedences = trait_precedences;
      doc_comment = copy_string zend old.doc_comment;
    })

  -- the end of `copy_ce`: the class that the thread has, or a new one
  unfoldable pub found_or_new : (Ptr → Copy Ptr) → ClassEntry → Option Ptr → Copy Ptr
  unfolding create_new_ce
  found_or_new copy old (some p) = pure p
  found_or_new copy old none = create_new_ce copy old

  unfoldable pub copy_user_ce : (Ptr → Copy Ptr) → ClassEntry → Copy Ptr
  unfolding found_or_new
  copy_user_ce copy old =
      if is_anon_class old.ce_flags
      then pure null
      else (λ s. found_or_new copy old (find s.class_table (zend_string_tolower old.name)) s)

  unfoldable pub copy_entry : (Ptr → Copy Ptr) → ClassType → ClassEntry → Copy Ptr
  unfolding copy_user_ce
  copy_entry copy internal_class old = pure (zend_lookup_class old.name)
  copy_entry copy user_class old = copy_user_ce copy old

  copy_at : (Ptr → Copy Ptr) → Option ClassEntry → Copy Ptr
  unfolding copy_entry
  copy_at copy none = λ _. fault
  copy_at copy (some old) = copy_entry copy old.type old

module _ (zend : Zend) (classes : Ptr → Option ClassEntry) where
  open zend use {zend_string_tolower}

  unfoldable pub copy_ce : ℕ → Ptr → Copy Ptr
  unfolding copy_at
  copy_ce zero p = λ _. out_of_fuel
  copy_ce (suc fuel) p = if p == null then pure null else copy_at zend (copy_ce fuel) (classes p)

  -- the entry of the table for a class that was copied; NULL is no copy, of an anonymous class
  unfoldable pub register : ClassEntry → Ptr → Copy (Unit {0})
  register old p = if p == null then pure tt else λ s.
      ok tt (record s { class_table = add s.class_table (zend_string_tolower old.name) p })

  unfoldable pub copy_listed : ℕ → Ptr → ClassType → ClassEntry → Copy (Unit {0})
  unfolding copy_ce register
  copy_listed fuel p internal_class old = pure tt
  copy_listed fuel p user_class old = do q ← copy_ce fuel p; register old q

  copy_listed_at : ℕ → Ptr → Option ClassEntry → Copy (Unit {0})
  unfolding copy_listed
  copy_listed_at fuel p none = λ _. fault
  copy_listed_at fuel p (some old) = copy_listed fuel p old.type old

  -- over the classes of the main thread's table
  unfoldable pub copy_ces : ℕ → List Ptr → Copy (Unit {0})
  unfolding copy_listed_at
  copy_ces fuel [] = pure tt
  copy_ces fuel (p ∷ rest) = do _ ← copy_listed_at fuel p (classes p); copy_ces fuel rest

-- ===== src/Copy/Classes/Known.antt =====
-- The copies of src/ph_copy.c of classes that name only classes which the thread has: each pointer
-- becomes that of the thread's class.
use phactor.Base.{
  ℕ, zero, suc, ◌≤◌, ◌≡◌, refl, ap, Option, none, some, List, [], ◌∷◌, arith, ◌==◌, if◌then◌else◌,
  Ptr, null, length, Bool-cases, Option-cases, inl, inr,
}
use phactor.Copy.Classes.{
  copy_pointers, copy_interfaces, copy_traits, copy_from_last, copy_trait_method_reference,
  copy_trait_precedence, copy_trait_precedences, copy_trait_alias, copy_trait_aliases,
  copy_excluded, copy_entry, copy_ce,
}
use phactor.Copy.Classes.Defs.{
  MethodReference, TraitAlias, Excluded, TraitPrecedence, ClassType, internal_class, user_class,
  ClassEntry, CopyState, ok, Copy,
}
use phactor.Copy.Functions.{copy_string}
use phactor.Copy.Tables.{All}
use phactor.Copy.Zend.{Zend, Table, find}
use phactor.Copy.Classes.Names.{
  NamesBlock, NamesExcluded, NamesPrecedence, NamesAliases, NamesPrecedences,
}

module _ (zend : Zend) (classes : Ptr → Option ClassEntry) (table : Table Ptr) where
  open zend use {zend_string_tolower, is_anon_class, zend_lookup_class}

  abbrev pub class_of_entry : ClassType → ClassEntry → Option Ptr
  class_of_entry internal_class c = some (zend_lookup_class c.name)
  class_of_entry user_class c =
      if is_anon_class c.ce_flags then some null else find table (zend_string_tolower c.name)

  abbrev class_of_at : Option ClassEntry → Option Ptr
  class_of_at none = none
  class_of_at (some c) = class_of_entry c.type c

  -- the class of a thread with this class table that stands for a class of the main thread
  abbrev pub class_of : Ptr → Option Ptr
  class_of p = if p == null then some null else class_of_at (classes p)

  abbrev pub IsKnown : Ptr → Type 0
  IsKnown p = (q : Ptr) × (class_of p ≡ some q)

  -- the pointers of the first `n` classes, each resolved
  abbrev pub Resolves : ℕ → List Ptr → List Ptr → Type 0
  Resolves zero ps qs = qs ≡ []
  Resolves (suc n) [] qs = ⊥
  Resolves (suc n) (p ∷ ps) [] = ⊥
  Resolves (suc n) (p ∷ ps) (q ∷ qs) = (class_of p ≡ some q) × Resolves n ps qs

  abbrev pub ResolvesBlock : ℕ → Option (List Ptr) → Option (List Ptr) → Type 0
  ResolvesBlock n none o = o ≡ none
  ResolvesBlock n (some ps) none = ⊥
  ResolvesBlock n (some ps) (some qs) = Resolves n ps qs

module _ (zend : Zend) (classes : Ptr → Option ClassEntry) where
  entry-known :
      (copy : Ptr → Copy Ptr) (s : CopyState) (type : ClassType) (c : ClassEntry) (q : Ptr)
      → class_of_entry zend classes s.class_table type c ≡ some q
      → copy_entry zend copy type c s ≡ ok q s
  unfolding copy_entry
  entry-known copy s internal_class c q h = ground arith
  entry-known copy s user_class c q h = elim (Bool-cases (zend.is_anon_class c.ce_flags)) [
    | inl anon ↦ rw anon (ground arith)
    | inr named ↦
        let found : find s.class_table (zend.zend_string_tolower c.name) ≡ some q = ground arith in
        rw (named, found) refl
  ]

  -- Copying a known class changes nothing and gives the thread's.
  pub copy_ce-known :
      (fuel : ℕ) (p q : Ptr) (s : CopyState)
      → class_of zend classes s.class_table p ≡ some q
      → copy_ce zend classes (suc fuel) p s ≡ ok q s
  unfolding copy_ce
  copy_ce-known fuel p q s h = elim (Bool-cases (p == null)) [
    | inl nothing ↦ rw nothing (ground arith)
    | inr class ↦ elim (Option-cases (classes p)) [
      | inl missing ↦ absurd (ground arith)
      | inr (c, at) ↦
          let e : class_of_entry zend classes s.class_table c.type c ≡ some q = ground arith in
          rw (class, at) (entry-known (copy_ce zend classes fuel) s c.type c q e)
    ]
  ]

module _ (zend : Zend) (classes : Ptr → Option ClassEntry) (copy : Ptr → Copy Ptr) (s : CopyState)
    (known : (p q : Ptr) → class_of zend classes s.class_table p ≡ some q → copy p s ≡ ok q s) where
  pointers-known :
      (n : ℕ) (ps : List Ptr)
      → n ≤ length ps
      → All (IsKnown zend classes s.class_table) ps
      → (qs : List Ptr) × (copy_pointers copy n ps s ≡ ok qs s)
        × Resolves zend classes s.class_table n ps qs
  unfolding copy_pointers
  pointers-known zero ps h k = ([], refl, refl)
  pointers-known (suc n) [] h k = absurd (omega arith)
  pointers-known (suc n) (p ∷ ps) h k =
      let (q, e) = k.0 in
      let (qs, run, r) = pointers-known n ps (omega arith) k.1 in
      (q ∷ qs, rw (known p q e, run) refl, (e, r))

  pub interfaces-known :
      (n : ℕ) (o : Option (List Ptr))
      → NamesBlock (IsKnown zend classes s.class_table) n o
      → (o' : Option (List Ptr)) × (copy_interfaces copy o n s ≡ ok o' s)
        × ResolvesBlock zend classes s.class_table n o o'
  unfolding copy_interfaces
  interfaces-known n none k = (none, refl, refl)
  interfaces-known n (some ps) k =
      let (qs, run, r) = pointers-known n ps k.0 k.1 in (some qs, rw run refl, r)

  pub traits-known :
      (n : ℕ) (o : Option (List Ptr))
      → NamesBlock (IsKnown zend classes s.class_table) n o
      → (o' : Option (List Ptr)) × (copy_traits copy o n s ≡ ok o' s)
        × ResolvesBlock zend classes s.class_table n o o'
  unfolding copy_traits
  traits-known n none k = (none, refl, refl)
  traits-known n (some ps) k =
      let (qs, run, r) = pointers-known n ps k.0 k.1 in (some qs, rw run refl, r)

  from_last-known :
      {A : Type 0} (P : A → Type 0) (f : A → Copy A)
      → ((x : A) → P x → (y : A) × (f x s ≡ ok y s))
      → (xs : List A) → All P xs
      → (ys : List A) × (copy_from_last f xs s ≡ ok ys s) × (length ys ≡ length xs)
  unfolding copy_from_last
  from_last-known P f h [] a = ([], refl, refl)
  from_last-known P f h (x ∷ xs) a =
      let (ys, run, len) = from_last-known P f h xs a.1 in
      let (y, e) = h x a.0 in (y ∷ ys, rw (run, e) refl, ap suc len)

  reference-known :
      (r : MethodReference)
      → IsKnown zend classes s.class_table r.ce
      → (r' : MethodReference) × (copy_trait_method_reference zend copy r s ≡ ok r' s)
        × (class_of zend classes s.class_table r.ce ≡ some r'.ce)
  unfolding copy_trait_method_reference
  reference-known r (q, e) = (
    record {
      method_name = zend.zend_string_dup r.method_name;
      ce = q;
      class_name = copy_string zend r.class_name;
    },
    rw (known r.ce q e) refl,
    e,
  )

  alias-known :
      (t : TraitAlias)
      → IsKnown zend classes s.class_table t.trait_method.ce
      → (t' : TraitAlias) × (copy_trait_alias zend copy t s ≡ ok t' s)
  unfolding copy_trait_alias
  alias-known t k =
      let (r, e, _) = reference-known t.trait_method k in
      (
        record { trait_method = r; alias = copy_string zend t.alias; modifiers = t.modifiers },
        rw e refl,
      )

  excluded-known :
      (o : Option (List Excluded))
      → NamesExcluded (IsKnown zend classes s.class_table) o
      → (o' : Option (List Excluded)) × (copy_excluded zend copy o s ≡ ok o' s)
  unfolding copy_excluded
  excluded-known none k = (none, refl)
  excluded-known (some []) k = absurd k
  excluded-known (some (e ∷ rest)) (q, h) = (
    some (record { ce = q; class_name = zend.zend_string_dup e.class_name } ∷ []),
    rw (known e.ce q h) refl,
  )

  precedence-known :
      (t : TraitPrecedence)
      → NamesPrecedence (IsKnown zend classes s.class_table) t
      → (t' : TraitPrecedence) × (copy_trait_precedence zend copy t s ≡ ok t' s)
  unfolding copy_trait_precedence
  precedence-known t k =
      let (r, e, _) = reference-known t.trait_method k.0 in
      let (x, e') = excluded-known t.exclude_from_classes k.1 in
      (record { trait_method = r; exclude_from_classes = x }, rw (e, e') refl)

  pub aliases-known :
      (o : Option (List TraitAlias))
      → NamesAliases (IsKnown zend classes s.class_table) o
      → (o' : Option (List TraitAlias)) × (copy_trait_aliases zend copy o s ≡ ok o' s)
  unfolding copy_trait_aliases
  aliases-known none k = (none, refl)
  aliases-known (some ts) k =
      let (ts', run, len) = from_last-known _ (copy_trait_alias zend copy) alias-known ts k in
      (some ts', rw run refl)

  pub precedences-known :
      (o : Option (List TraitPrecedence))
      → NamesPrecedences (IsKnown zend classes s.class_table) o
      → (o' : Option (List TraitPrecedence)) × (copy_trait_precedences zend copy o s ≡ ok o' s)
  unfolding copy_trait_precedences
  precedences-known none k = (none, refl)
  precedences-known (some ts) k =
      let (ts', run, len) =
        from_last-known _ (copy_trait_precedence zend copy) precedence-known ts k in
      (some ts', rw run refl)

-- ===== src/Copy/Local.antt =====
-- The copies of src/ph_copy.c leave the memory of the main thread: values and tables of values.
use phactor.Base.{
  ℕ, suc, ◌≡◌, ◌≢◌, refl, ap, Bool, true, false, none, some, List, [], ◌∷◌, ◌++◌, length,
  Bool-cases, inl, inr,
}
use phactor.Copy.Tables.{All}
use phactor.Copy.Values.{copy_zval, copy_zvals}
use phactor.Copy.Zend.{
  Owner, shared, main_thread, Zval, plain, null_value, string, constant, array, constant_ast,
  object, resource, reference, Zend, IsZend, is_shared,
}

-- Nothing that the value counts, or leads to, lies in the memory of the main thread.
abbrev pub IsLocal : Zval → Type 0
IsLocal (plain type bits) = Unit {0}
IsLocal null_value = Unit {0}
IsLocal (string s) = s.owner ≢ main_thread
IsLocal (constant s) = s.owner ≢ main_thread
IsLocal (array a) = a.owner ≢ main_thread
IsLocal (constant_ast a) = a.owner ≢ main_thread
IsLocal (object p) = ⊥
IsLocal (resource p) = ⊥
IsLocal (reference z) = ⊥

-- What `copy_zval_table` can copy: also of no class with a default that is a constant expression.
abbrev pub is_copyable : Zval → Bool
is_copyable (constant s) = is_shared s.owner
is_copyable (constant_ast a) = false
is_copyable (resource p) = false
is_copyable (reference z) = false
is_copyable _ = true

-- What `copy_static_variables` can copy.
abbrev pub is_static_copyable : Zval → Bool
is_static_copyable (resource p) = false
is_static_copyable (reference z) = is_static_copyable z
is_static_copyable _ = true

-- PHP's numbers of the types
abbrev pub type_of : Zval → ℕ
type_of (plain type bits) = type
type_of null_value = 1
type_of (string s) = 6
type_of (array a) = 7
type_of (object p) = 8
type_of (resource p) = 9
type_of (reference z) = 10
type_of (constant s) = 11
type_of (constant_ast a) = 12

pub shared-ne_main : (o : Owner) → is_shared o ≡ true → o ≢ main_thread
shared-ne_main shared h e = cc
shared-ne_main main_thread h e = cc
shared-ne_main Owner.this_thread h e = cc

module _ {zend : Zend} (laws : IsZend zend) where
  copy_zval-IsLocal :
      (z : Zval) → is_copyable z ≡ true → (z' : Zval) × (copy_zval zend z ≡ some z') × IsLocal z'
  unfolding copy_zval
  copy_zval-IsLocal (plain type bits) h = (plain type bits, refl, tt)
  copy_zval-IsLocal null_value h = (null_value, refl, tt)
  copy_zval-IsLocal (string s) h = elim (Bool-cases (is_shared s.owner)) [
    | inl e ↦ (string s, rw e refl, shared-ne_main s.owner e)
    | inr e ↦ (string (zend.zend_string_dup s), rw e refl, laws.dup_owner s)
  ]
  copy_zval-IsLocal (constant s) h = (constant s, rw h refl, shared-ne_main s.owner h)
  copy_zval-IsLocal (array a) h = elim (Bool-cases (is_shared a.owner)) [
    | inl e ↦ (array a, rw e refl, shared-ne_main a.owner e)
    | inr e ↦ (array (zend.ph_zend_array_dup a), rw e refl, laws.array_owner a)
  ]
  copy_zval-IsLocal (constant_ast a) h = cc
  copy_zval-IsLocal (object p) h = (null_value, refl, tt)
  copy_zval-IsLocal (resource p) h = cc
  copy_zval-IsLocal (reference z) h = cc

  copy_zval-none : (z : Zval) → is_copyable z ≡ false → copy_zval zend z ≡ none
  unfolding copy_zval
  copy_zval-none (plain type bits) h = cc
  copy_zval-none null_value h = cc
  copy_zval-none (string s) h = cc
  copy_zval-none (constant s) h = rw h refl
  copy_zval-none (array a) h = cc
  copy_zval-none (constant_ast a) h = refl
  copy_zval-none (object p) h = cc
  copy_zval-none (resource p) h = refl
  copy_zval-none (reference z) h = refl

  pub copy_zvals-IsLocal :
      (zs : List Zval)
      → All (λ z. is_copyable z ≡ true) zs
      → (zs' : List Zval) × (copy_zvals zend zs ≡ some zs')
        × (length zs' ≡ length zs)
        × All IsLocal zs'
  unfolding copy_zvals
  copy_zvals-IsLocal [] h = ([], refl, refl, tt)
  copy_zvals-IsLocal (z ∷ zs) h =
      let (z', e, l) = copy_zval-IsLocal z h.0 in
      let (zs', es, len, ls) = copy_zvals-IsLocal zs h.1 in
      (z' ∷ zs', rw (e, es) refl, ap suc len, (l, ls))

  -- The copy of a table of values fails on the first value that is no candidate.
  pub copy_zvals-none :
      (before after : List Zval) (z : Zval)
      → All (λ z. is_copyable z ≡ true) before
      → is_copyable z ≡ false
      → copy_zvals zend (before ++ z ∷ after) ≡ none
  unfolding copy_zvals
  copy_zvals-none [] after z h bad = rw (copy_zval-none z bad) refl
  copy_zvals-none (x ∷ before) after z h bad =
      let (x', e, l) = copy_zval-IsLocal x h.0 in
      rw (e, copy_zvals-none before after z h.1 bad) refl

-- ===== src/Copy/Statics.antt =====
-- The copies of static variables by src/ph_copy.c: what they hold, and whose memory they are.
use phactor.Base.{
  ℕ, List, map, if◌then◌else◌, ◌≡◌, ◌≢◌, refl, sym, ap, ◌∙◌, true, some, [], ◌∷◌, ◌++◌, Bool-cases,
  inl, inr,
}
use mathlib.Core.List.{append-nil}
use mathlib.Core.Path.{ap₂}
use phactor.Copy.Tables.{
  All, All-append, IsFresh, IsDistinct, add-append, find-val, IsFresh-append, IsFresh-nil, keys,
  keys-snoc,
}
use phactor.Copy.Values.{copy_static_variable, copy_static_loop, copy_static_variables}
use phactor.Copy.Zend.{
  main_thread, ZendString, Zval, plain, null_value, string, constant, array, constant_ast, object,
  resource, reference, Zend, IsZend, is_shared, Table,
}
use phactor.Copy.Local.{IsLocal, is_static_copyable, type_of, shared-ne_main}

abbrev string_type : ℕ
string_type = 6

-- the type of a value, with the bits or bytes of a scalar, a string and a constant
unfoldable pub seen : Zval → ℕ × List ℕ
seen (plain type bits) = (type, bits ∷ [])
seen (string s) = (string_type, s.val)
seen (constant s) = (type_of (constant s), s.val)
seen z = (type_of z, [])

-- What its copy looks like: a reference is the value behind it, an object is NULL, and a constant
-- whose name is not interned is a string.
unfoldable pub seen_copy : Zval → ℕ × List ℕ
unfolding seen
seen_copy (reference z) = seen_copy z
seen_copy (object p) = seen null_value
seen_copy (constant s) = if is_shared s.owner then seen (constant s) else seen (string s)
seen_copy z = seen z

-- with its name
abbrev pub seen_entry : ZendString × Zval → List ℕ × (ℕ × List ℕ)
seen_entry (name, z) = (name.val, seen z)

abbrev pub seen_copy_entry : ZendString × Zval → List ℕ × (ℕ × List ℕ)
seen_copy_entry (name, z) = (name.val, seen_copy z)

map-snoc :
    {A B : Type 0} (f : A → B) (xs : List A) (x : A) (ys : List B)
    → map f (xs ++ x ∷ []) ++ ys ≡ map f xs ++ f x ∷ ys
map-snoc f [] x ys = refl
map-snoc f (y ∷ xs) x ys = ap (◌∷◌ (f y)) (map-snoc f xs x ys)

module _ {zend : Zend} (laws : IsZend zend) where
  copy_static_variable-IsLocal :
      (z : Zval)
      → is_static_copyable z ≡ true
      → (z' : Zval) × (copy_static_variable zend z ≡ some z') × IsLocal z'
  unfolding copy_static_variable
  copy_static_variable-IsLocal (plain type bits) h = (plain type bits, refl, tt)
  copy_static_variable-IsLocal null_value h = (null_value, refl, tt)
  copy_static_variable-IsLocal (string s) h = elim (Bool-cases (is_shared s.owner)) [
    | inl e ↦ (string s, rw e refl, shared-ne_main s.owner e)
    | inr e ↦ (string (zend.zend_string_dup s), rw e refl, laws.dup_owner s)
  ]
  copy_static_variable-IsLocal (constant s) h = elim (Bool-cases (is_shared s.owner)) [
    | inl e ↦ (constant s, rw e refl, shared-ne_main s.owner e)
    | inr e ↦ (string (zend.zend_string_dup s), rw e refl, laws.dup_owner s)
  ]
  copy_static_variable-IsLocal (array a) h = elim (Bool-cases (is_shared a.owner)) [
    | inl e ↦ (array a, rw e refl, shared-ne_main a.owner e)
    | inr e ↦ (array (zend.ph_zend_array_dup a), rw e refl, laws.array_owner a)
  ]
  copy_static_variable-IsLocal (constant_ast a) h =
      (constant_ast (zend.ph_zend_ast_copy a), refl, laws.ast_owner a)
  copy_static_variable-IsLocal (object p) h = (null_value, refl, tt)
  copy_static_variable-IsLocal (resource p) h = cc
  copy_static_variable-IsLocal (reference z) h = copy_static_variable-IsLocal z h

  -- A table that holds no memory of the main thread, by the keys that it holds.
  abbrev IsLocalTable : Table Zval → Type 0
  IsLocalTable t = All (λ e. (e.0.owner ≢ main_thread) × IsLocal e.1) t

  copy_static_loop-local :
      (old new : Table Zval)
      → All (λ e. is_static_copyable e.1 ≡ true) old
      → IsDistinct old
      → IsFresh old new
      → IsLocalTable new
      → (t : Table Zval) × (copy_static_loop zend old new ≡ some t)
        × IsLocalTable t
        × (keys t ≡ keys new ++ keys old)
  unfolding copy_static_loop
  copy_static_loop-local [] new h d f l = (new, refl, l, sym (append-nil _))
  copy_static_loop-local ((key, value) ∷ old) new h d f l =
      let (z', e, local) = copy_static_variable-IsLocal value h.0 in
      let key' = zend.zend_string_dup key in
      let same = laws.dup_val key in
      let added = add-append new key' z' (find-val new key' key same ∙ f.0) in
      let (t, run, lt, ks) =
        copy_static_loop-local old (new ++ (key', z') ∷ []) h.1 d.1
          (IsFresh-append old new key' z' (rw same d.0) f.1)
          (All-append _ new ((key', z') ∷ []) l ((laws.dup_owner key, local), tt)) in
      (
        t,
        rw (e, added) run,
        lt,
        ks ∙ keys-snoc new key' z' (keys old) ∙ ap (λ v. keys new ++ v ∷ keys old) same,
      )

  -- The copy of static variables with different names, none of which is a resource, returns: it
  -- has the same names in the same order, and neither a name nor a value lies in the main
  -- thread's memory.
  pub copy_static_variables-IsLocal :
      (old : Table Zval)
      → All (λ e. is_static_copyable e.1 ≡ true) old
      → IsDistinct old
      → (t : Table Zval) × (copy_static_variables zend (some old) ≡ some (some t))
        × All (λ e. (e.0.owner ≢ main_thread) × IsLocal e.1) t
        × (keys t ≡ keys old)
  unfolding copy_static_variables
  copy_static_variables-IsLocal old h d =
      let (t, e, l, k) = copy_static_loop-local old [] h d (IsFresh-nil Zval old) tt in
      (t, rw e refl, l, k)

  copy_static_variable-seen :
      (z : Zval)
      → is_static_copyable z ≡ true
      → (z' : Zval) × (copy_static_variable zend z ≡ some z') × (seen z' ≡ seen_copy z)
  unfolding copy_static_variable seen seen_copy
  copy_static_variable-seen (plain type bits) h = (plain type bits, refl, refl)
  copy_static_variable-seen null_value h = (null_value, refl, refl)
  copy_static_variable-seen (string s) h = elim (Bool-cases (is_shared s.owner)) [
    | inl e ↦ (string s, rw e refl, refl)
    | inr e ↦
        (string (zend.zend_string_dup s), rw e refl, ap (λ v. (string_type, v)) (laws.dup_val s))
  ]
  copy_static_variable-seen (constant s) h = elim (Bool-cases (is_shared s.owner)) [
    | inl e ↦ (constant s, rw e refl, rw e refl)
    | inr e ↦ (
      string (zend.zend_string_dup s),
      rw e refl,
      ap (λ v. (string_type, v)) (laws.dup_val s) ∙ rw e refl,
    )
  ]
  copy_static_variable-seen (array a) h = elim (Bool-cases (is_shared a.owner)) [
    | inl e ↦ (array a, rw e refl, refl)
    | inr e ↦ (array (zend.ph_zend_array_dup a), rw e refl, refl)
  ]
  copy_static_variable-seen (constant_ast a) h =
      (constant_ast (zend.ph_zend_ast_copy a), refl, refl)
  copy_static_variable-seen (object p) h = (null_value, refl, refl)
  copy_static_variable-seen (resource p) h = cc
  copy_static_variable-seen (reference z) h = copy_static_variable-seen z h

  copy_static_loop-seen :
      (old new : Table Zval)
      → All (λ e. is_static_copyable e.1 ≡ true) old
      → IsDistinct old
      → IsFresh old new
      → (t : Table Zval) × (copy_static_loop zend old new ≡ some t)
        × (map seen_entry t ≡ map seen_entry new ++ map seen_copy_entry old)
  unfolding copy_static_loop
  copy_static_loop-seen [] new h d f = (new, refl, sym (append-nil _))
  copy_static_loop-seen ((key, value) ∷ old) new h d f =
      let (z', e, looks) = copy_static_variable-seen value h.0 in
      let key' = zend.zend_string_dup key in
      let same = laws.dup_val key in
      let added = add-append new key' z' (find-val new key' key same ∙ f.0) in
      let (t, run, all) =
        copy_static_loop-seen old (new ++ (key', z') ∷ []) h.1 d.1
          (IsFresh-append old new key' z' (rw same d.0) f.1) in
      (
        t,
        rw (e, added) run,
        all
            ∙ map-snoc seen_entry new (key', z') (map seen_copy_entry old)
            ∙ ap₂ (λ k v. map seen_entry new ++ (k, v) ∷ map seen_copy_entry old) same looks,
      )

  -- The copy of static variables with different names, none of which is a resource, returns,
  -- with the same names in the same order. Each value has the type of the value behind its
  -- references, with the bits of a scalar and the bytes of a string or constant, but for two:
  -- an object is NULL, and a constant whose name is not interned is a string of the name's
  -- bytes.
  pub copy_static_variables-Copies :
      (old : Table Zval)
      → All (λ e. is_static_copyable e.1 ≡ true) old
      → IsDistinct old
      → (t : Table Zval) × (copy_static_variables zend (some old) ≡ some (some t))
        × (map seen_entry t ≡ map seen_copy_entry old)
  unfolding copy_static_variables
  copy_static_variables-Copies old h d =
      let (t, e, all) = copy_static_loop-seen old [] h d (IsFresh-nil Zval old) in
      (t, rw e refl, all)

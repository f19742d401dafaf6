-- ===== src/Copy/Functions/Tables.antt =====
-- `copy_functions` of src/ph_copy.c: the table of the copies.
use phactor.Base.{
  ◌≡◌, ◌≢◌, refl, ap, ◌∙◌, true, false, some, [], ◌∷◌, ◌++◌, if◌then◌else◌, Ptr, Bool-cases, inl,
  inr,
}
use mathlib.Core.List.{append-nil, append_assoc}
use phactor.Copy.Functions.{
  ZendFunction, internal_function, user_function, copy_function, is_copied, copy_entry,
  copy_functions,
}
use phactor.Copy.Functions.Local.{copy_zend_op_array-local}
use phactor.Copy.Functions.Compiled.{IsLocalNames, IsLocalOp, IsCompiled, IsCopy}
use phactor.Copy.Tables.{All, IsFresh, IsDistinct, IsFresh-append, add-append, find-val}
use phactor.Copy.Zend.{main_thread, ZendString, Zend, IsZend, Table, add}

-- the functions that are copied into the class, or outside one
abbrev pub selected : Ptr → Table ZendFunction → Table ZendFunction
selected new_ce [] = []
selected new_ce ((name, f) ∷ old) =
    if is_copied new_ce f then (name, f) ∷ selected new_ce old else selected new_ce old

abbrev pub IsCompiledFunction : Zend → ZendFunction → Type 0
IsCompiledFunction zend (internal_function bits scope) = Unit {0}
IsCompiledFunction zend (user_function op) = IsCompiled zend op

-- An internal function is copied as it is; a user's function is copied into this thread's memory.
abbrev pub IsFunctionCopy : Ptr → ZendFunction → ZendFunction → Type 0
IsFunctionCopy new_ce (internal_function bits scope) new = new ≡ internal_function bits scope
IsFunctionCopy new_ce (user_function old) (user_function new) =
    IsCopy new_ce old new × IsLocalOp new
IsFunctionCopy new_ce (user_function old) (internal_function bits scope) = ⊥

-- one copy for each function, in the same order and under the same name
abbrev pub Copies : Ptr → Table ZendFunction → Table ZendFunction → Type 0
Copies new_ce [] [] = Unit {0}
Copies new_ce [] (e ∷ new) = ⊥
Copies new_ce (e ∷ old) [] = ⊥
Copies new_ce ((k, f) ∷ old) ((k', f') ∷ new) =
    (k'.val ≡ k.val) × (k'.owner ≢ main_thread) × IsFunctionCopy new_ce f f' × Copies new_ce old new

module _ {zend : Zend} (laws : IsZend zend) (new_ce : Ptr) where
  copy_function-IsFunctionCopy :
      (f : ZendFunction) (names : Table ZendString)
      → IsCompiledFunction zend f
      → IsLocalNames names
      → (f' : ZendFunction) × (names' : Table ZendString) × (copy_function zend f new_ce names
          ≡ some (f', names'))
        × IsFunctionCopy new_ce f f'
        × IsLocalNames names'
  unfolding copy_function
  copy_function-IsFunctionCopy (internal_function bits scope) names c l =
      (internal_function bits scope, names, refl, refl, l)
  copy_function-IsFunctionCopy (user_function op) names c l =
      let (new, names', e, local, copy, l') = copy_zend_op_array-local laws op new_ce names c l in
      (user_function new, names', rw e refl, (copy, local), l')

  skip :
      (name : ZendString) (g : ZendFunction) (new : Table ZendFunction) (names : Table ZendString)
      → is_copied new_ce g ≡ false
      → copy_entry zend name g new_ce new names ≡ some (new, names)
  unfolding copy_entry
  skip name g new names h = rw h refl

  take_it :
      (name : ZendString) (g : ZendFunction) (new : Table ZendFunction) (names : Table ZendString)
      {g' : ZendFunction} {names' : Table ZendString}
      → is_copied new_ce g ≡ true
      → copy_function zend g new_ce names ≡ some (g', names')
      → copy_entry zend name g new_ce new names
        ≡ some (add new (zend.zend_string_dup name) g', names')
  unfolding copy_entry
  take_it name g new names h e = rw (h, e) refl

  pub copy_functions-Copies :
      (new old : Table ZendFunction) (names : Table ZendString)
      → All (λ e. IsCompiledFunction zend e.1) old
      → IsDistinct (selected new_ce old)
      → IsFresh (selected new_ce old) new
      → IsLocalNames names
      → (added : Table ZendFunction) × (names' : Table ZendString) × (copy_functions zend new old
            new_ce names
          ≡ some (new ++ added, names'))
        × Copies new_ce (selected new_ce old) added
        × IsLocalNames names'
  unfolding copy_functions
  copy_functions-Copies new [] names c d f l = ([], names, rw (append-nil new) refl, tt, l)
  copy_functions-Copies new ((name, g) ∷ old) names c d f l =
      elim (Bool-cases (is_copied new_ce g)) [
        | inr skipped ↦
            let d' : IsDistinct (selected new_ce old) = rw skipped at d in
            let f' : IsFresh (selected new_ce old) new = rw skipped at f in
            let (added, names', e, cs, l') = copy_functions-Copies new old names c.1 d' f' l in
            (added, names', rw (skip name g new names skipped) e, rw skipped cs, l')
        | inl taken ↦
            let d' : IsDistinct ((name, g) ∷ selected new_ce old) = rw taken at d in
            let f' : IsFresh ((name, g) ∷ selected new_ce old) new = rw taken at f in
            let (g', names1, e1, copy, l1) = copy_function-IsFunctionCopy g names c.0 l in
            let key = zend.zend_string_dup name in
            let same = laws.dup_val name in
            let put = add-append new key g' (find-val new key name same ∙ f'.0) in
            let (added, names2, e, cs, l') =
              copy_functions-Copies (new ++ (key, g') ∷ []) old names1 c.1 d'.1
                (IsFresh-append (selected new_ce old) new key g' (rw same d'.0) f'.1) l1 in
            (
              (key, g') ∷ added,
              names2,
              rw (take_it name g new names taken e1, put)
                  (e ∙ ap (λ t. some (t, names2)) (append_assoc new ((key, g') ∷ []) added)),
              rw taken (same, laws.dup_owner name, copy, cs),
              l',
            )
      ]

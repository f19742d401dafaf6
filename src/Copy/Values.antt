-- ===== src/Copy/Values.antt =====
-- src/ph_copy.c, `copy_zval_table` and `copy_static_variables`. `none` is a failing assertion.
use phactor.Base.{Option, none, some, List, [], ◌∷◌, if◌then◌else◌}
use phactor.Copy.Zend.{
  Zval, null_value, string, constant, array, constant_ast, object, reference, Zend, is_refcounted,
  Table, add,
}

infixl 5 ◌>>=◌
abbrev pub ◌>>=◌ : {A B : Type 0} → Option A → (A → Option B) → Option B
none >>= f = none
some a >>= f = f a

-- the loop over references
unfoldable pub dereference : Zval → Zval
dereference (reference z) = dereference z
dereference z = z

module _ (zend : Zend) where
  open zend use {zend_string_dup, ph_zend_array_dup, ph_zend_ast_copy}

  -- the switch of `copy_zval_table` on a counted value
  copy_counted : Zval → Option Zval
  copy_counted (string s) = some (string (zend_string_dup s))
  copy_counted (array a) = some (array (ph_zend_array_dup a))
  copy_counted (object p) = some null_value
  copy_counted _ = none

  unfoldable pub copy_zval : Zval → Option Zval
  unfolding copy_counted
  copy_zval z = if is_refcounted z then copy_counted z else some z

  unfoldable pub copy_zvals : List Zval → Option (List Zval)
  copy_zvals [] = some []
  copy_zvals (z ∷ zs) = do z' ← copy_zval z; zs' ← copy_zvals zs; some (z' ∷ zs')

  unfoldable pub copy_zval_table : Option (List Zval) → Option (Option (List Zval))
  unfolding copy_zvals
  copy_zval_table none = some none
  copy_zval_table (some zs) = do zs' ← copy_zvals zs; some (some zs')

  -- the switch of `copy_static_variables`; `ZVAL_NEW_STR` makes a string, also of a constant's name
  copy_static_counted : Zval → Option Zval
  copy_static_counted (string s) = some (string (zend_string_dup s))
  copy_static_counted (array a) = some (array (ph_zend_array_dup a))
  copy_static_counted (constant s) = some (string (zend_string_dup s))
  copy_static_counted (constant_ast a) = some (constant_ast (ph_zend_ast_copy a))
  copy_static_counted (object p) = some null_value
  copy_static_counted _ = none

  copy_dereferenced : Zval → Option Zval
  unfolding copy_static_counted
  copy_dereferenced z = if is_refcounted z then copy_static_counted z else some z

  unfoldable pub copy_static_variable : Zval → Option Zval
  unfolding dereference copy_dereferenced
  copy_static_variable z = copy_dereferenced (dereference z)

  -- the loop, over what is left of the old table
  unfoldable pub copy_static_loop : Table Zval → Table Zval → Option (Table Zval)
  unfolding copy_static_variable
  copy_static_loop [] new = some new
  copy_static_loop ((key, value) ∷ rest) new = do
    copy ← copy_static_variable value
    copy_static_loop rest (add new (zend_string_dup key) copy)

  unfoldable pub copy_static_variables : Option (Table Zval) → Option (Option (Table Zval))
  unfolding copy_static_loop
  copy_static_variables none = some none
  copy_static_variables (some old) = do new ← copy_static_loop old []; some (some new)

-- ===== src/Copy/Globals.antt =====
-- src/ph_copy.c, what `copy_executor_globals` copies beside functions and classes: the included
-- files, the constants and the settings. Only the rounds of the loops change the tables.
pub mod Settings
pub mod Context
use phactor.Base.{
  ℕ, Bool, true, false, Option, none, some, List, [], ◌∷◌, ◌++◌, ◌==◌, if◌then◌else◌, Ptr, null,
}
use phactor.Copy.Classes.Defs.{ClassEntry, CopyState, CopyOutcome, ok, fault, Copy, ◌>>=◌, pure}
use phactor.Copy.Classes.{copy_ces}
use phactor.Copy.Functions.{ZendFunction, copy_functions}
use phactor.Copy.Zend.{ZendString, Zval, Zend, bytes_eq, Table, find, add}

pub record ZendConstant : Type 0 where
  pub value : Zval
  pub name : ZendString
  pub flags : ℕ
  pub module_number : ℕ

-- An entry of `ini_directives`; `on_modify` and its arguments are PHP's.
pub record IniEntry : Type 0 where
  pub value : Option ZendString
  pub orig_value : Option ZendString
  pub modifiable : ℕ
  pub orig_modifiable : ℕ
  pub modified : Bool

-- the bytes of a C string before its NUL
abbrev pub c_string : List ℕ → List ℕ
c_string [] = []
c_string (x ∷ xs) = if x == 0 then [] else x ∷ c_string xs

-- `strcmp` gives 0
abbrev pub strcmp_eq : List ℕ → List ℕ → Bool
strcmp_eq a b = bytes_eq (c_string a) (c_string b)

-- a write through the pointer that a search gave
unfoldable pub update_found : {A : Type 0} → Table A → ZendString → A → Table A
update_found [] key a = []
update_found ((k, v) ∷ t) key a =
    if bytes_eq k.val key.val then (k, a) ∷ t else (k, v) ∷ update_found t key a

module _ (zend : Zend) where
  open zend use {zend_string_dup, zend_string_tolower, ph_zval_dup}

  -- `zend_hash_add_empty_element`
  unfoldable pub copy_included_files : Table (Unit {0}) → List ZendString → Table (Unit {0})
  copy_included_files new [] = new
  copy_included_files new (filename ∷ rest) =
      copy_included_files (add new (zend_string_dup filename) tt) rest

  unfoldable pub copy_constant : ZendConstant → ZendConstant
  copy_constant old = record old { value = ph_zval_dup old.value }

  -- `zend_hash_exists`
  exists : {A : Type 0} → Option A → Bool
  exists none = false
  exists (some a) = true

  module _ (zend_register_constant : Table ZendConstant → ZendConstant → Table ZendConstant) where
    unfoldable pub copy_global_constant :
        Table ZendConstant → ZendString → ZendConstant → Table ZendConstant
    unfolding exists copy_constant
    copy_global_constant new name old =
        if exists (find new name)
        then new
        else if exists (find new (zend_string_tolower name))
        then new
        else zend_register_constant new (copy_constant old)

    unfoldable pub copy_global_constants :
        Table ZendConstant → Table ZendConstant → Table ZendConstant
    unfolding copy_global_constant
    copy_global_constants new [] = new
    copy_global_constants new ((name, old) ∷ rest) =
        copy_global_constants (copy_global_constant new name old) rest

  -- The entry as the thread's first change leaves it.
  unfoldable pub mark_modified : IniEntry → IniEntry
  mark_modified e =
      if e.modified
      then e
      else record e { orig_value = e.value; orig_modifiable = e.modifiable; modified = true }

  -- with the value of the main thread; `modifiable` is as it was before the call of `on_modify`
  unfoldable pub set_value : IniEntry → ZendString → IniEntry
  unfolding mark_modified
  set_value e value = record (mark_modified e) {
    value = some (zend_string_dup value);
    modifiable = e.modifiable;
  }

  -- a round of `copy_ini_directives` with the entry that was found, up to the first `continue`
  unfoldable pub copy_ini_value : IniEntry → Option ZendString → Option ZendString → IniEntry
  unfolding set_value
  copy_ini_value new none value = new
  copy_ini_value new (some old_value) none = new
  copy_ini_value new (some old_value) (some new_value) =
      if strcmp_eq old_value.val new_value.val then new else set_value new old_value

  unfoldable pub copy_ini_entry : IniEntry → IniEntry → IniEntry
  unfolding copy_ini_value
  copy_ini_entry old new = copy_ini_value new old.value new.value

  ini_round : Table IniEntry → ZendString → IniEntry → Option IniEntry → Table IniEntry
  unfolding copy_ini_entry update_found
  ini_round new name old none = new
  ini_round new name old (some e) = update_found new name (copy_ini_entry old e)

  unfoldable pub copy_ini_directives : Table IniEntry → Table IniEntry → Table IniEntry
  unfolding ini_round
  copy_ini_directives new [] = new
  copy_ini_directives new ((name, old) ∷ rest) =
      copy_ini_directives (ini_round new name old (find new name)) rest

-- What a thread is given, and what the main thread has.
pub record Globals : Type 0 where
  pub included_files : Table (Unit {0})
  pub function_table : Table ZendFunction
  pub classes : CopyState
  pub zend_constants : Table ZendConstant
  pub ini_directives : Table IniEntry

pub record MainGlobals : Type 0 where
  pub included_files : List ZendString
  pub function_table : Table ZendFunction
  pub class_table : List Ptr
  pub class_memory : Ptr → Option ClassEntry
  pub zend_constants : Table ZendConstant
  pub ini_directives : Table IniEntry

module _ (zend : Zend)
    (zend_register_constant : Table ZendConstant → ZendConstant → Table ZendConstant)
    (main : MainGlobals) (fuel : ℕ) where
  after_classes : Globals → CopyOutcome (Unit {0}) → Option Globals
  after_classes g (ok _ s) = some (record g {
    classes = s;
    zend_constants =
        copy_global_constants zend zend_register_constant g.zend_constants main.zend_constants;
    ini_directives = copy_ini_directives zend g.ini_directives main.ini_directives;
  })
  after_classes g _ = none

  after_functions : Globals → Option (Table ZendFunction × Table ZendString) → Option Globals
  unfolding after_classes
  after_functions g none = none
  after_functions g (some (functions, names)) =
      after_classes (record g { function_table = functions })
        (copy_ces zend main.class_memory fuel main.class_table
          (record g.classes { op_array_file_names = names }))

  -- `none` where an assertion fails, a pointer dangles or the fuel is used up
  unfoldable pub copy_executor_globals : Globals → Option Globals
  unfolding after_functions
  copy_executor_globals g =
      let files = copy_included_files zend g.included_files main.included_files in
      after_functions (record g { included_files = files })
        (copy_functions zend g.function_table main.function_table null
          g.classes.op_array_file_names)

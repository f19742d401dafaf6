-- ===== src/Copy/Classes/Members.antt =====
-- src/ph_copy.c, what `create_new_ce` copies of a class that names no other class: its tables of
-- values, methods, properties and constants.
use phactor.Base.{ℕ, Option, some, List, [], ◌∷◌, map, Ptr}
use phactor.Copy.Classes.Defs.{PropertyInfo, ClassConstant, ClassEntry}
use phactor.Copy.Functions.{ZendFunction, copy_string, copy_functions}
use phactor.Copy.Values.{◌>>=◌, copy_zval_table}
use phactor.Copy.Zend.{shared, ZendString, Zend, Table, find, add}

-- the names in the order of `create_new_ce`
abbrev pub magic_names : List (List ℕ)
magic_names =
    (b'_' ∷ b'_' ∷ b'c' ∷ b'o' ∷ b'n' ∷ b's' ∷ b't' ∷ b'r' ∷ b'u' ∷ b'c' ∷ b't' ∷ [])
    ∷ (b'_' ∷ b'_' ∷ b'd' ∷ b'e' ∷ b's' ∷ b't' ∷ b'r' ∷ b'u' ∷ b'c' ∷ b't' ∷ [])
    ∷ (b'_' ∷ b'_' ∷ b'c' ∷ b'l' ∷ b'o' ∷ b'n' ∷ b'e' ∷ [])
    ∷ (b'_' ∷ b'_' ∷ b'g' ∷ b'e' ∷ b't' ∷ [])
    ∷ (b'_' ∷ b'_' ∷ b's' ∷ b'e' ∷ b't' ∷ [])
    ∷ (b'_' ∷ b'_' ∷ b'u' ∷ b'n' ∷ b's' ∷ b'e' ∷ b't' ∷ [])
    ∷ (b'_' ∷ b'_' ∷ b'i' ∷ b's' ∷ b's' ∷ b'e' ∷ b't' ∷ [])
    ∷ (b'_' ∷ b'_' ∷ b'c' ∷ b'a' ∷ b'l' ∷ b'l' ∷ [])
    ∷ (b'_' ∷ b'_' ∷ b'c' ∷ b'a' ∷ b'l' ∷ b'l' ∷ b's' ∷ b't' ∷ b'a' ∷ b't' ∷ b'i' ∷ b'c' ∷ [])
    ∷ (b'_' ∷ b'_' ∷ b't' ∷ b'o' ∷ b's' ∷ b't' ∷ b'r' ∷ b'i' ∷ b'n' ∷ b'g' ∷ [])
    ∷ (b'_' ∷ b'_' ∷ b'd' ∷ b'e' ∷ b'b' ∷ b'u' ∷ b'g' ∷ b'i' ∷ b'n' ∷ b'f' ∷ b'o' ∷ [])
    ∷ (b's' ∷ b'e' ∷ b'r' ∷ b'i' ∷ b'a' ∷ b'l' ∷ b'i' ∷ b'z' ∷ b'e' ∷ [])
    ∷ (b'u' ∷ b'n' ∷ b's' ∷ b'e' ∷ b'r' ∷ b'i' ∷ b'a' ∷ b'l' ∷ b'i' ∷ b'z' ∷ b'e' ∷ [])
    ∷ []

-- `zend_hash_str_find_ptr`
unfoldable pub set_function_from_name : Table ZendFunction → List ℕ → Option ZendFunction
set_function_from_name function_table name =
    find function_table (record { val = name; owner = shared })

module _ (zend : Zend) where
  open zend use {ph_zval_dup}

  unfoldable pub copy_class_constant : ClassConstant → Ptr → ClassConstant
  copy_class_constant old new_ce = record {
    value = ph_zval_dup old.value;
    access_flags = old.access_flags;
    doc_comment = copy_string zend old.doc_comment;
    ce = new_ce;
  }

  unfoldable pub copy_class_constants :
      Table ClassConstant → Table ClassConstant → Ptr → Table ClassConstant
  unfolding copy_class_constant
  copy_class_constants new [] new_ce = new
  copy_class_constants new ((key, old) ∷ rest) new_ce =
      copy_class_constants (add new key (copy_class_constant old new_ce)) rest new_ce

  unfoldable pub copy_property_info : PropertyInfo → Ptr → PropertyInfo
  copy_property_info old new_ce = record old {
    doc_comment = copy_string zend old.doc_comment;
    ce = new_ce;
  }

  unfoldable pub copy_properties_info :
      Table PropertyInfo → Table PropertyInfo → Ptr → Table PropertyInfo
  unfolding copy_property_info
  copy_properties_info new [] new_ce = new
  copy_properties_info new ((key, old) ∷ rest) new_ce =
      copy_properties_info (add new key (copy_property_info old new_ce)) rest new_ce

  -- The tables of the new class, whose own were empty; the static members start from the defaults.
  unfoldable pub copy_members :
      ClassEntry → Ptr → Table ZendString → Option (ClassEntry × Table ZendString)
  unfolding copy_class_constants copy_properties_info set_function_from_name
  copy_members old new_ce names = do
    properties ← copy_zval_table zend old.default_properties_table
    statics ← copy_zval_table zend old.default_static_members_table
    members ← copy_zval_table zend old.default_static_members_table
    (functions, names') ← copy_functions zend [] old.function_table new_ce names
    some (
      record old {
        default_properties_table = properties;
        default_static_members_table = statics;
        static_members_table = members;
        function_table = functions;
        properties_info = copy_properties_info [] old.properties_info new_ce;
        constants_table = copy_class_constants [] old.constants_table new_ce;
        magic_methods = map (set_function_from_name functions) magic_names;
      },
      names',
    )

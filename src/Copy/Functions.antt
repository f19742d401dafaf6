-- ===== src/Copy/Functions.antt =====
-- src/ph_copy.c, the copies of functions and methods. The thread's table of file names,
-- `op_array_file_names`, is a state that the copies pass on.
pub mod Compiled
pub mod Local
pub mod Tables
use phactor.Base.{
  drop, ℕ, zero, suc, ◌+◌, ◌-◌, Bool, true, false, Option, none, some, List, [], ◌∷◌, map, ◌==◌,
  if◌then◌else◌, Ptr, null,
}
use phactor.Copy.Values.{◌>>=◌, copy_static_variables}
use phactor.Copy.Zend.{ZendString, Zval, array, constant_ast, Zend, Table, find, add}

-- `type` of an argument: a class, with the flag that allows NULL, or a built-in type's code
pub data ArgType : Type 0 where
  class_type : ZendString → Bool → ArgType
  builtin : ℕ → ArgType

pub record ArgInfo : Type 0 where
  pub name : Option ZendString
  pub type : ArgType
  pub by_reference : ℕ

-- A pointer into a block of argument infos. That of the return type stands before the first.
pub record ArgInfos : Type 0 where
  pub block : List ArgInfo
  pub offset : ℕ

-- An instruction, a live range and a try-catch element are their bits.
pub record OpArray : Type 0 where
  pub type : ℕ
  pub arg_flags : List ℕ
  pub fn_flags : ℕ
  pub function_name : ZendString
  pub scope : Ptr
  pub prototype : Ptr
  pub num_args : ℕ
  pub required_num_args : ℕ
  pub arg_info : ArgInfos
  pub refcount : ℕ
  pub last : ℕ
  pub opcodes : List ℕ
  pub last_var : ℕ
  pub temporaries : ℕ
  pub vars : List ZendString
  pub last_live_range : ℕ
  pub last_try_catch : ℕ
  pub live_range : Option (List ℕ)
  pub try_catch_array : Option (List ℕ)
  pub static_variables : Option (Table Zval)
  pub filename : ZendString
  pub line_start : ℕ
  pub line_end : ℕ
  pub doc_comment : Option ZendString
  pub early_binding : ℕ
  pub last_literal : ℕ
  pub literals : List Zval
  pub cache_size : ℕ
  pub run_time_cache : Ptr
  pub reserved : List ℕ

-- An internal function is its bits, with the class that they lead to.
pub data ZendFunction : Type 0 where
  internal_function : ℕ → Ptr → ZendFunction
  user_function : OpArray → ZendFunction

module _ {A : Type 0} where
  -- `memcpy` of `n` elements: `none` where it reads past the block
  unfoldable pub copy_elements : ℕ → List A → Option (List A)
  copy_elements zero xs = some []
  copy_elements (suc n) [] = none
  copy_elements (suc n) (x ∷ xs) = do ys ← copy_elements n xs; some (x ∷ ys)

  -- a block whose pointer may be NULL
  unfoldable pub copy_block : ℕ → Option (List A) → Option (Option (List A))
  unfolding copy_elements
  copy_block n none = some none
  copy_block n (some xs) = do ys ← copy_elements n xs; some (some ys)

-- `copy_zend_op`, `copy_zend_live_range` and `copy_zend_try_catch_element`
unfoldable pub copy_zend_op : OpArray → Option (List ℕ)
unfolding copy_elements
copy_zend_op old = copy_elements old.last old.opcodes

unfoldable pub copy_zend_live_range : Option (List ℕ) → ℕ → Option (Option (List ℕ))
unfolding copy_block
copy_zend_live_range old count = copy_block count old

unfoldable pub copy_zend_try_catch_element : Option (List ℕ) → ℕ → Option (Option (List ℕ))
unfolding copy_block
copy_zend_try_catch_element old count = copy_block count old

-- `--old_arg_info`: `none` before the block
unfoldable pub return_info : Bool → ℕ → Option ℕ
return_info false offset = some offset
return_info true zero = none
return_info true (suc offset) = some offset

-- Outside a class, internal functions are skipped.
abbrev pub is_copied : Ptr → ZendFunction → Bool
is_copied new_ce (user_function _) = true
is_copied new_ce (internal_function bits scope) = if new_ce == null then false else true

module _ (zend : Zend) where
  open zend use {zend_string_dup, ph_zend_array_dup, ph_zend_ast_copy, has_return_type, is_variadic}

  unfoldable pub copy_string : Option ZendString → Option ZendString
  copy_string none = none
  copy_string (some s) = some (zend_string_dup s)

  copy_type : ArgType → ArgType
  copy_type (class_type name allow_null) = class_type (zend_string_dup name) allow_null
  copy_type (builtin code) = builtin code

  unfoldable pub copy_arg : ArgInfo → ArgInfo
  unfolding copy_type copy_string
  copy_arg a = record a { name = copy_string a.name; type = copy_type a.type }

  unfoldable pub copy_function_arg_info : ArgInfos → ℕ → ℕ → Option ArgInfos
  unfolding return_info copy_elements copy_arg
  copy_function_arg_info old fn_flags num_args = do
    start ← return_info (has_return_type fn_flags) old.offset
    let returned = if has_return_type fn_flags then num_args + 1 else num_args
    let count = if is_variadic fn_flags then returned + 1 else returned
    infos ← copy_elements count (drop start old.block)
    some (record { block = map copy_arg infos; offset = if has_return_type fn_flags then 1 else 0 })

  -- a literal: a string stays, for it is interned
  unfoldable pub copy_literal : Zval → Zval
  copy_literal (array a) = array (ph_zend_array_dup a)
  copy_literal (constant_ast a) = constant_ast (ph_zend_ast_copy a)
  copy_literal z = z

  -- `filename`, from the thread's table of file names or new in it
  unfoldable pub file_name_of :
      Table ZendString → ZendString → Option ZendString → ZendString × Table ZendString
  file_name_of names filename (some known) = (known, names)
  file_name_of names filename none =
      let name = zend_string_dup filename in (name, add names name name)

  unfoldable pub copy_zend_op_array :
      OpArray → Ptr → Table ZendString → Option (OpArray × Table ZendString)
  unfolding copy_zend_op copy_zend_live_range copy_zend_try_catch_element copy_literal file_name_of
  copy_zend_op_array old new_ce names = do
    arg_info ← copy_function_arg_info old.arg_info old.fn_flags old.num_args
    vars ← copy_elements old.last_var old.vars
    live_range ← copy_zend_live_range old.live_range old.last_live_range
    try_catch_array ← copy_zend_try_catch_element old.try_catch_array old.last_try_catch
    static_variables ← copy_static_variables zend old.static_variables
    literals ← copy_elements old.last_literal old.literals
    opcodes ← copy_zend_op old
    let file : ZendString × Table ZendString =
        file_name_of names old.filename (find names old.filename)
    some (
      record old {
        function_name = zend_string_dup old.function_name;
        scope = new_ce;
        prototype = null;
        arg_info = arg_info;
        refcount = 1;
        opcodes = opcodes;
        vars = vars;
        live_range = live_range;
        try_catch_array = try_catch_array;
        static_variables = static_variables;
        filename = file.0;
        doc_comment = copy_string old.doc_comment;
        literals = map copy_literal literals;
        run_time_cache = null;
      },
      file.1,
    )

  copy_user_body : Option (OpArray × Table ZendString) → Option (ZendFunction × Table ZendString)
  copy_user_body none = none
  copy_user_body (some (body, names)) = some (user_function body, names)

  -- `copy_internal_function` and `copy_user_function`
  unfoldable pub copy_function :
      ZendFunction → Ptr → Table ZendString → Option (ZendFunction × Table ZendString)
  unfolding copy_zend_op_array copy_user_body
  copy_function (internal_function bits scope) new_ce names =
      some (internal_function bits scope, names)
  copy_function (user_function old) new_ce names =
      copy_user_body (copy_zend_op_array old new_ce names)

  -- a round of the loop of `copy_functions`
  unfoldable pub copy_entry :
      ZendString
      → ZendFunction
      → Ptr
      → Table ZendFunction
      → Table ZendString
      → Option (Table ZendFunction × Table ZendString)
  unfolding copy_function
  copy_entry name old new_ce new names =
      if is_copied new_ce old
      then (do
        (copy, names') ← copy_function old new_ce names
        some (add new (zend_string_dup name) copy, names'))
      else some (new, names)

  unfoldable pub copy_functions :
      Table ZendFunction
      → Table ZendFunction
      → Ptr
      → Table ZendString
      → Option (Table ZendFunction × Table ZendString)
  unfolding copy_entry
  copy_functions new [] new_ce names = some (new, names)
  copy_functions new ((name, old) ∷ rest) new_ce names = do
    (new', names') ← copy_entry name old new_ce new names
    copy_functions new' rest new_ce names'

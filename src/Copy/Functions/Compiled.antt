-- ===== src/Copy/Functions/Compiled.antt =====
-- The functions that src/ph_copy.c is given, as PHP's compiler makes them, and those that lie in the
-- memory of this thread.
use phactor.Base.{
  drop, ℕ, ◌+◌, ◌≤◌, ◌≡◌, ◌≢◌, true, Option, none, some, List, length, if◌then◌else◌, Ptr, null,
}
use phactor.Copy.Functions.{ArgType, class_type, builtin, ArgInfo, OpArray, return_info}
use phactor.Copy.Local.{IsLocal, is_static_copyable}
use phactor.Copy.Tables.{All, IsDistinct}
use phactor.Copy.Zend.{
  main_thread, ZendString, Zval, string, constant, object, resource, reference, Zend, Table,
}

abbrev pub IsLocalString : Option ZendString → Type 0
IsLocalString none = Unit {0}
IsLocalString (some s) = s.owner ≢ main_thread

abbrev pub IsLocalType : ArgType → Type 0
IsLocalType (class_type name allow_null) = name.owner ≢ main_thread
IsLocalType (builtin code) = Unit {0}

abbrev pub IsLocalArg : ArgInfo → Type 0
IsLocalArg a = IsLocalString a.name × IsLocalType a.type

abbrev pub IsLocalNames : Table ZendString → Type 0
IsLocalNames = All (λ e. e.1.owner ≢ main_thread)

abbrev pub IsLocalStatics : Option (Table Zval) → Type 0
IsLocalStatics none = Unit {0}
IsLocalStatics (some t) = All (λ e. (e.0.owner ≢ main_thread) × IsLocal e.1) t

-- No string, array or tree of the function is the main thread's.
pub record IsLocalOp (op : OpArray) : Type 0 where
  pub function_name : op.function_name.owner ≢ main_thread
  pub args : All IsLocalArg op.arg_info.block
  pub vars : All (λ s. s.owner ≢ main_thread) op.vars
  pub statics : IsLocalStatics op.static_variables
  pub filename : op.filename.owner ≢ main_thread
  pub doc_comment : IsLocalString op.doc_comment
  pub literals : All IsLocal op.literals

-- What the copy of a function is besides.
pub record IsCopy (new_ce : Ptr) (old new : OpArray) : Type 0 where
  pub scope : new.scope ≡ new_ce
  pub prototype : new.prototype ≡ null
  pub refcount : new.refcount ≡ 1
  pub run_time_cache : new.run_time_cache ≡ null
  pub name : new.function_name.val ≡ old.function_name.val
  pub num_args : new.num_args ≡ old.num_args

abbrev pub HasBlock : ℕ → Option (List ℕ) → Type 0
HasBlock n none = Unit {0}
HasBlock n (some xs) = n ≤ length xs

abbrev pub IsStaticsCopyable : Option (Table Zval) → Type 0
IsStaticsCopyable none = Unit {0}
IsStaticsCopyable (some t) = All (λ e. is_static_copyable e.1 ≡ true) t × IsDistinct t

-- The literals that a compiled function has.
abbrev pub IsLiteral : Zval → Type 0
IsLiteral (string s) = s.owner ≢ main_thread
IsLiteral (constant s) = s.owner ≢ main_thread
IsLiteral (object p) = ⊥
IsLiteral (resource p) = ⊥
IsLiteral (reference z) = ⊥
IsLiteral _ = Unit {0}

-- What PHP's compiler makes: blocks of the sizes given, names of variables and literal strings
-- interned.
pub record IsCompiled (zend : Zend) (op : OpArray) : Type 0 where
  pub start : ℕ
  pub returned : return_info (zend.has_return_type op.fn_flags) op.arg_info.offset ≡ some start
  pub enough :
      (if zend.is_variadic op.fn_flags
        then (if zend.has_return_type op.fn_flags then op.num_args + 1 else op.num_args) + 1
        else (if zend.has_return_type op.fn_flags then op.num_args + 1 else op.num_args))
      ≤ length (drop start op.arg_info.block)
  pub enough_vars : op.last_var ≤ length op.vars
  pub interned : All (λ s. s.owner ≢ main_thread) op.vars
  pub ranges : HasBlock op.last_live_range op.live_range
  pub tries : HasBlock op.last_try_catch op.try_catch_array
  pub statics : IsStaticsCopyable op.static_variables
  pub enough_literals : op.last_literal ≤ length op.literals
  pub literal : All IsLiteral op.literals
  pub enough_opcodes : op.last ≤ length op.opcodes

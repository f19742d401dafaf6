-- ===== src/Copy/Classes/Defs.antt =====
-- src/ph_copy.c, the data of a class as PHP declares it, and the state of a thread that copies
-- classes.
use phactor.Base.{ℕ, Option, List, Ptr}
use phactor.Copy.Functions.{ZendFunction}
use phactor.Copy.Zend.{ZendString, Zval, Table}

pub record PropertyInfo : Type 0 where
  pub offset : ℕ
  pub flags : ℕ
  pub name : ZendString
  pub doc_comment : Option ZendString
  pub ce : Ptr

pub record ClassConstant : Type 0 where
  pub value : Zval
  pub access_flags : ℕ  -- `value.u2`
  pub doc_comment : Option ZendString
  pub ce : Ptr

pub record MethodReference : Type 0 where
  pub method_name : ZendString
  pub ce : Ptr
  pub class_name : Option ZendString

pub record TraitAlias : Type 0 where
  pub trait_method : MethodReference
  pub alias : Option ZendString
  pub modifiers : ℕ

-- an element of `exclude_from_classes`
pub record Excluded : Type 0 where
  pub ce : Ptr
  pub class_name : ZendString

pub record TraitPrecedence : Type 0 where
  pub trait_method : MethodReference
  pub exclude_from_classes : Option (List Excluded)

pub data ClassType : Type 0 where
  internal_class user_class : ClassType

-- The handlers of a class, `create_object` and the others, are their bits, and so are the iterator
-- functions. An array that ends with NULL is the list of what stands before.
pub record ClassEntry : Type 0 where
  pub type : ClassType
  pub name : ZendString
  pub parent : Ptr
  pub refcount : ℕ
  pub ce_flags : ℕ
  pub default_properties_count : ℕ
  pub default_static_members_count : ℕ
  pub default_properties_table : Option (List Zval)
  pub default_static_members_table : Option (List Zval)
  pub static_members_table : Option (List Zval)
  pub function_table : Table ZendFunction
  pub properties_info : Table PropertyInfo
  pub constants_table : Table ClassConstant
  pub magic_methods : List (Option ZendFunction)
  pub iterator_funcs : List ℕ
  pub handlers : List ℕ
  pub num_interfaces : ℕ
  pub num_traits : ℕ
  pub interfaces : Option (List Ptr)
  pub traits : Option (List Ptr)
  pub trait_aliases : Option (List TraitAlias)
  pub trait_precedences : Option (List TraitPrecedence)
  pub filename : ZendString
  pub line_start : ℕ
  pub line_end : ℕ
  pub doc_comment : Option ZendString

-- `EG(class_table)` of the thread, the classes that it has made in its arena, and its file names
pub record CopyState : Type 0 where
  pub class_table : Table Ptr
  pub arena : Ptr → Option ClassEntry
  pub next : Ptr
  pub op_array_file_names : Table ZendString

-- A failing assertion, a read past a block and a dangling pointer are faults.
pub data CopyOutcome (A : Type 0) : Type 0 where
  ok : A → CopyState → CopyOutcome A
  fault : CopyOutcome A
  out_of_fuel : CopyOutcome A

abbrev pub Copy : Type 0 → Type 0
Copy A = CopyState → CopyOutcome A

abbrev pub and_then : {A B : Type 0} → CopyOutcome A → (A → Copy B) → CopyOutcome B
and_then (ok a s) k = k a s
and_then fault k = fault
and_then out_of_fuel k = out_of_fuel

infixl 5 ◌>>=◌
abbrev pub ◌>>=◌ : {A B : Type 0} → Copy A → (A → Copy B) → Copy B
m >>= k = λ s. and_then (m s) k

abbrev pub pure : {A : Type 0} → A → Copy A
pure = ok

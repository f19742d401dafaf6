-- ===== src/Value.antt =====
-- src/ph_entry.h and src/ph_entry.c: PHP values copied into memory that threads may share. An
-- entry is the tagged union `ph_entry_t`. PHP's own types and its (un)serialiser are parameters. A
-- `zend_long` is its 64-bit pattern and an `int` its 32-bit pattern.
pub mod RoundTrip
use phactor.Base.{
  ℕ, ◌+◌, ◌-◌, ◌*◌, ◌%◌, ◌^◌, Bool, true, false, not, Option, none, some, List, [], ◌∷◌, ◌++◌, Ptr,
  null, ◌==◌, ltb, if◌then◌else◌, length,
}
use phactor.Copy.Functions.{OpArray, ZendFunction, internal_function, user_function, copy_function}
use phactor.Copy.Globals.{update_found}
use phactor.Copy.Zend.{ZendString, Zend, Table, find}
use phactor.PhString.{PhString, ph_str_create}

-- doubles, arrays and objects
pub record PhpTypes : Type 1 where
  pub Double : Type 0
  pub Arr : Type 0
  pub Obj : Type 0

-- `pseudo_bool` has the type `_IS_BOOL`; `other` is any type that the switch does not name
pub data Zval (T : PhpTypes) : Type 0 where
  string : List ℕ → Zval T
  long : ℕ → Zval T
  double : T.Double → Zval T
  pseudo_bool : ℕ → Zval T
  is_true is_false is_null : Zval T
  array : T.Arr → Zval T
  object : T.Obj → Zval T
  other : ℕ → Zval T

pub data Entry (T : PhpTypes) : Type 0 where
  string : PhString → Entry T
  long : ℕ → Entry T
  double : T.Double → Entry T
  pseudo_bool : Bool → Entry T
  is_true is_false is_null : Entry T
  array : PhString → Entry T
  store_func : OpArray → Entry T
  object : PhString → Entry T

-- What PHP provides. `none` from the serialiser is an exception. `closure` gives the op array of
-- an object that is an instance of `Closure`. `unserialize` gives what the zval holds afterwards.
-- `zend_create_closure` makes an object of a function and its scope, without `$this`; its name is
-- printed from its address.
pub record Php (T : PhpTypes) : Type 0 where
  pub serialize_array : T.Arr → Option (List ℕ)
  pub serialize_object : T.Obj → Option (List ℕ)
  pub unserialize : List ℕ → Zval T
  pub closure : T.Obj → Option OpArray
  pub zend_create_closure : ZendFunction → Ptr → Zval T
  pub closure_name : Zval T → ZendString

-- a length is stored as an `int`, and as many bytes are copied
abbrev pub copy_bytes : List ℕ → PhString
copy_bytes bytes = ph_str_create bytes (length bytes % 2 ^ 32)

-- `int` to `zend_long`
abbrev pub sign_extend : ℕ → ℕ
sign_extend n = if ltb n (2 ^ 31) then n else n + (2 ^ 64 - 2 ^ 32)

module _ {T : PhpTypes} (php : Php T) where
  convert_array : Option (List ℕ) → Option (Entry T)
  convert_array none = none
  convert_array (some bytes) = some (Entry.array (copy_bytes bytes))

  unfoldable pub convert_plain_object : Option (List ℕ) → Option (Entry T)
  convert_plain_object none = none
  convert_plain_object (some bytes) = some (Entry.object (copy_bytes bytes))

  unfoldable pub convert_object : Option OpArray → Option (List ℕ) → Option (Entry T)
  unfolding convert_plain_object
  convert_object (some func) serialized = some (Entry.store_func func)
  convert_object none serialized = convert_plain_object serialized

  -- `none` is the result 0
  unfoldable pub ph_entry_convert_from_zval : Zval T → Option (Entry T)
  unfolding convert_array convert_object
  ph_entry_convert_from_zval (Zval.string s) = some (Entry.string (copy_bytes s))
  ph_entry_convert_from_zval (Zval.long n) = some (Entry.long (n % 2 ^ 32))
  ph_entry_convert_from_zval (Zval.double d) = some (Entry.double d)
  ph_entry_convert_from_zval (Zval.pseudo_bool n) = some (Entry.pseudo_bool (not (n == 0)))
  ph_entry_convert_from_zval Zval.is_true = some Entry.is_true
  ph_entry_convert_from_zval Zval.is_false = some Entry.is_false
  ph_entry_convert_from_zval Zval.is_null = some Entry.is_null
  ph_entry_convert_from_zval (Zval.array a) = convert_array (php.serialize_array a)
  ph_entry_convert_from_zval (Zval.object o) =
      convert_object (php.closure o) (php.serialize_object o)
  ph_entry_convert_from_zval (Zval.other t) = none

-- What the conversion of a closure changes of a thread.
pub record Thread : Type 0 where
  pub op_array_file_names : Table ZendString
  pub function_table : Table ZendFunction

-- `closure->common.scope`
abbrev pub scope_of : ZendFunction → Ptr
scope_of (internal_function bits scope) = scope
scope_of (user_function body) = body.scope

module _ {A : Type 0} where
  update_or_add : Table A → ZendString → A → Option A → Table A
  unfolding update_found
  update_or_add t key a none = t ++ (key, a) ∷ []
  update_or_add t key a (some old) = update_found t key a

  -- `zend_hash_str_update_ptr`
  unfoldable pub update_ptr : Table A → ZendString → A → Table A
  unfolding update_or_add
  update_ptr t key a = update_or_add t key a (find t key)

module _ {T : PhpTypes} (zend : Zend) (php : Php T) where
  enter_closure : Thread → ZendFunction → Zval T → Zval T × Thread
  unfolding update_ptr
  enter_closure t closure value = (
    value,
    record t { function_table = update_ptr t.function_table (php.closure_name value) closure },
  )

  make_closure : Thread → Option (ZendFunction × Table ZendString) → Option (Zval T × Thread)
  unfolding enter_closure
  make_closure t none = none
  make_closure t (some (closure, names)) = some (
      enter_closure (record t { op_array_file_names = names }) closure
        (php.zend_create_closure closure (scope_of closure)))

  -- `none` where `copy_user_function` fails an assertion
  unfoldable pub ph_entry_convert_to_zval : Thread → Entry T → Option (Zval T × Thread)
  unfolding make_closure copy_function
  ph_entry_convert_to_zval t (Entry.string s) = some (Zval.string s.val, t)
  ph_entry_convert_to_zval t (Entry.long n) = some (Zval.long (sign_extend n), t)
  ph_entry_convert_to_zval t (Entry.double d) = some (Zval.double d, t)
  ph_entry_convert_to_zval t (Entry.pseudo_bool b) =
      some (if b then Zval.is_true else Zval.is_false, t)
  ph_entry_convert_to_zval t Entry.is_true = some (Zval.is_true, t)
  ph_entry_convert_to_zval t Entry.is_false = some (Zval.is_false, t)
  ph_entry_convert_to_zval t Entry.is_null = some (Zval.is_null, t)
  ph_entry_convert_to_zval t (Entry.array s) = some (php.unserialize s.val, t)
  ph_entry_convert_to_zval t (Entry.store_func f) =
      make_closure t (copy_function zend (user_function f) null t.op_array_file_names)
  ph_entry_convert_to_zval t (Entry.object s) = some (php.unserialize s.val, t)

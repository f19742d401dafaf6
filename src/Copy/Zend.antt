-- ===== src/Copy/Zend.antt =====
-- What src/ph_copy.c uses of PHP: strings, values and hash tables, with the thread whose memory
-- they lie in. A hash table is its contents in order. The functions that copy strings, arrays and
-- syntax trees, and the tests of flags, are PHP's and are parameters.
use phactor.Base.{
  ℕ, Bool, true, false, ◌&&◌, Option, none, some, List, [], ◌∷◌, ◌++◌, ◌≡◌, ◌≢◌, ◌==◌,
  if◌then◌else◌, Ptr,
}

-- Interned strings and immutable arrays are shared by all threads.
pub data Owner : Type 0 where
  shared main_thread this_thread : Owner

pub record ZendString : Type 0 where
  pub val : List ℕ
  pub owner : Owner

-- an array or a syntax tree, by its address
pub record Block : Type 0 where
  pub address : Ptr
  pub owner : Owner

-- `plain` is a value that no reference counts: its type and its 64 bits. What is shared is not
-- counted either, by `Z_REFCOUNTED`.
pub data Zval : Type 0 where
  plain : ℕ → ℕ → Zval
  null_value : Zval
  string constant : ZendString → Zval
  array constant_ast : Block → Zval
  object resource : Ptr → Zval
  reference : Zval → Zval

pub record Zend : Type 0 where
  pub zend_string_dup : ZendString → ZendString
  pub zend_string_tolower : ZendString → ZendString
  pub ph_zend_array_dup : Block → Block
  pub ph_zend_ast_copy : Block → Block
  pub ph_zval_dup : Zval → Zval
  pub has_return_type : ℕ → Bool
  pub is_variadic : ℕ → Bool
  pub is_anon_class : ℕ → Bool
  pub zend_lookup_class : ZendString → Ptr

-- What the copying functions promise: the copy of a string has its bytes, and none is a string, an
-- array or a tree of the main thread. What the elements of an array or tree lead to is not followed:
-- src/ph_zend.c only counts up the objects and references among them.
pub record IsZend (zend : Zend) : Type 0 where
  pub dup_val : (s : ZendString) → (zend.zend_string_dup s).val ≡ s.val
  pub dup_owner : (s : ZendString) → (zend.zend_string_dup s).owner ≢ main_thread
  pub array_owner : (a : Block) → (zend.ph_zend_array_dup a).owner ≢ main_thread
  pub ast_owner : (a : Block) → (zend.ph_zend_ast_copy a).owner ≢ main_thread

abbrev pub is_shared : Owner → Bool
is_shared shared = true
is_shared _ = false

-- `Z_REFCOUNTED`
abbrev pub is_refcounted : Zval → Bool
is_refcounted (plain type bits) = false
is_refcounted null_value = false
is_refcounted (string s) = if is_shared s.owner then false else true
is_refcounted (constant s) = if is_shared s.owner then false else true
is_refcounted (array a) = if is_shared a.owner then false else true
is_refcounted _ = true

abbrev pub bytes_eq : List ℕ → List ℕ → Bool
bytes_eq [] [] = true
bytes_eq [] (y ∷ ys) = false
bytes_eq (x ∷ xs) [] = false
bytes_eq (x ∷ xs) (y ∷ ys) = (x == y) && bytes_eq xs ys

abbrev pub Table : Type 0 → Type 0
Table A = List (ZendString × A)

module _ {A : Type 0} where
  -- `zend_hash_find_ptr`
  abbrev pub find : Table A → ZendString → Option A
  find [] key = none
  find ((k, v) ∷ rest) key = if bytes_eq k.val key.val then some v else find rest key

  -- `zend_hash_add`, which leaves a table alone that has the key
  abbrev pub add_new : Table A → ZendString → A → Option A → Table A
  add_new table key value none = table ++ (key, value) ∷ []
  add_new table key value (some _) = table

  abbrev pub add : Table A → ZendString → A → Table A
  add table key value = add_new table key value (find table key)

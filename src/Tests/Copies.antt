-- ===== src/Tests/Copies.antt =====
-- Values and functions that are copied into a new thread.
use phactor.Base.{
  map, ℕ, ◌+◌, ◌≡◌, ◌≢◌, refl, true, false, none, some, List, [], ◌∷◌, arith, ◌==◌, null,
}
use phactor.Copy.Functions.{
  class_type, OpArray, ZendFunction, internal_function, user_function, return_info,
}
use phactor.Copy.Functions.Compiled.{IsCompiled}
use phactor.Copy.Statics.{seen_entry, seen_copy_entry, copy_static_variables-Copies}
use phactor.Copy.Values.{copy_static_variables}
use phactor.Copy.Zend.{
  Owner, shared, main_thread, this_thread, ZendString, Block, Zval, plain, string, constant, array,
  constant_ast, object, reference, Zend, IsZend, Table,
}

abbrev pub copied : Owner → Owner
copied shared = shared
copied _ = this_thread

copied-ne_main : (o : Owner) → copied o ≢ main_thread
copied-ne_main shared e = cc
copied-ne_main main_thread e = cc
copied-ne_main this_thread e = cc

-- lowercase letters stay, and the flags stand for themselves
abbrev pub zend : Zend
zend = record {
  zend_string_dup = λ s. record { val = s.val; owner = copied s.owner };
  zend_string_tolower = λ s. record s { owner = this_thread };
  ph_zend_array_dup = λ a. record { address = a.address + 1000; owner = this_thread };
  ph_zend_ast_copy = λ a. record { address = a.address + 2000; owner = this_thread };
  ph_zval_dup = λ z. z;
  has_return_type = λ flags. flags == 1;
  is_variadic = λ flags. flags == 2;
  is_anon_class = λ flags. flags == 8;
  zend_lookup_class = λ s. 900;
}

pub zend-IsZend : IsZend zend
zend-IsZend = record {
  dup_val = λ s. refl;
  dup_owner = λ s. copied-ne_main s.owner;
  array_owner = λ a e. cc;
  ast_owner = λ a e. cc;
}

abbrev pub named : ℕ → ZendString
named c = record { val = c ∷ []; owner = main_thread }

abbrev pub interned : ℕ → ZendString
interned c = record { val = c ∷ []; owner = shared }

abbrev pub tree : Block
tree = record { address = 7; owner = main_thread }

abbrev pub values : List Zval
values = string (named b'v') ∷ object 3 ∷ plain 4 5 ∷ []

abbrev pub statics : Table Zval
statics = (named b'x', reference (constant (named b'c'))) ∷ (named b'y', constant_ast tree) ∷ []

copy_static_variables-Copies_example :
    (t : Table Zval) × (copy_static_variables zend (some statics) ≡ some (some t))
    × (map seen_entry t ≡ map seen_copy_entry statics)
copy_static_variables-Copies_example =
    copy_static_variables-Copies zend-IsZend statics (refl, (refl, tt)) ((refl, tt), (tt, tt))

-- a function with a return type, an argument of a class, and a static variable
abbrev pub body : OpArray
body = record {
  type = 2;
  arg_flags = [];
  fn_flags = 1;
  function_name = named b'f';
  scope = null;
  prototype = 5;
  num_args = 1;
  required_num_args = 1;
  arg_info = record {
    block =
        record { name = none; type = class_type (named b'A') false; by_reference = 0 }
        ∷ record { name = some (named b'a'); type = class_type (named b'B') true; by_reference = 0 }
        ∷ [];
    offset = 1;
  };
  refcount = 3;
  last = 2;
  opcodes = 10 ∷ 11 ∷ [];
  last_var = 1;
  temporaries = 1;
  vars = interned b'a' ∷ [];
  last_live_range = 0;
  last_try_catch = 0;
  live_range = none;
  try_catch_array = none;
  static_variables = some statics;
  filename = named b's';
  line_start = 1;
  line_end = 9;
  doc_comment = none;
  early_binding = 0;
  last_literal = 2;
  literals = string (interned b'l') ∷ array tree ∷ [];
  cache_size = 8;
  run_time_cache = 77;
  reserved = [];
}

pub body-IsCompiled : IsCompiled zend body
unfolding return_info
body-IsCompiled = record {
  start = 0;
  returned = refl;
  enough = omega arith;
  enough_vars = omega arith;
  interned = (λ e. cc, tt);
  ranges = tt;
  tries = tt;
  statics = ((refl, (refl, tt)), ((refl, tt), (tt, tt)));
  enough_literals = omega arith;
  literal = (λ e. cc, (tt, tt));
  enough_opcodes = omega arith;
}

abbrev pub functions : Table ZendFunction
functions = (named b'f', user_function body) ∷ (interned b'i', internal_function 6 null) ∷ []

-- ===== src/Copy/Functions/Local.antt =====
-- The copies of functions and methods of src/ph_copy.c leave the memory of the main thread.
use phactor.Base.{
  ℕ, zero, suc, ◌≤◌, ◌≡◌, ◌≢◌, refl, ap, ◌∙◌, Option, none, some, List, [], ◌∷◌, map, arith, length,
  if◌then◌else◌, Ptr, null, Option-cases, Bool-cases, inl, inr,
}
use phactor.Copy.Functions.{
  ArgType, class_type, builtin, ArgInfo, OpArray, copy_elements, copy_block, copy_zend_op,
  copy_zend_live_range, copy_zend_try_catch_element, copy_string, copy_arg, copy_function_arg_info,
  copy_literal, file_name_of, copy_zend_op_array,
}
use phactor.Copy.Local.{IsLocal}
use phactor.Copy.Statics.{copy_static_variables-IsLocal}
use phactor.Copy.Tables.{All, add-All}
use phactor.Copy.Values.{copy_static_variables}
use phactor.Copy.Zend.{
  main_thread, ZendString, Zval, plain, null_value, string, constant, array, constant_ast, object,
  resource, reference, Zend, IsZend, bytes_eq, Table, find,
}
use phactor.Copy.Functions.Compiled.{
  IsLocalString, IsLocalType, IsLocalArg, IsLocalNames, IsLocalStatics, IsLocalOp, IsCopy, HasBlock,
  IsStaticsCopyable, IsLiteral, IsCompiled,
}

module _ {A : Type 0} (P : A → Type 0) where
  copy_elements-All :
      (n : ℕ) (xs : List A)
      → n ≤ length xs
      → All P xs
      → (ys : List A) × (copy_elements n xs ≡ some ys) × All P ys
  unfolding copy_elements
  copy_elements-All zero xs h p = ([], refl, tt)
  copy_elements-All (suc n) [] h p = absurd (omega arith)
  copy_elements-All (suc n) (x ∷ xs) h p =
      let (ys, e, q) = copy_elements-All n xs (omega arith) p.1 in (x ∷ ys, rw e refl, (p.0, q))

trivial : {A : Type 0} (xs : List A) → All (λ _. Unit {0}) xs
trivial [] = tt
trivial (x ∷ xs) = (tt, trivial xs)

copy_block-Returns :
    (n : ℕ) (o : Option (List ℕ))
    → HasBlock n o
    → (o' : Option (List ℕ)) × (copy_block n o ≡ some o')
unfolding copy_block
copy_block-Returns n none h = (none, refl)
copy_block-Returns n (some xs) h =
    let (ys, e, q) = copy_elements-All (λ _. Unit {0}) n xs h (trivial xs) in (some ys, rw e refl)

module _ {zend : Zend} (laws : IsZend zend) where
  copy_string-local : (o : Option ZendString) → IsLocalString (copy_string zend o)
  unfolding copy_string
  copy_string-local none = tt
  copy_string-local (some s) = laws.dup_owner s

  copy_arg-local : (a : ArgInfo) → IsLocalArg (copy_arg zend a)
  unfolding copy_arg
  copy_arg-local a = (copy_string-local a.name, typed a.type)
    where
      typed : (t : ArgType) → IsLocalType (copy_arg zend (record a { type = t })).type
      typed (class_type name allow_null) = laws.dup_owner name
      typed (builtin code) = tt

  map-copy_arg-local : (args : List ArgInfo) → All IsLocalArg (map (copy_arg zend) args)
  map-copy_arg-local [] = tt
  map-copy_arg-local (a ∷ args) = (copy_arg-local a, map-copy_arg-local args)

  copy_literal-IsLocal : (z : Zval) → IsLiteral z → IsLocal (copy_literal zend z)
  unfolding copy_literal
  copy_literal-IsLocal (plain type bits) h = tt
  copy_literal-IsLocal null_value h = tt
  copy_literal-IsLocal (string s) h = h
  copy_literal-IsLocal (constant s) h = h
  copy_literal-IsLocal (array a) h = laws.array_owner a
  copy_literal-IsLocal (constant_ast a) h = laws.ast_owner a
  copy_literal-IsLocal (object p) h = absurd h
  copy_literal-IsLocal (resource p) h = absurd h
  copy_literal-IsLocal (reference z) h = absurd h

  map-copy_literal-IsLocal :
      (zs : List Zval) → All IsLiteral zs → All IsLocal (map (copy_literal zend) zs)
  map-copy_literal-IsLocal [] h = tt
  map-copy_literal-IsLocal (z ∷ zs) h =
      (copy_literal-IsLocal z h.0, map-copy_literal-IsLocal zs h.1)

  statics-local :
      (o : Option (Table Zval))
      → IsStaticsCopyable o
      → (o' : Option (Table Zval)) × (copy_static_variables zend o ≡ some o') × IsLocalStatics o'
  unfolding copy_static_variables
  statics-local none h = (none, refl, tt)
  statics-local (some t) h =
      let (t', e, l, _) = copy_static_variables-IsLocal laws t h.0 h.1 in (some t', e, l)

  found-local :
      (names : Table ZendString) (key s : ZendString)
      → IsLocalNames names
      → find names key ≡ some s
      → s.owner ≢ main_thread
  found-local [] key s h e = cc
  found-local ((k, v) ∷ names) key s h e = elim (Bool-cases (bytes_eq k.val key.val)) [
    | inl same ↦ let is_v : v ≡ s = ground arith in λ m. h.0 (ap (λ z. z.owner) is_v ∙ m)
    | inr other ↦ found-local names key s h.1 (ground arith)
  ]

  file_name_of-local :
      (names : Table ZendString) (filename : ZendString)
      → IsLocalNames names
      → let r = file_name_of zend names filename (find names filename) in
        (r.0.owner ≢ main_thread) × IsLocalNames r.1
  unfolding file_name_of
  file_name_of-local names filename h = elim (Option-cases (find names filename)) [
    | inl e ↦
        let name = zend.zend_string_dup filename in
        rw e (
          laws.dup_owner filename,
          add-All (λ e. e.1.owner ≢ main_thread) names name name h (laws.dup_owner filename),
        )
    | inr (s, e) ↦ rw e (found-local names filename s h e, h)
  ]

  -- The copy of a function as PHP compiles it returns, with one reference, no prototype and no
  -- run-time cache, in the new class, under the same name. None of its strings, arrays and
  -- trees, and none of the file names that the thread then has, lies in the main thread's
  -- memory.
  pub copy_zend_op_array-local :
      (old : OpArray) (new_ce : Ptr) (names : Table ZendString)
      → IsCompiled zend old
      → IsLocalNames names
      → (new : OpArray) × (names' : Table ZendString) × (copy_zend_op_array zend old new_ce names
          ≡ some (new, names'))
        × IsLocalOp new
        × IsCopy new_ce old new
        × IsLocalNames names'
  unfolding copy_zend_op_array copy_function_arg_info copy_zend_live_range
      copy_zend_try_catch_element copy_zend_op
  copy_zend_op_array-local old new_ce names c ln =
      let (infos, e1, _) = copy_elements-All (λ _. Unit {0}) _ _ c.enough (trivial _) in
      let (vars, e2, lv) =
        copy_elements-All (λ s. s.owner ≢ main_thread) _ _ c.enough_vars c.interned in
      let (ranges, e3) = copy_block-Returns _ old.live_range c.ranges in
      let (tries, e4) = copy_block-Returns _ old.try_catch_array c.tries in
      let (statics, e5, ls) = statics-local old.static_variables c.statics in
      let (literals, e6, ll) = copy_elements-All IsLiteral _ _ c.enough_literals c.literal in
      let (opcodes, e7, _) =
        copy_elements-All (λ _. Unit {0}) old.last old.opcodes c.enough_opcodes (trivial _) in
      let (lf, ln') = file_name_of-local names old.filename ln in
      let names' : ZendString × Table ZendString =
        file_name_of zend names old.filename (find names old.filename) in
      (
        record old {
          function_name = zend.zend_string_dup old.function_name;
          scope = new_ce;
          prototype = null;
          arg_info = record {
            block = map (copy_arg zend) infos;
            offset = if zend.has_return_type old.fn_flags then 1 else 0;
          };
          refcount = 1;
          opcodes = opcodes;
          vars = vars;
          live_range = ranges;
          try_catch_array = tries;
          static_variables = statics;
          filename = names'.0;
          doc_comment = copy_string zend old.doc_comment;
          literals = map (copy_literal zend) literals;
          run_time_cache = null;
        },
        names'.1,
        rw (c.returned, e1, e2, e3, e4, e5, e6, e7) refl,
        record {
          function_name = laws.dup_owner old.function_name;
          args = map-copy_arg-local infos;
          vars = lv;
          statics = ls;
          filename = lf;
          doc_comment = copy_string-local old.doc_comment;
          literals = map-copy_literal-IsLocal literals ll;
        },
        record {
          scope = refl;
          prototype = refl;
          refcount = refl;
          run_time_cache = refl;
          name = laws.dup_val old.function_name;
          num_args = refl;
        },
        ln',
      )

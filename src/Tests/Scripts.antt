-- ===== src/Tests/Scripts.antt =====
-- A script with a function and two classes, copied into a new thread.
use phactor.Base.{
  ℕ, ◌≡◌, refl, inl, inr, false, Option, none, some, [], ◌∷◌, arith, ◌==◌, if◌then◌else◌, Ptr, null,
}
use phactor.Copy.Classes.Defs.{ClassEntry, CopyState, ok, user_class}
use phactor.Copy.Classes.{copy_ces}
use phactor.Copy.Classes.Creation.{IsCopyable}
use phactor.Copy.Classes.Hierarchy.{copy_ces-AreDone}
use phactor.Copy.Classes.Ordered.{Listed, addresses, IsPresent, IsOrdered, AreDone}
use phactor.Copy.Classes.Twice.{IsTwice, child_first-IsTwice}
use phactor.Copy.Functions.{internal_function, user_function}
use phactor.Copy.Functions.Tables.{Copies}
use phactor.Copy.Globals.{Globals, MainGlobals, IniEntry, ZendConstant, copy_ini_directives}
use phactor.Copy.Globals.Settings.{IsCopied, copy_ini_directives-IsCopied}
use phactor.Copy.Zend.{string, Table, find}
use phactor.Tests.Copies.{zend, zend-IsZend, named, interned, body, body-IsCompiled, functions}

abbrev class : ℕ → Ptr → ClassEntry
class c parent = record {
  type = user_class;
  name = named c;
  parent = parent;
  refcount = 1;
  ce_flags = 0;
  default_properties_count = 1;
  default_static_members_count = 0;
  default_properties_table = some (string (named b'p') ∷ []);
  default_static_members_table = none;
  static_members_table = none;
  function_table = (named b'm', user_function body) ∷ [];
  properties_info = [];
  constants_table = [];
  magic_methods = [];
  iterator_funcs = [];
  handlers = [];
  num_interfaces = 0;
  num_traits = 0;
  interfaces = none;
  traits = none;
  trait_aliases = none;
  trait_precedences = none;
  filename = named b's';
  line_start = 1;
  line_end = 2;
  doc_comment = none;
}

class-IsCopyable : (c : ℕ) (parent : Ptr) → IsCopyable zend (class c parent)
class-IsCopyable c parent = record {
  properties = (refl, tt);
  statics = tt;
  functions = (body-IsCompiled, tt);
  names = λ p. (tt, tt);
}

-- `class a`, and `class b extends a`, at 1 and 2
abbrev classes : Ptr → Option ClassEntry
classes p = if p == 1 then some (class b'a' null) else if p == 2 then some (class b'b' 1) else none

abbrev listed : Listed
listed = (1, class b'a' null) ∷ (2, class b'b' 1) ∷ []

listed-IsPresent : IsPresent zend classes listed
listed-IsPresent = ((refl, refl), ((refl, refl), tt))

listed-IsOrdered : IsOrdered zend classes [] listed
listed-IsOrdered = (
  (
    record {
      parent = inl (null, refl);
      interfaces = tt;
      traits = tt;
      aliases = tt;
      precedences = tt;
    },
    class-IsCopyable b'a' null,
  ),
  (
    (
      record {
        parent = inr (inl refl);
        interfaces = tt;
        traits = tt;
        aliases = tt;
        precedences = tt;
      },
      class-IsCopyable b'b' 1,
    ),
    tt,
  ),
)

abbrev thread : CopyState
thread = record {
  class_table = (interned b'E', 900) ∷ [];
  arena = λ p. none;
  next = 100;
  op_array_file_names = [];
}

copy_ces-AreDone_example :
    (t : CopyState) × (copy_ces zend classes 2 (addresses listed) thread ≡ ok tt t)
    × AreDone zend classes t listed
copy_ces-AreDone_example =
    copy_ces-AreDone zend-IsZend classes 0 listed thread listed-IsPresent listed-IsOrdered
      ((refl, tt), (tt, tt)) (refl, (refl, tt)) tt (omega arith)

child_first-IsTwice_example :
    (t : CopyState) × (copy_ces zend classes 3 (2 ∷ 1 ∷ []) thread ≡ ok tt t)
    × IsTwice zend classes (class b'b' 1) (class b'a' null) t
child_first-IsTwice_example =
    child_first-IsTwice zend-IsZend classes 0 2 1 (class b'b' 1) (class b'a' null) thread (record {
      child_at = refl;
      child_class = refl;
      child_made = refl;
      child_new = refl;
      child_copyable = class-IsCopyable b'b' 1;
      parent_of = refl;
      interfaces = tt;
      traits = tt;
      aliases = tt;
      precedences = tt;
      parent_at = refl;
      parent_class = refl;
      parent_made = refl;
      parent_new = refl;
      parent_names = record {
        parent = (null, refl);
        interfaces = tt;
        traits = tt;
        aliases = tt;
        precedences = tt;
      };
      parent_copyable = class-IsCopyable b'a' null;
      apart = refl;
      file_names = tt;
      arena = omega arith;
    })

abbrev setting : ℕ → IniEntry
setting c = record {
  value = some (named c);
  orig_value = none;
  modifiable = 7;
  orig_modifiable = 0;
  modified = false;
}

copy_ini_directives-IsCopied_example :
    (after : IniEntry) × (find
        (copy_ini_directives zend ((named b'k', setting 49) ∷ []) ((named b'k', setting 48) ∷ []))
        (named b'k')
      ≡ some after)
    × IsCopied (named 48) (setting 49) after
copy_ini_directives-IsCopied_example =
    copy_ini_directives-IsCopied zend-IsZend ((named b'k', setting 49) ∷ [])
      ((named b'k', setting 48) ∷ []) (named b'k') (setting 48) (setting 49) (named 48) (named 49)
      (tt, tt) refl refl refl refl

abbrev register : Table ZendConstant → ZendConstant → Table ZendConstant
register table c = (c.name, c) ∷ table

abbrev script : MainGlobals
script = record {
  included_files = named b's' ∷ [];
  function_table = functions;
  class_table = addresses listed;
  class_memory = classes;
  zend_constants = [];
  ini_directives = (named b'k', setting 48) ∷ [];
}

abbrev started : Globals
started = record {
  included_files = [];
  function_table = (interned b'i', internal_function 6 null) ∷ [];
  classes = thread;
  zend_constants = [];
  ini_directives = (named b'k', setting 49) ∷ [];
}

-- ===== src/Copy/Classes/Creation.antt =====
-- `create_new_ce` of src/ph_copy.c on a class whose named classes the thread has.
use phactor.Base.{◌+◌, ◌≡◌, refl, true, Option, none, some, List, [], map, ◌==◌, if◌then◌else◌, Ptr}
use phactor.Copy.Classes.{create_new_ce, members_of}
use phactor.Copy.Classes.Defs.{ClassEntry, CopyState, ok, Copy}
use phactor.Copy.Classes.Known.{
  class_of, IsKnown, ResolvesBlock, interfaces-known, traits-known, aliases-known,
  precedences-known,
}
use phactor.Copy.Classes.Names.{Names, NamesBlock, NamesAliases, NamesPrecedences}
use phactor.Copy.Classes.Members.{
  copy_members, copy_class_constants, copy_properties_info, set_function_from_name, magic_names,
}
use phactor.Copy.Functions.{copy_string}
use phactor.Copy.Functions.Compiled.{IsLocalNames}
use phactor.Copy.Functions.Tables.{IsCompiledFunction, Copies, selected, copy_functions-Copies}
use phactor.Copy.Local.{IsLocal, is_copyable, copy_zvals-IsLocal}
use phactor.Copy.Tables.{All, IsDistinct, IsFresh-nil}
use phactor.Copy.Values.{copy_zval_table}
use phactor.Copy.Zend.{ZendString, Zval, Zend, IsZend, Table}

abbrev pub IsCopyableBlock : Option (List Zval) → Type 0
IsCopyableBlock none = Unit {0}
IsCopyableBlock (some zs) = All (λ z. is_copyable z ≡ true) zs

abbrev pub IsLocalBlock : Option (List Zval) → Type 0
IsLocalBlock none = Unit {0}
IsLocalBlock (some zs) = All IsLocal zs

-- What PHP makes of a class without constant expressions among the defaults of its properties.
pub record IsCopyable (zend : Zend) (c : ClassEntry) : Type 0 where
  pub properties : IsCopyableBlock c.default_properties_table
  pub statics : IsCopyableBlock c.default_static_members_table
  pub functions : All (λ e. IsCompiledFunction zend e.1) c.function_table
  pub names : (p : Ptr) → IsDistinct (selected p c.function_table)

-- The tables of a new class at `p`: the defaults and the methods are this thread's, and the methods
-- belong to the new class.
pub record HasMembers (p : Ptr) (old new : ClassEntry) : Type 0 where
  pub properties : IsLocalBlock new.default_properties_table
  pub default_statics : IsLocalBlock new.default_static_members_table
  pub statics : IsLocalBlock new.static_members_table
  pub methods : Copies p (selected p old.function_table) new.function_table

module _ (zend : Zend) (classes : Ptr → Option ClassEntry) where
  -- What the new class at `p` is, in a thread with the class table.
  pub record IsClassCopy (table : Table Ptr) (p : Ptr) (old new : ClassEntry) : Type 0 where
    pub members : HasMembers p old new
    pub name : new.name.val ≡ old.name.val
    pub parent : class_of zend classes table old.parent ≡ some new.parent
    pub interfaces :
        ResolvesBlock zend classes table old.num_interfaces old.interfaces new.interfaces
    pub traits : ResolvesBlock zend classes table old.num_traits old.traits new.traits

module _ {zend : Zend} (laws : IsZend zend) where
  zval_table-local :
      (o : Option (List Zval))
      → IsCopyableBlock o
      → (o' : Option (List Zval)) × (copy_zval_table zend o ≡ some o') × IsLocalBlock o'
  unfolding copy_zval_table
  zval_table-local none h = (none, refl, tt)
  zval_table-local (some zs) h =
      let (zs', e, len, l) = copy_zvals-IsLocal laws zs h in (some zs', rw e refl, l)

  members-Returns :
      (c : ClassEntry) (p : Ptr) (names : Table ZendString)
      → IsCopyable zend c
      → IsLocalNames names
      → (m : ClassEntry) × (names' : Table ZendString) × (copy_members zend c p names
          ≡ some (m, names'))
        × HasMembers p c m
        × IsLocalNames names'
  unfolding copy_members
  members-Returns c p names k l =
      let (ps, e1, lp) = zval_table-local c.default_properties_table k.properties in
      let (ss, e2, ls) = zval_table-local c.default_static_members_table k.statics in
      let (fs, names', e3, cs, l') =
        copy_functions-Copies laws p [] c.function_table names k.functions (k.names p)
          (IsFresh-nil _ (selected p c.function_table)) l in
      (
        record c {
          default_properties_table = ps;
          default_static_members_table = ss;
          static_members_table = ss;
          function_table = fs;
          properties_info = copy_properties_info zend [] c.properties_info p;
          constants_table = copy_class_constants zend [] c.constants_table p;
          magic_methods = map (set_function_from_name fs) magic_names;
        },
        names',
        rw (e1, e2, e3) refl,
        record { properties = lp; default_statics = ls; statics = ls; methods = cs },
        l',
      )

  members_of-Returns :
      (c : ClassEntry) (p : Ptr) (s : CopyState)
      → IsCopyable zend c
      → IsLocalNames s.op_array_file_names
      → (m : ClassEntry) × (names' : Table ZendString) × (members_of zend c p s
          ≡ ok m (record s { op_array_file_names = names' }))
        × HasMembers p c m
        × IsLocalNames names'
  unfolding members_of
  members_of-Returns c p s k l =
      let (m, names', e, h, l') = members-Returns c p s.op_array_file_names k l in
      (m, names', rw e refl, h, l')

module _ {zend : Zend} (laws : IsZend zend) (classes : Ptr → Option ClassEntry) where
  -- where the copy of the parent leads from the new address to `s2`, in which the thread has every
  -- other class that is named
  pub create-after_parent :
      (copy : Ptr → Copy Ptr) (c : ClassEntry) (s s2 : CopyState) (parent : Ptr)
      → copy c.parent (record s { next = s.next + 1 }) ≡ ok parent s2
      → ((p q : Ptr) (t : CopyState)
          → class_of zend classes t.class_table p ≡ some q
          → copy p t ≡ ok q t)
      → NamesBlock (IsKnown zend classes s2.class_table) c.num_interfaces c.interfaces
      → NamesBlock (IsKnown zend classes s2.class_table) c.num_traits c.traits
      → NamesAliases (IsKnown zend classes s2.class_table) c.trait_aliases
      → NamesPrecedences (IsKnown zend classes s2.class_table) c.trait_precedences
      → IsCopyable zend c
      → IsLocalNames s2.op_array_file_names
      → (new : ClassEntry) × (names' : Table ZendString) × (create_new_ce zend copy c s
          ≡ ok s.next (record {
            class_table = s2.class_table;
            arena = λ q. if q == s.next then some new else s2.arena q;
            next = s2.next;
            op_array_file_names = names';
          }))
        × HasMembers s.next c new
        × (new.name.val ≡ c.name.val)
        × (new.parent ≡ parent)
        × ResolvesBlock zend classes s2.class_table c.num_interfaces c.interfaces new.interfaces
        × ResolvesBlock zend classes s2.class_table c.num_traits c.traits new.traits
        × IsLocalNames names'
  unfolding create_new_ce
  create-after_parent copy c s s2 parent ep known ki kt ka kp k l =
      let (m, names', em, hm, l') = members_of-Returns laws c s.next s2 k l in
      let s3 : CopyState = record s2 { op_array_file_names = names' } in
      let named =
        λ (p q : Ptr) (h : class_of zend classes s2.class_table p ≡ some q). known p q s3 h in
      let (is, ei, ri) = interfaces-known zend classes copy s3 named _ c.interfaces ki in
      let (ts, et, rt) = traits-known zend classes copy s3 named _ c.traits kt in
      let (als, ea) = aliases-known zend classes copy s3 named c.trait_aliases ka in
      let (prs, er) = precedences-known zend classes copy s3 named c.trait_precedences kp in
      (
        record m {
          name = zend.zend_string_dup c.name;
          parent = parent;
          refcount = 1;
          interfaces = is;
          traits = ts;
          trait_aliases = als;
          trait_precedences = prs;
          doc_comment = copy_string zend c.doc_comment;
        },
        names',
        rw (ep, em, ei, et, ea, er) refl,
        record {
          properties = hm.properties;
          default_statics = hm.default_statics;
          statics = hm.statics;
          methods = hm.methods;
        },
        laws.dup_val c.name,
        refl,
        ri,
        rt,
        l',
      )

  pub create_new_ce-IsClassCopy :
      (copy : Ptr → Copy Ptr) (c : ClassEntry) (s : CopyState)
      → ((p q : Ptr) (t : CopyState)
          → class_of zend classes t.class_table p ≡ some q
          → copy p t ≡ ok q t)
      → Names (IsKnown zend classes s.class_table) c
      → IsCopyable zend c
      → IsLocalNames s.op_array_file_names
      → (new : ClassEntry) × (names' : Table ZendString) × (create_new_ce zend copy c s
          ≡ ok s.next (record {
            class_table = s.class_table;
            arena = λ q. if q == s.next then some new else s.arena q;
            next = s.next + 1;
            op_array_file_names = names';
          }))
        × IsClassCopy zend classes s.class_table s.next c new
        × IsLocalNames names'
  create_new_ce-IsClassCopy copy c s known ready k l =
      let s1 : CopyState = record s { next = s.next + 1 } in
      let (parent, e) = ready.parent in
      let (new, names', run, members, name, is_parent, is, ts, l') =
        create-after_parent copy c s s1 parent (known c.parent parent s1 e) known ready.interfaces
          ready.traits ready.aliases ready.precedences k l in
      (
        new,
        names',
        run,
        record {
          members = members;
          name = name;
          parent = rw is_parent e;
          interfaces = is;
          traits = ts;
        },
        l',
      )

-- ===== src/Copy/Classes/Ordered.antt =====
-- What `copy_ces` of src/ph_copy.c is given: a class table in which each class stands behind those
-- it names; and what it makes of it.
use phactor.Base.{
  ◌<◌, ◌≡◌, ◌⊎◌, Bool, true, false, not, Option, some, List, [], ◌∷◌, ◌==◌, if◌then◌else◌, Ptr,
  null,
}
use phactor.Copy.Classes.Creation.{IsCopyable, IsClassCopy}
use phactor.Copy.Classes.Defs.{ClassType, internal_class, user_class, ClassEntry, CopyState}
use phactor.Copy.Classes.Known.{IsKnown}
use phactor.Copy.Classes.Names.{Names}
use phactor.Copy.Tables.{All}
use phactor.Copy.Zend.{Zend, Table, find}

-- the classes of a table, with their addresses
abbrev pub Listed : Type 0
Listed = List (Ptr × ClassEntry)

abbrev pub addresses : Listed → List Ptr
addresses [] = []
addresses ((p, c) ∷ l) = p ∷ addresses l

abbrev pub IsIn : Ptr → Listed → Type 0
IsIn q [] = ⊥
IsIn q ((p, c) ∷ l) = (q ≡ p) ⊎ IsIn q l

module _ (zend : Zend) where
  open zend use {zend_string_tolower, is_anon_class}

  abbrev pub is_made_type : ClassType → ClassEntry → Bool
  is_made_type internal_class c = false
  is_made_type user_class c = not (is_anon_class c.ce_flags)

  -- a class with a name, of the script
  abbrev pub is_made : ClassEntry → Bool
  is_made c = is_made_type c.type c

  -- the classes that are copied, under their lowercase names
  abbrev pub listing : Listed → Table Ptr
  listing [] = []
  listing ((p, c) ∷ l) =
      if is_made c then (zend_string_tolower c.name, p) ∷ listing l else listing l

  module _ (classes : Ptr → Option ClassEntry) where
    abbrev pub IsPresent : Listed → Type 0
    IsPresent = All (λ e. (classes e.0 ≡ some e.1) × ((e.0 == null) ≡ false))

    -- a class that is internal, anonymous, NULL, or stands before
    abbrev pub IsEarlier : Listed → Ptr → Type 0
    IsEarlier earlier q = IsKnown zend classes [] q ⊎ IsIn q earlier

    abbrev pub Requires : Listed → ClassEntry → Bool → Type 0
    Requires earlier c false = Unit {0}
    Requires earlier c true = Names (IsEarlier earlier) c × IsCopyable zend c

    -- Each class that is copied names only classes before it.
    abbrev pub IsOrdered : Listed → Listed → Type 0
    IsOrdered earlier [] = Unit {0}
    IsOrdered earlier ((p, c) ∷ l) = Requires earlier c (is_made c) × IsOrdered ((p, c) ∷ earlier) l

    -- The thread's table leads to a copy of the class, whose parent, interfaces and traits are
    -- those that the table leads to.
    pub record IsDone (s : CopyState) (c : ClassEntry) : Type 0 where
      pub copy : Ptr
      pub entry : ClassEntry
      pub found : find s.class_table (zend_string_tolower c.name) ≡ some copy
      pub stored : s.arena copy ≡ some entry
      pub below : copy < s.next
      pub same : IsClassCopy zend classes s.class_table copy c entry

    abbrev pub IsDoneIf : CopyState → ClassEntry → Bool → Type 0
    IsDoneIf s c false = Unit {0}
    IsDoneIf s c true = IsDone s c

    abbrev pub AreDone : CopyState → Listed → Type 0
    AreDone s = All (λ e. IsDoneIf s e.1 (is_made e.1))

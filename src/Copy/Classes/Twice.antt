-- ===== src/Copy/Classes/Twice.antt =====
-- `copy_ces` of src/ph_copy.c on a class that stands before its parent in the main thread's table.
use phactor.Base.{
  ℕ, suc, ◌+◌, ◌<◌, ◌≡◌, ◌≢◌, refl, ap, ◌∙◌, true, false, Option, none, some, [], ◌∷◌, ◌++◌, arith,
  ◌==◌, if◌then◌else◌, Ptr, null,
}
use phactor.Copy.Classes.{copy_entry, copy_ce, copy_listed, copy_ces}
use phactor.Copy.Classes.Creation.{IsCopyable, create-after_parent}
use phactor.Copy.Classes.Defs.{ClassEntry, CopyState, CopyOutcome, ok}
use phactor.Copy.Classes.Growth.{class_of_mono}
use phactor.Copy.Classes.Hierarchy.{
  with_class, with_entry, entry-made, listed-made, copy_ce-makes, made,
}
use phactor.Copy.Classes.Known.{IsKnown, copy_ce-known}
use phactor.Copy.Classes.Names.{Names, Names-map, NamesBlock, NamesAliases, NamesPrecedences}
use phactor.Copy.Classes.Ordered.{is_made}
use phactor.Copy.Functions.Compiled.{IsLocalNames}
use phactor.Copy.Tables.{find-append, find-append_old, add-append, bytes_eq_refl}
use phactor.Copy.Zend.{Zend, IsZend, bytes_eq, find}

module _ (zend : Zend) (classes : Ptr → Option ClassEntry) where
  -- A child and its parent, both new to the thread, which has every other class that they name.
  pub record IsChildFirst (p pp : Ptr) (c cp : ClassEntry) (s : CopyState) : Type 0 where
    pub child_at : classes p ≡ some c
    pub child_class : (p == null) ≡ false
    pub child_made : is_made zend c ≡ true
    pub child_new : find s.class_table (zend.zend_string_tolower c.name) ≡ none
    pub child_copyable : IsCopyable zend c
    pub parent_of : c.parent ≡ pp
    pub interfaces : NamesBlock (IsKnown zend classes s.class_table) c.num_interfaces c.interfaces
    pub traits : NamesBlock (IsKnown zend classes s.class_table) c.num_traits c.traits
    pub aliases : NamesAliases (IsKnown zend classes s.class_table) c.trait_aliases
    pub precedences : NamesPrecedences (IsKnown zend classes s.class_table) c.trait_precedences
    pub parent_at : classes pp ≡ some cp
    pub parent_class : (pp == null) ≡ false
    pub parent_made : is_made zend cp ≡ true
    pub parent_new : find s.class_table (zend.zend_string_tolower cp.name) ≡ none
    pub parent_names : Names (IsKnown zend classes s.class_table) cp
    pub parent_copyable : IsCopyable zend cp
    pub apart :
        bytes_eq (zend.zend_string_tolower c.name).val (zend.zend_string_tolower cp.name).val
        ≡ false
    pub file_names : IsLocalNames s.op_array_file_names
    pub arena : 0 < s.next

  -- The table leads to a child whose parent is not the class that it leads to for the parent.
  pub record IsTwice (c cp : ClassEntry) (t : CopyState) : Type 0 where
    pub child : Ptr
    pub entry : ClassEntry
    pub parent : Ptr
    pub child_found : find t.class_table (zend.zend_string_tolower c.name) ≡ some child
    pub child_stored : t.arena child ≡ some entry
    pub parent_found : find t.class_table (zend.zend_string_tolower cp.name) ≡ some parent
    pub other : entry.parent ≢ parent

module _ {zend : Zend} (laws : IsZend zend) (classes : Ptr → Option ClassEntry) (fuel : ℕ) where
  both :
      (p pp : Ptr) (c cp : ClassEntry) (s t u : CopyState)
      → classes p ≡ some c
      → copy_listed zend classes (suc (suc (suc fuel))) p c.type c s ≡ ok tt t
      → classes pp ≡ some cp
      → copy_listed zend classes (suc (suc (suc fuel))) pp cp.type cp t ≡ ok tt u
      → copy_ces zend classes (suc (suc (suc fuel))) (p ∷ pp ∷ []) s ≡ ok tt u
  unfolding copy_ces
  both p pp c cp s t u at run at' run' = rw (at, run, at', run') refl

  at_class :
      (p : Ptr) (c : ClassEntry) (s : CopyState) {r : CopyOutcome Ptr}
      → classes p ≡ some c
      → (p == null) ≡ false
      → copy_entry zend (copy_ce zend classes (suc (suc fuel))) c.type c s ≡ r
      → copy_ce zend classes (suc (suc (suc fuel))) p s ≡ r
  unfolding copy_ce
  at_class p c s at class e = rw (class, at) e

  -- Where a class of the script stands before its parent in the main thread's table, and the
  -- thread has neither, `copy_ces` on the two returns, with a fuel of 3, and makes the parent
  -- twice: the parent of the child's copy is another class than the one that the thread's table
  -- leads to under the parent's name.
  pub child_first-IsTwice :
      (p pp : Ptr) (c cp : ClassEntry) (s : CopyState)
      → IsChildFirst zend classes p pp c cp s
      → (t : CopyState) × (copy_ces zend classes (suc (suc (suc fuel))) (p ∷ pp ∷ []) s ≡ ok tt t)
        × IsTwice zend classes c cp t
  child_first-IsTwice p pp c cp s h =
      let ckey = zend.zend_string_tolower c.name in
      let pkey = zend.zend_string_tolower cp.name in
      let s1 : CopyState = record s { next = s.next + 1 } in
      let (new_p, names1, run_p, _, l1) =
        copy_ce-makes laws classes fuel pp cp s1 h.parent_at h.parent_class h.parent_made
          h.parent_new h.parent_names h.parent_copyable h.file_names in
      let s2 = with_entry laws classes fuel s1 new_p names1 in
      let copy = copy_ce zend classes (suc (suc fuel)) in
      let copies_parent : copy c.parent s1 ≡ ok s1.next s2 =
        ap (λ q. copy q s1) h.parent_of ∙ run_p in
      let (new, names2, e, _, _, is_parent, _, _, l2) =
        create-after_parent laws classes copy c s s2 s1.next copies_parent
          (λ p q t. copy_ce-known zend classes (suc fuel) p q t) h.interfaces h.traits h.aliases
          h.precedences h.child_copyable l1 in
      let s3 : CopyState = record {
        class_table = s.class_table;
        arena = λ r. if r == s.next then some new else s2.arena r;
        next = s2.next;
        op_array_file_names = names2;
      } in
      let run_c : copy_ce zend classes (suc (suc (suc fuel))) p s ≡ ok s.next s3 =
        at_class p c s h.child_at h.child_class
          (entry-made laws classes (suc fuel) c.type c s h.child_made h.child_new ∙ e) in
      let s4 : CopyState = record s3 { class_table = s.class_table ++ (ckey, s.next) ∷ [] } in
      let enters : copy_listed zend classes (suc (suc (suc fuel))) p c.type c s ≡ ok tt s4 =
        listed-made laws classes (suc fuel) c.type p s.next c s s3 h.child_made run_c (ground arith)
        ∙ ap (λ u. ok tt (record s3 { class_table = u }))
            (add-append s.class_table ckey s.next h.child_new) in
      let unknown : find s4.class_table pkey ≡ none =
        find-append s.class_table ckey pkey s.next h.parent_new ∙ rw h.apart refl in
      let names4 : Names (IsKnown zend classes s4.class_table) cp =
        Names-map
          (λ q known. (
            known.0,
            class_of_mono zend classes s.class_table s4.class_table q known.0
                (λ k v. find-append_old s.class_table ckey k s.next v) known.1,
          ))
          cp h.parent_names in
      let (newer, names5, again, _, _) =
        made laws classes (suc fuel) pp cp s4 h.parent_at h.parent_class h.parent_made unknown
          (omega arith) names4 h.parent_copyable l2 in
      (
        with_class laws classes (suc fuel) s4 cp newer names5,
        both p pp c cp s s4 _ h.child_at enters h.parent_at again,
        record {
          child = s.next;
          entry = new;
          parent = s.next + 1 + 1;
          child_found = find-append_old s4.class_table pkey ckey (s.next + 1 + 1) s.next (
              find-append s.class_table ckey ckey s.next h.child_new
              ∙ rw (bytes_eq_refl ckey.val) refl);
          child_stored = ground arith;
          parent_found =
              find-append s4.class_table pkey pkey (s.next + 1 + 1) unknown
              ∙ rw (bytes_eq_refl pkey.val) refl;
          other = λ same. absurd (omega (arith, is_parent, same));
        },
      )

-- ===== src/Copy/Classes/Hierarchy.antt =====
-- `copy_ces` of src/ph_copy.c copies the classes of the main thread with their hierarchy.
use phactor.Base.{
  ℕ, suc, ◌+◌, ◌<◌, ◌≡◌, refl, ap, ◌∙◌, Bool, true, false, Option, none, some, [], ◌∷◌, ◌++◌, arith,
  ◌==◌, if◌then◌else◌, Ptr, null, Bool-cases, inl, inr,
}
use phactor.Copy.Classes.{create_new_ce, copy_entry, copy_ce, copy_listed, copy_ces}
use phactor.Copy.Classes.Creation.{IsCopyable, IsClassCopy, create_new_ce-IsClassCopy}
use phactor.Copy.Classes.Defs.{
  ClassType, internal_class, user_class, ClassEntry, CopyState, ok, Copy,
}
use phactor.Copy.Classes.Growth.{Extends, IsClassCopy-mono, AreDone-mono, earlier-IsKnown}
use phactor.Copy.Classes.Known.{IsKnown, copy_ce-known}
use phactor.Copy.Classes.Names.{Names, Names-map}
use phactor.Copy.Classes.Ordered.{
  Listed, addresses, is_made_type, is_made, listing, IsPresent, Requires, IsOrdered, IsDoneIf,
  AreDone,
}
use phactor.Copy.Functions.Compiled.{IsLocalNames}
use phactor.Copy.Tables.{
  IsFresh, IsDistinct, IsFresh-append, find-append, find-append_old, add-append, bytes_eq_refl,
}
use phactor.Copy.Zend.{ZendString, Zend, IsZend, Table, find, add}

module _ {zend : Zend} (laws : IsZend zend) (classes : Ptr → Option ClassEntry) (fuel : ℕ) where
  abbrev pub copy : Ptr → Copy Ptr
  copy = copy_ce zend classes (suc fuel)

  -- the state with a new class behind the last
  abbrev pub with_class : CopyState → ClassEntry → ClassEntry → Table ZendString → CopyState
  with_class s c new names = record {
    class_table = s.class_table ++ (zend.zend_string_tolower c.name, s.next) ∷ [];
    arena = λ q. if q == s.next then some new else s.arena q;
    next = s.next + 1;
    op_array_file_names = names;
  }

  pub entry-made :
      (type : ClassType) (c : ClassEntry) (s : CopyState)
      → is_made_type zend type c ≡ true
      → find s.class_table (zend.zend_string_tolower c.name) ≡ none
      → copy_entry zend copy type c s ≡ create_new_ce zend copy c s
  unfolding copy_entry
  entry-made internal_class c s m f = cc
  entry-made user_class c s m f =
      let named : zend.is_anon_class c.ce_flags ≡ false = ground arith in rw (named, f) refl

  pub listed-made :
      (type : ClassType) (p q : Ptr) (c : ClassEntry) (s t : CopyState)
      → is_made_type zend type c ≡ true
      → copy_ce zend classes (suc (suc fuel)) p s ≡ ok q t
      → (q == null) ≡ false
      → copy_listed zend classes (suc (suc fuel)) p type c s
        ≡ ok tt (record t { class_table = add t.class_table (zend.zend_string_tolower c.name) q })
  unfolding copy_listed
  listed-made internal_class p q c s t m e n = cc
  listed-made user_class p q c s t m e n = rw (e, n) refl

  listed-skipped :
      (type : ClassType) (p : Ptr) (c : ClassEntry) (s : CopyState)
      → c.type ≡ type
      → is_made_type zend type c ≡ false
      → classes p ≡ some c
      → (p == null) ≡ false
      → copy_listed zend classes (suc (suc fuel)) p type c s ≡ ok tt s
  unfolding copy_listed copy_ce copy_entry
  listed-skipped internal_class p c s e m at n = refl
  listed-skipped user_class p c s e m at n =
      let anon : zend.is_anon_class c.ce_flags ≡ true = ground arith in rw (n, at, e, anon) refl

  -- the state with a new class that no table leads to yet
  abbrev pub with_entry : CopyState → ClassEntry → Table ZendString → CopyState
  with_entry s new names = record {
    class_table = s.class_table;
    arena = λ q. if q == s.next then some new else s.arena q;
    next = s.next + 1;
    op_array_file_names = names;
  }

  -- A class that the thread has not is made at the next address, and not entered in the table.
  pub copy_ce-makes :
      (p : Ptr) (c : ClassEntry) (s : CopyState)
      → classes p ≡ some c
      → (p == null) ≡ false
      → is_made zend c ≡ true
      → find s.class_table (zend.zend_string_tolower c.name) ≡ none
      → Names (IsKnown zend classes s.class_table) c
      → IsCopyable zend c
      → IsLocalNames s.op_array_file_names
      → (new : ClassEntry) × (names : Table ZendString) × (copy_ce zend classes (suc (suc fuel)) p s
          ≡ ok s.next (with_entry s new names))
        × IsClassCopy zend classes s.class_table s.next c new
        × IsLocalNames names
  unfolding copy_ce
  copy_ce-makes p c s at n m f ready k l =
      let (new, names, e, same, l') =
        create_new_ce-IsClassCopy laws classes copy c s
          (λ p q t. copy_ce-known zend classes fuel p q t) ready k l in
      let entry : copy_entry zend copy c.type c s ≡ ok s.next (with_entry s new names) =
        entry-made c.type c s m f ∙ e in
      (new, names, rw (n, at) entry, same, l')

  pub made :
      (p : Ptr) (c : ClassEntry) (s : CopyState)
      → classes p ≡ some c
      → (p == null) ≡ false
      → is_made zend c ≡ true
      → find s.class_table (zend.zend_string_tolower c.name) ≡ none
      → 0 < s.next
      → Names (IsKnown zend classes s.class_table) c
      → IsCopyable zend c
      → IsLocalNames s.op_array_file_names
      → (new : ClassEntry) × (names : Table ZendString) × (copy_listed zend classes
            (suc (suc fuel))
            p
            c.type
            c
            s
          ≡ ok tt (with_class s c new names))
        × IsClassCopy zend classes s.class_table s.next c new
        × IsLocalNames names
  made p c s at n m f pos ready k l =
      let (new, names, run, same, l') = copy_ce-makes p c s at n m f ready k l in
      let t = with_entry s new names in
      (
        new,
        names,
        listed-made c.type p s.next c s t m run (ground arith)
            ∙ ap (λ u. ok tt (record t { class_table = u }))
                (add-append s.class_table (zend.zend_string_tolower c.name) s.next f),
        same,
        l',
      )

  with_class-IsDone :
      (p : Ptr) (c : ClassEntry) (s : CopyState) (new : ClassEntry) (names : Table ZendString)
      → find s.class_table (zend.zend_string_tolower c.name) ≡ none
      → IsClassCopy zend classes s.class_table s.next c new
      → (b : Bool) → IsDoneIf zend classes (with_class s c new names) c b
  with_class-IsDone p c s new names f same false = tt
  with_class-IsDone p c s new names f same true =
      let key = zend.zend_string_tolower c.name in
      record {
        copy = s.next;
        entry = new;
        found = find-append s.class_table key key s.next f ∙ rw (bytes_eq_refl key.val) refl;
        stored = ground arith;
        below = omega arith;
        same =
            IsClassCopy-mono zend classes s.class_table (with_class s c new names).class_table
              (λ k v h. find-append_old s.class_table key k s.next v h) same;
      }

  -- The loop of `copy_ces`, where the classes `earlier` are done.
  loop :
      (earlier todo : Listed) (s : CopyState)
      → IsPresent zend classes earlier
      → IsPresent zend classes todo
      → IsOrdered zend classes earlier todo
      → IsDistinct (listing zend todo)
      → IsFresh (listing zend todo) s.class_table
      → IsLocalNames s.op_array_file_names
      → 0 < s.next
      → AreDone zend classes s earlier
      → (t : CopyState) × (copy_ces zend classes (suc (suc fuel)) (addresses todo) s ≡ ok tt t)
        × AreDone zend classes t earlier
        × AreDone zend classes t todo
  unfolding copy_ces
  loop earlier [] s he ht o d f l pos done = (s, refl, done, tt)
  loop earlier ((p, c) ∷ todo) s he ht o d f l pos done = elim (Bool-cases (is_made zend c)) [
    | inr skipped ↦
        let d' : IsDistinct (listing zend todo) = rw skipped at d in
        let f' : IsFresh (listing zend todo) s.class_table = rw skipped at f in
        let none_due : IsDoneIf zend classes s c (is_made zend c) = rw skipped tt in
        let (t, run, done', done_todo) =
          loop ((p, c) ∷ earlier) todo s (ht.0, he) ht.1 o.1 d' f' l pos (none_due, done) in
        (
          t,
          rw (ht.0.0, listed-skipped c.type p c s refl skipped ht.0.0 ht.0.1) run,
          done'.1,
          (done'.0, done_todo),
        )
    | inl due ↦
        let key = zend.zend_string_tolower c.name in
        let d' : IsDistinct ((key, p) ∷ listing zend todo) = rw due at d in
        let f' : IsFresh ((key, p) ∷ listing zend todo) s.class_table = rw due at f in
        let required : Requires zend classes earlier c true = rw due at o.0 in
        let ready =
          Names-map (λ q. earlier-IsKnown zend classes s earlier q he done) c required.0 in
        let (new, names, e, same, l') = made p c s ht.0.0 ht.0.1 due f'.0 pos ready required.1 l in
        let u = with_class s c new names in
        let extends : Extends s.class_table u.class_table =
          λ k v h. find-append_old s.class_table key k s.next v h in
        let (t, run, done', done_todo) =
          loop ((p, c) ∷ earlier) todo u (ht.0, he) ht.1 o.1 d'.1
            (IsFresh-append (listing zend todo) s.class_table key s.next d'.0 f'.1) l' (omega arith)
            (
              with_class-IsDone p c s new names f'.0 same (is_made zend c),
              AreDone-mono zend classes s u extends (λ q b. ground arith) (omega arith) earlier
                  done,
            ) in
        (t, rw (ht.0.0, e) run, done'.1, (done'.0, done_todo))
  ]

  -- `copy_ces`, on a class table in which each class of the script stands behind the classes
  -- that it names, under different lowercase names that the thread has not, returns with a fuel
  -- of 2. The thread's table then leads from each of these names to a new class, with the old
  -- name, with methods of its own and with default values outside the main thread's memory,
  -- whose parent, interfaces and traits are the classes that the table leads to.
  pub copy_ces-AreDone :
      (todo : Listed) (s : CopyState)
      → IsPresent zend classes todo
      → IsOrdered zend classes [] todo
      → IsDistinct (listing zend todo)
      → IsFresh (listing zend todo) s.class_table
      → IsLocalNames s.op_array_file_names
      → 0 < s.next
      → (t : CopyState) × (copy_ces zend classes (suc (suc fuel)) (addresses todo) s ≡ ok tt t)
        × AreDone zend classes t todo
  copy_ces-AreDone todo s h o d f l pos =
      let (t, run, _, done) = loop [] todo s tt h o d f l pos tt in (t, run, done)

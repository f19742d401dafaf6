-- ===== src/Copy/Classes/Growth.antt =====
-- A class table that grows keeps what it resolves: what was copied before by src/ph_copy.c stays.
use phactor.Base.{
  ℕ, zero, suc, ◌≤◌, ◌<◌, ◌≡◌, refl, ◌∙◌, Bool, true, false, Option, none, some, List, [], ◌∷◌,
  arith, ◌==◌, Ptr, null, Bool-cases, Option-cases, inl, inr,
}
use phactor.Copy.Classes.Creation.{IsClassCopy}
use phactor.Copy.Classes.Defs.{ClassType, internal_class, user_class, ClassEntry, CopyState}
use phactor.Copy.Classes.Ordered.{
  Listed, IsIn, is_made_type, is_made, IsPresent, IsEarlier, IsDone, IsDoneIf, AreDone,
}
use phactor.Copy.Classes.Known.{class_of, class_of_entry, IsKnown, Resolves, ResolvesBlock}
use phactor.Copy.Tables.{All-map}
use phactor.Copy.Zend.{ZendString, Zend, Table, find}

abbrev pub Extends : Table Ptr → Table Ptr → Type 0
Extends t u = (key : ZendString) (v : Ptr) → find t key ≡ some v → find u key ≡ some v

module _ (zend : Zend) (classes : Ptr → Option ClassEntry) where
  entry_mono :
      (t u : Table Ptr) (type : ClassType) (c : ClassEntry) (q : Ptr)
      → Extends t u
      → class_of_entry zend classes t type c ≡ some q
      → class_of_entry zend classes u type c ≡ some q
  entry_mono t u internal_class c q x h = h
  entry_mono t u user_class c q x h = elim (Bool-cases (zend.is_anon_class c.ce_flags)) [
    | inl anon ↦ rw anon (rw anon at h)
    | inr named ↦ rw named (x (zend.zend_string_tolower c.name) q (rw named at h))
  ]

  pub class_of_mono :
      (t u : Table Ptr) (p q : Ptr)
      → Extends t u
      → class_of zend classes t p ≡ some q
      → class_of zend classes u p ≡ some q
  class_of_mono t u p q x h = elim (Bool-cases (p == null)) [
    | inl nothing ↦ rw nothing (rw nothing at h)
    | inr class ↦ elim (Option-cases (classes p)) [
      | inl missing ↦ absurd (ground arith)
      | inr (c, at) ↦ rw (class, at) (entry_mono t u c.type c q x (rw (class, at) at h))
    ]
  ]

  Resolves-mono :
      (t u : Table Ptr) (n : ℕ) (ps qs : List Ptr)
      → Extends t u
      → Resolves zend classes t n ps qs
      → Resolves zend classes u n ps qs
  Resolves-mono t u zero ps qs x h = h
  Resolves-mono t u (suc n) [] qs x h = h
  Resolves-mono t u (suc n) (p ∷ ps) [] x h = h
  Resolves-mono t u (suc n) (p ∷ ps) (q ∷ qs) x h =
      (class_of_mono t u p q x h.0, Resolves-mono t u n ps qs x h.1)

  block_mono :
      (t u : Table Ptr) (n : ℕ) (o o' : Option (List Ptr))
      → Extends t u
      → ResolvesBlock zend classes t n o o'
      → ResolvesBlock zend classes u n o o'
  block_mono t u n none o' x h = h
  block_mono t u n (some ps) none x h = h
  block_mono t u n (some ps) (some qs) x h = Resolves-mono t u n ps qs x h

  pub IsClassCopy-mono :
      (t u : Table Ptr) {p : Ptr} {c new : ClassEntry}
      → Extends t u
      → IsClassCopy zend classes t p c new
      → IsClassCopy zend classes u p c new
  IsClassCopy-mono t u {c} {new} x h = record {
    members = h.members;
    name = h.name;
    parent = class_of_mono t u c.parent new.parent x h.parent;
    interfaces = block_mono t u c.num_interfaces c.interfaces new.interfaces x h.interfaces;
    traits = block_mono t u c.num_traits c.traits new.traits x h.traits;
  }

  module _ (s t : CopyState) (x : Extends s.class_table t.class_table)
      (old : (q : Ptr) → q < s.next → t.arena q ≡ s.arena q) (longer : s.next ≤ t.next) where
    IsDoneIf-mono :
        (c : ClassEntry) (b : Bool) → IsDoneIf zend classes s c b → IsDoneIf zend classes t c b
    IsDoneIf-mono c false d = tt
    IsDoneIf-mono c true d = record {
      copy = d.copy;
      entry = d.entry;
      found = x (zend.zend_string_tolower c.name) d.copy d.found;
      stored = old d.copy d.below ∙ d.stored;
      below = omega (arith, d.below);
      same = IsClassCopy-mono s.class_table t.class_table x d.same;
    }

    pub AreDone-mono : (l : Listed) → AreDone zend classes s l → AreDone zend classes t l
    AreDone-mono l = All-map l (λ e. IsDoneIf-mono e.1 (is_made zend e.1))

  module _ (s : CopyState) where
    done-known :
        (type : ClassType) (c : ClassEntry)
        → IsDoneIf zend classes s c (is_made_type zend type c)
        → (q : Ptr) × (class_of_entry zend classes s.class_table type c ≡ some q)
    done-known internal_class c d = (zend.zend_lookup_class c.name, refl)
    done-known user_class c d = elim (Bool-cases (zend.is_anon_class c.ce_flags)) [
      | inl anon ↦ (null, rw anon refl)
      | inr named ↦
          let done : IsDone zend classes s c = rw named at d in (done.copy, rw named done.found)
    ]

    in-IsKnown :
        (l : Listed) (q : Ptr)
        → IsPresent zend classes l
        → AreDone zend classes s l
        → IsIn q l
        → IsKnown zend classes s.class_table q
    in-IsKnown [] q h d i = absurd i
    in-IsKnown ((p, c) ∷ l) q h d (inr i) = in-IsKnown l q h.1 d.1 i
    in-IsKnown ((p, c) ∷ l) q h d (inl e) =
        let (r, found) = done-known c.type c d.0 in (r, rw (e, h.0.1, h.0.0) found)

    -- Of classes that are done, a class that names them has every name known.
    pub earlier-IsKnown :
        (l : Listed) (q : Ptr)
        → IsPresent zend classes l
        → AreDone zend classes s l
        → IsEarlier zend classes l q
        → IsKnown zend classes s.class_table q
    earlier-IsKnown l q h d (inl (r, e)) = (r, class_of_mono [] s.class_table q r (λ key v n. cc) e)
    earlier-IsKnown l q h d (inr i) = in-IsKnown l q h d i

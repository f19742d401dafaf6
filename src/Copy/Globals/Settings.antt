-- ===== src/Copy/Globals/Settings.antt =====
-- The settings and constants that src/ph_copy.c leaves a new thread with.
use phactor.Base.{
  ◌≡◌, ◌⊎◌, refl, sym, ap, subst, ◌∙◌, true, false, Option, none, some, [], ◌∷◌, arith,
  if◌then◌else◌, Bool-cases, inl, inr,
}
use mathlib.Core.Path.{ap₂}
use phactor.Copy.Globals.{
  IniEntry, strcmp_eq, c_string, update_found, copy_ini_entry, ini_round, copy_ini_directives,
  mark_modified, set_value, copy_ini_value,
}
use phactor.Copy.Tables.{
  All, All-map, IsDistinct, bytes_eq_refl, bytes_eq_sound, bytes_eq-sym, find-val,
}
use phactor.Copy.Zend.{ZendString, Zend, IsZend, bytes_eq, Table, find}

module _ {A : Type 0} where
  update_found-same :
      (t : Table A) (name key : ZendString) (a b : A)
      → bytes_eq name.val key.val ≡ true
      → find t key ≡ some b
      → find (update_found t name a) key ≡ some a
  unfolding update_found
  update_found-same [] name key a b e h = cc
  update_found-same ((k, v) ∷ t) name key a b e h =
      let same = bytes_eq_sound name.val key.val e in
      elim (Bool-cases (bytes_eq k.val key.val)) [
        | inl here ↦
            let at : bytes_eq k.val name.val ≡ true = ap (bytes_eq k.val) same ∙ here in
            rw at (rw here refl)
        | inr there ↦
            let off : bytes_eq k.val name.val ≡ false = ap (bytes_eq k.val) same ∙ there in
            rw off (rw there (update_found-same t name key a b e (rw there at h)))
      ]

  update_found-other :
      (t : Table A) (name key : ZendString) (a : A)
      → bytes_eq name.val key.val ≡ false
      → find (update_found t name a) key ≡ find t key
  unfolding update_found
  update_found-other [] name key a e = refl
  update_found-other ((k, v) ∷ t) name key a e = elim (Bool-cases (bytes_eq k.val name.val)) [
    | inl here ↦
        let apart : bytes_eq k.val key.val ≡ false =
          ap (λ l. bytes_eq l key.val) (bytes_eq_sound k.val name.val here) ∙ e in
        rw here (rw apart refl)
    | inr there ↦ rw there (ground (arith, update_found-other t name key a e))
  ]

module _ (zend : Zend) where
  round-other :
      (new : Table IniEntry) (name key : ZendString) (old : IniEntry) (o : Option IniEntry)
      → bytes_eq name.val key.val ≡ false
      → find (ini_round zend new name old o) key ≡ find new key
  unfolding ini_round
  round-other new name key old none e = refl
  round-other new name key old (some u) e =
      update_found-other new name key (copy_ini_entry zend old u) e

  copy_ini-other :
      (new old : Table IniEntry) (key : ZendString)
      → All (λ e. bytes_eq e.0.val key.val ≡ false) old
      → find (copy_ini_directives zend new old) key ≡ find new key
  unfolding copy_ini_directives
  copy_ini-other new [] key a = refl
  copy_ini-other new ((name, v) ∷ old) key a =
      copy_ini-other (ini_round zend new name v (find new name)) old key a.1
      ∙ round-other new name key v (find new name) a.0

  copy_ini-found :
      (new old : Table IniEntry) (key : ZendString) (v e : IniEntry)
      → IsDistinct old
      → find old key ≡ some v
      → find new key ≡ some e
      → find (copy_ini_directives zend new old) key ≡ some (copy_ini_entry zend v e)
  unfolding copy_ini_directives ini_round
  copy_ini-found new [] key v e d h n = cc
  copy_ini-found new ((name, u) ∷ old) key v e d h n =
      elim (Bool-cases (bytes_eq name.val key.val)) [
        | inl here ↦
            let same = bytes_eq_sound name.val key.val here in
            let is_v : u ≡ v = ground arith in
            let apart =
              All-map old
                (λ x far.
                  bytes_eq-sym x.0.val key.val ∙ ap (λ l. bytes_eq l x.0.val) (sym same) ∙ far)
                d.0 in
            copy_ini-other (ini_round zend new name u (find new name)) old key apart
            ∙ rw (find-val new name key same ∙ n) (
                update_found-same new name key (copy_ini_entry zend u e) e here n
                ∙ ap (λ w. some (copy_ini_entry zend w e)) is_v)
        | inr there ↦
            copy_ini-found (ini_round zend new name u (find new name)) old key v e d.1
              (rw there at h) (round-other new name key u (find new name) there ∙ n)
      ]

-- A setting with both values after the copy: it has the main thread's value, as a C string, and may be
-- changed as before. It is untouched, or marked as modified with the value that it had at first.
pub record IsCopied (value : ZendString) (before after : IniEntry) : Type 0 where
  pub given : ZendString
  pub has_given : after.value ≡ some given
  pub equal : strcmp_eq value.val given.val ≡ true
  pub modifiable : after.modifiable ≡ before.modifiable
  pub marked :
      (after ≡ before)
      ⊎ ((after.modified ≡ true)
          × (after.orig_value ≡ (if before.modified then before.orig_value else before.value)))

module _ {zend : Zend} (laws : IsZend zend) where
  mark_modified_lem :
      (e : IniEntry)
      → ((mark_modified zend e).modified ≡ true)
        × ((mark_modified zend e).orig_value ≡ (if e.modified then e.orig_value else e.value))
  unfolding mark_modified
  mark_modified_lem e = elim (Bool-cases e.modified) [
    | inl m ↦ (ground arith, ground arith)
    | inr n ↦ (ground arith, ground arith)
  ]

  value-IsCopied :
      (before : IniEntry) (v w : ZendString)
      → before.value ≡ some w
      → IsCopied v before (copy_ini_value zend before (some v) (some w))
  unfolding copy_ini_value set_value
  value-IsCopied before v w b = elim (Bool-cases (strcmp_eq v.val w.val)) [
    | inl same ↦
        rw same
          (record { given = w; has_given = b; equal = same; modifiable = refl; marked = inl refl })
    | inr other ↦ rw other (record {
      given = zend.zend_string_dup v;
      has_given = refl;
      equal = rw (laws.dup_val v) (bytes_eq_refl (c_string v.val));
      modifiable = refl;
      marked = inr (mark_modified_lem before);
    })
  ]

  entry-IsCopied :
      (main before : IniEntry) (v w : ZendString)
      → main.value ≡ some v
      → before.value ≡ some w
      → IsCopied v before (copy_ini_entry zend main before)
  unfolding copy_ini_entry
  entry-IsCopied main before v w m b =
      subst (IsCopied v before) (ap₂ (copy_ini_value zend before) (sym m) (sym b))
        (value-IsCopied before v w b)

  -- A setting that both threads have with a value has the main thread's value after
  -- `copy_ini_directives`, as a C string, and may be changed as before. It is untouched, or
  -- marked as modified with the value that it had at first.
  pub copy_ini_directives-IsCopied :
      (new old : Table IniEntry) (key : ZendString) (main before : IniEntry) (v w : ZendString)
      → IsDistinct old
      → find old key ≡ some main
      → find new key ≡ some before
      → main.value ≡ some v
      → before.value ≡ some w
      → (after : IniEntry) × (find (copy_ini_directives zend new old) key ≡ some after)
        × IsCopied v before after
  copy_ini_directives-IsCopied new old key main before v w d o n m b = (
    copy_ini_entry zend main before,
    copy_ini-found zend new old key main before d o n,
    entry-IsCopied main before v w m b,
  )

-- ===== src/Value/RoundTrip.antt =====
-- What a value is after it crossed from one thread to another.
use phactor.Base.{
  ℕ, zero, suc, ◌-◌, ◌%◌, ◌^◌, ◌≤◌, ◌<◌, ◌≡◌, refl, sym, ap, ◌∙◌, ◌⊎◌, Option, none, some, List, [],
  ◌∷◌, arith, length, take,
}
use phactor.PhString.{ph_str_create}
use phactor.Copy.Zend.{Zend}
use phactor.Value.{
  PhpTypes, Zval, Entry, Php, Thread, copy_bytes, convert_array, convert_plain_object,
  convert_object, ph_entry_convert_from_zval, ph_entry_convert_to_zval,
}

-- A `zend_long` that an `int` can hold.
abbrev pub FitsInt : ℕ → Type 0
FitsInt n = (n < 2 ^ 31) ⊎ ((2 ^ 64 - 2 ^ 31 ≤ n) × (n < 2 ^ 64))

take-length : (s : List ℕ) (n : ℕ) → n ≡ length s → take n s ≡ s
take-length [] zero h = refl
take-length [] (suc n) h = absurd (omega arith)
take-length (x ∷ s) zero h = absurd (omega arith)
take-length (x ∷ s) (suc n) h = ap (◌∷◌ x) (take-length s n (omega arith))

copy_bytes-val : (s : List ℕ) → length s < 2 ^ 31 → (copy_bytes s).val ≡ s
unfolding ph_str_create
copy_bytes-val s h = take-length s (length s % 2 ^ 32) (omega arith)

module _ {T : PhpTypes} (zend : Zend) (php : Php T) where
  -- What PHP documents of its serialiser: a value that can be serialised comes back. The bytes are
  -- fewer than 2 ^ 31.
  pub record IsFaithful : Type 0 where
    pub array_back :
        (a : T.Arr) (bytes : List ℕ)
        → php.serialize_array a ≡ some bytes
        → (php.unserialize bytes ≡ Zval.array a) × (length bytes < 2 ^ 31)
    pub object_back :
        (o : T.Obj) (bytes : List ℕ)
        → php.serialize_object o ≡ some bytes
        → (php.unserialize bytes ≡ Zval.object o) × (length bytes < 2 ^ 31)

  -- Values of an actor's program, without the pseudo-type and closures; strings of at most 2 GiB,
  -- and integers within 32 bits.
  abbrev pub IsSendable : Zval T → Type 0
  IsSendable (Zval.string s) = length s < 2 ^ 31
  IsSendable (Zval.long n) = FitsInt n
  IsSendable (Zval.pseudo_bool n) = ⊥
  IsSendable (Zval.object o) = php.closure o ≡ none
  IsSendable _ = Unit {0}

  to_zval_congr :
      (t : Thread) {a b : Entry T}
      → some a ≡ some b
      → ph_entry_convert_to_zval zend php t b ≡ ph_entry_convert_to_zval zend php t a
  to_zval_congr t h = cc

  array_round_trip :
      (t : Thread) (a : T.Arr) (o : Option (List ℕ)) (e : Entry T)
      → IsFaithful
      → php.serialize_array a ≡ o
      → convert_array php o ≡ some e
      → ph_entry_convert_to_zval zend php t e ≡ some (Zval.array a, t)
  unfolding convert_array ph_entry_convert_to_zval
  array_round_trip t a none e law s h = cc
  array_round_trip t a (some bytes) e law s h =
      let (back, small) = law.array_back a bytes s in
      to_zval_congr t h
      ∙ ap (λ b. some (php.unserialize b, t)) (copy_bytes-val bytes small)
      ∙ ap (λ v. some (v, t)) back

  object_round_trip :
      (t : Thread) (x : T.Obj) (o : Option (List ℕ)) (e : Entry T)
      → IsFaithful
      → php.closure x ≡ none
      → php.serialize_object x ≡ o
      → convert_object php (php.closure x) o ≡ some e
      → ph_entry_convert_to_zval zend php t e ≡ some (Zval.object x, t)
  unfolding convert_object convert_plain_object ph_entry_convert_to_zval
  object_round_trip t x o e law c s h = plain o s (ap (λ m. convert_object php m o) (sym c) ∙ h)
    where
      plain :
          (o : Option (List ℕ))
          → php.serialize_object x ≡ o
          → convert_object php none o ≡ some e
          → ph_entry_convert_to_zval zend php t e ≡ some (Zval.object x, t)
      plain none s h = cc
      plain (some bytes) s h =
          let (back, small) = law.object_back x bytes s in
          to_zval_congr t h
          ∙ ap (λ b. some (php.unserialize b, t)) (copy_bytes-val bytes small)
          ∙ ap (λ v. some (v, t)) back

  -- A value that the conversion accepts arrives as it was and leaves the thread's tables alone,
  -- whatever its type but the pseudo-type and closures: for a serialiser as PHP documents it,
  -- strings shorter than 2 ^ 31 bytes and integers within 32 bits.
  pub convert_round_trip :
      (t : Thread) (v : Zval T) (e : Entry T)
      → IsFaithful
      → IsSendable v
      → ph_entry_convert_from_zval php v ≡ some e
      → ph_entry_convert_to_zval zend php t e ≡ some (v, t)
  unfolding ph_entry_convert_from_zval ph_entry_convert_to_zval
  convert_round_trip t (Zval.string s) e law ok h =
      to_zval_congr t h ∙ ap (λ b. some (Zval.string b, t)) (copy_bytes-val s ok)
  convert_round_trip t (Zval.long n) e law ok h =
      to_zval_congr t h ∙ ap (λ m. some (Zval.long m, t)) (ground arith)
  convert_round_trip t (Zval.double d) e law ok h = to_zval_congr t h
  convert_round_trip t (Zval.pseudo_bool n) e law ok h = absurd ok
  convert_round_trip t Zval.is_true e law ok h = to_zval_congr t h
  convert_round_trip t Zval.is_false e law ok h = to_zval_congr t h
  convert_round_trip t Zval.is_null e law ok h = to_zval_congr t h
  convert_round_trip t (Zval.array a) e law ok h =
      array_round_trip t a (php.serialize_array a) e law refl h
  convert_round_trip t (Zval.object o) e law ok h =
      object_round_trip t o (php.serialize_object o) e law ok refl h
  convert_round_trip t (Zval.other type) e law ok h = cc

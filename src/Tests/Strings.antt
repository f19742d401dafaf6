-- ===== src/Tests/Strings.antt =====
-- Strings, references and values of concrete contents.
use phactor.ActorRef.{actor_ref_string}
use phactor.ActorRef.Names.{actor_ref_string-injective}
use phactor.Base.{
  ℕ, ◌≡◌, refl, ◌↔◌, Bool, length, ◌<◌, ◌^◌, true, false, none, some, List, [], ◌∷◌, arith, ◌==◌,
  if◌then◌else◌,
}
use phactor.PhString.{PhString, ph_str_create, ph_str_eq}
use phactor.PhString.Equality.{ph_str_eq_iff}
use phactor.Value.{
  PhpTypes, Zval, Entry, Php, Thread, convert_object, convert_plain_object,
  ph_entry_convert_from_zval, ph_entry_convert_to_zval,
}
use phactor.Value.RoundTrip.{IsFaithful, convert_round_trip}
use phactor.Tests.Copies.{zend, named, body}

abbrev pub ab : PhString
ab = record { len = 2; val = 97 ∷ 98 ∷ [] }

abbrev ac : PhString
ac = record { len = 2; val = 97 ∷ 99 ∷ [] }

ph_str_eq_iff_example : (ph_str_eq ab ac ≡ true) ↔ ((ab.len ≡ ac.len) × (ab.val ≡ ac.val))
ph_str_eq_iff_example = ph_str_eq_iff ab ac refl refl ((λ e. omega arith), ((λ e. omega arith), tt))

abbrev a_nul_b : PhString
a_nul_b = record { len = 3; val = 97 ∷ 0 ∷ 98 ∷ [] }

abbrev a_nul_c : PhString
a_nul_c = record { len = 3; val = 97 ∷ 0 ∷ 99 ∷ [] }

actor_ref_string-injective_example : ph_str_eq (actor_ref_string 7) (actor_ref_string 1234) ≡ false
actor_ref_string-injective_example =
    actor_ref_string-injective 7 1234 (omega arith) (omega arith) (λ e. omega arith)

-- PHP with one array and one plain object, which serialise to one byte each, and one closure
abbrev pub types : PhpTypes
types = record { Double = ℕ; Arr = Unit {0}; Obj = Bool }

pub revive : List ℕ → Zval types
revive [] = Zval.is_null
revive (b ∷ bytes) = if b == 97 then Zval.array tt else Zval.object false

abbrev pub php : Php types
php = record {
  serialize_array = λ a. some (97 ∷ []);
  serialize_object = λ o. if o then none else some (111 ∷ []);
  unserialize = revive;
  closure = λ o. if o then some body else none;
  zend_create_closure = λ f scope. Zval.object true;
  closure_name = λ v. named b'c';
}

php-IsFaithful : IsFaithful zend php
unfolding revive
php-IsFaithful = record {
  array_back = λ a bytes e. ground arith;
  object_back = λ o bytes e. plain o bytes e;
}
  where
    plain :
        (o : Bool) (bytes : List ℕ)
        → (if o then none else some (111 ∷ [])) ≡ some bytes
        → (revive bytes ≡ Zval.object o) × (length bytes < 2 ^ 31)
    plain true bytes e = cc
    plain false bytes e = ground arith

abbrev idle_thread : Thread
idle_thread = record { op_array_file_names = []; function_table = [] }

-- the plain object
convert_round_trip_example :
    ph_entry_convert_to_zval zend php idle_thread
      (Entry.object (record { len = 1; val = 111 ∷ [] }))
    ≡ some (Zval.object false, idle_thread)
unfolding ph_entry_convert_from_zval convert_object convert_plain_object ph_str_create
convert_round_trip_example =
    convert_round_trip zend php idle_thread (Zval.object false)
      (Entry.object (record { len = 1; val = 111 ∷ [] })) php-IsFaithful refl refl

-- ===== src/Examples/Frames.antt =====
-- The theorems on the wire check at a message with a string and a number, and a protowire for tags
-- and lengths of one byte.
use torana_plugin_sdk.Prelude.{
  ℕ, suc, ◌/◌, ◌%◌, ◌<◌, ◌≤◌, false, ◌&&◌, Bytes, List, [], ◌∷◌, Option, none, some, ok, err, codes,
  length, take, get_elem?, leb, ◌==◌, if◌then◌else◌, ◌≡◌, ◌≢◌, refl, sym, ap, arith,
}
use torana_plugin_sdk.Wire.{
  Protowire, IsProtowire, Kind, Field, fuel_exhausted, wire_type_for, is_message, is_packed,
  by_number, seen_oneof, check_oneof, packed_payload, packed_loop, check_packed, check_nested,
  check_tag, check_value, message_loop, required, validate_wire_message, validate_wire,
}
use torana_plugin_sdk.Wire.Total.{validate_wire-ne-fuel_exhausted}
use torana_plugin_sdk.Wire.Tags.{Tag, wire_tags, IsKnown}
use torana_plugin_sdk.Wire.Accepted.{InOneof, some_injective, accepted_wire}

abbrev short_tag : Bytes → Option (ℕ × ℕ × ℕ)
short_tag [] = none
short_tag (c ∷ cs) = some (c / 8, c % 8, 1)

abbrev short_value : ℕ → ℕ → Bytes → Option ℕ
short_value num typ [] = none
short_value num typ (c ∷ cs) =
    if typ == 0 then some 1 else if typ == 2 && leb c (length cs) then some (suc c) else none

abbrev short_bytes : Bytes → Option (Bytes × ℕ)
short_bytes [] = none
short_bytes (c ∷ cs) = if leb c (length cs) then some (take c cs, suc c) else none

abbrev short : Protowire
short = record {
  consume_tag = short_tag;
  consume_field_value = short_value;
  consume_bytes = short_bytes;
}

short_tag-length :
    (b : Bytes) (num typ n : ℕ) → short_tag b ≡ some (num, typ, n) → (n ≡ 1) × (0 < length b)
short_tag-length [] num typ n e = absurd cc
short_tag-length (c ∷ cs) num typ n e =
    let same = ap (λ t. t.2) (some_injective e) in (sym same, omega arith)

short_value-length : (num typ n : ℕ) (b : Bytes) → short_value num typ b ≡ some n → n ≤ length b
short_value-length num typ n [] e = absurd cc
short_value-length num typ n (c ∷ cs) e = ground arith

short_value-pos : (num typ n : ℕ) (b : Bytes) → short_value num typ b ≡ some n → 0 < n
short_value-pos num typ n [] e = absurd cc
short_value-pos num typ n (c ∷ cs) e = ground arith

short-IsProtowire : IsProtowire short
short-IsProtowire = record {
  tag_takes = λ b num typ n e.
      let p = short_tag-length b num typ n e in (omega (arith, p), omega (arith, p));
  value_takes = short_value-length;
  scalar_takes = λ num typ n b e _. short_value-pos num typ n b e;
}

abbrev schema : ℕ → List Field
schema md =
    record {
      number = 1;
      kind = Kind.string;
      is_list = false;
      oneof = some (codes "action");
      descriptor = 0;
    }
    ∷ record { number = 2; kind = Kind.other; is_list = false; oneof = none; descriptor = 0 }
    ∷ []

abbrev two_fields : Bytes
two_fields = 0x0A ∷ 1 ∷ b'x' ∷ 0x10 ∷ 5 ∷ []

two_fields-accepted : validate_wire_message short schema 100 0 two_fields ≡ ok tt
unfolding validate_wire_message message_loop check_tag check_value check_packed check_nested
    packed_loop required by_number check_oneof seen_oneof is_message is_packed wire_type_for
    packed_payload
two_fields-accepted = refl

validate_wire-ne-fuel_exhausted_example :
    validate_wire short schema 0 two_fields ≢ err fuel_exhausted
validate_wire-ne-fuel_exhausted_example =
    validate_wire-ne-fuel_exhausted short schema 0 two_fields short-IsProtowire

accepted_wire_example :
    (tags : List Tag) × (wire_tags short (length two_fields) two_fields ≡ some tags)
    × ((i : ℕ) (t : Tag) → get_elem? tags i ≡ some t → IsKnown (schema 0) t)
    × ((i j : ℕ) (t u : Tag) (name : Bytes)
        → get_elem? tags i ≡ some t
        → get_elem? tags j ≡ some u
        → InOneof (schema 0) name t
        → InOneof (schema 0) name u
        → i ≡ j)
accepted_wire_example = accepted_wire short schema 100 0 two_fields two_fields-accepted

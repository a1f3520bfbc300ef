-- ===== src/Wire.antt =====
-- pb/v1/decode.go: the check of a protobuf frame before it is unmarshalled. The package protowire is
-- the parameter `Protowire`, and message descriptors are a table from a number to their fields.
pub mod Total
pub mod Tags
pub mod Accepted
use torana_plugin_sdk.Prelude.{
  ℕ, zero, suc, ◌+◌, ◌≤◌, ◌<◌, Bool, true, false, not, ◌&&◌, ◌||◌, Bytes, List, [], ◌∷◌, Option,
  none, some, Result, Check, ok, err, ◌>>◌, ◌>>=◌, refuse_if, ◌==◌, bytes_eq, length, drop,
  if◌then◌else◌, ◌≡◌,
}

-- What a consumer of protowire reports: how many bytes it took, or `none` for a negative length.
pub record Protowire : Type 0 where
  -- `ConsumeTag`: the field number, the wire type, and the length of the tag
  pub consume_tag : Bytes → Option (ℕ × ℕ × ℕ)
  -- `ConsumeFieldValue`
  pub consume_field_value : ℕ → ℕ → Bytes → Option ℕ
  -- `ConsumeBytes`
  pub consume_bytes : Bytes → Option (Bytes × ℕ)

-- A consumer takes no more than there is; a tag and a value of the types varint, fixed32 and fixed64
-- have a byte at least.
pub record IsProtowire (p : Protowire) : Type 0 where
  pub tag_takes :
      (b : Bytes) (num typ n : ℕ) → p.consume_tag b ≡ some (num, typ, n) → (0 < n) × (n ≤ length b)
  pub value_takes :
      (num typ n : ℕ) (b : Bytes) → p.consume_field_value num typ b ≡ some n → n ≤ length b
  pub scalar_takes :
      (num typ n : ℕ) (b : Bytes)
      → p.consume_field_value num typ b ≡ some n
      → (typ == 0 || typ == 1 || typ == 5) ≡ true
      → 0 < n

-- `protoreflect.Kind`; `other` is any kind that `wireTypeFor` leaves to its default case
pub data Kind : Type 0 where
  message string bytes fixed32 sfixed32 float fixed64 sfixed64 double other : Kind

-- A field descriptor: `oneof` is the name of its containing oneof unless that is synthetic, and
-- `descriptor` the number of the message type of a message field.
pub record Field : Type 0 where
  pub number : ℕ
  pub kind : Kind
  pub is_list : Bool
  pub oneof : Option Bytes
  pub descriptor : ℕ

pub data WireError : Type 0 where
  too_deep invalid_tag unknown_field wrong_wire_type two_arms : WireError
  invalid_field invalid_packed_field invalid_message : WireError
  -- not of the source: the loop has used up its fuel
  fuel_exhausted : WireError

-- `wireTypeFor`, with the numbers of protowire's types
unfoldable pub wire_type_for : Kind → ℕ
wire_type_for message = 2
wire_type_for string = 2
wire_type_for bytes = 2
wire_type_for fixed32 = 5
wire_type_for sfixed32 = 5
wire_type_for float = 5
wire_type_for fixed64 = 1
wire_type_for sfixed64 = 1
wire_type_for double = 1
wire_type_for other = 0

-- `fd.Kind() == protoreflect.MessageKind`
unfoldable pub is_message : Kind → Bool
is_message message = true
is_message _ = false

-- `md.Fields().ByNumber(num)`
unfoldable pub by_number : ℕ → List Field → Option Field
by_number num [] = none
by_number num (f ∷ fs) = let rest = by_number num fs in if f.number == num then some f else rest

unfoldable pub is_packed : Field → ℕ → Bool
is_packed f typ =
    let expected = wire_type_for f.kind in
    f.is_list && typ == 2 && (expected == 0 || expected == 5 || expected == 1)

-- Membership in the keys of `seenOneof`.
unfoldable pub seen_oneof : Bytes → List Bytes → Bool
seen_oneof name [] = false
seen_oneof name (n ∷ ns) = bytes_eq name n || seen_oneof name ns

unfoldable pub check_oneof : Option Bytes → List Bytes → Result WireError (List Bytes)
check_oneof none seen = ok seen
check_oneof (some name) seen = refuse_if (seen_oneof name seen) two_arms >> ok (name ∷ seen)

-- What `ConsumeBytes` leaves of a value whose length has been checked.
unfoldable pub packed_payload : Option (Bytes × ℕ) → Bytes
packed_payload none = []
packed_payload (some (payload, m)) = payload

-- `if n < 0 { return fmt.Errorf(…) }`
unfoldable pub required {ℓ} : {A : Type ℓ} → Option A → WireError → Result WireError A
required none e = err e
required (some a) e = ok a

module _ (p : Protowire) where
  -- The loop over a packed payload.
  unfoldable pub packed_loop : ℕ → ℕ → ℕ → Bytes → Check WireError
  unfolding required
  packed_loop fuel num expected [] = ok tt
  packed_loop zero num expected (c ∷ cs) = err fuel_exhausted
  packed_loop (suc fuel) num expected (c ∷ cs) =
      required (p.consume_field_value num expected (c ∷ cs)) invalid_packed_field >>= λ n.
      packed_loop fuel num expected (drop n (c ∷ cs))

  unfoldable pub check_packed : Field → ℕ → ℕ → Bytes → Check WireError
  unfolding packed_loop packed_payload
  check_packed f num typ value =
      let payload = packed_payload (p.consume_bytes value) in
      if is_packed f typ
      then packed_loop (length payload) num (wire_type_for f.kind) payload
      else ok tt

  unfoldable pub check_nested : (ℕ → Bytes → Check WireError) → Field → ℕ → Bytes → Check WireError
  unfolding required
  check_nested nested f typ value =
      if is_message f.kind && typ == 2
      then (required (p.consume_bytes value) invalid_message >>= λ q. nested f.descriptor q.0)
      else ok tt

  -- The body of the loop up to the field's value: the field and the oneofs that are then seen.
  unfoldable pub check_tag : List Field → List Bytes → ℕ → ℕ → Result WireError (Field × List Bytes)
  unfolding check_oneof by_number
  check_tag fields seen num typ = required (by_number num fields) unknown_field >>= λ f.
      refuse_if (not (wire_type_for f.kind == typ) && not (is_packed f typ)) wrong_wire_type
      >> (check_oneof f.oneof seen >>= λ seen'. ok (f, seen'))

  -- The rest of the round, on the bytes behind the tag, and how many of them it takes.
  unfoldable pub check_value :
      (ℕ → Bytes → Check WireError) → Field → ℕ → ℕ → Bytes → Result WireError ℕ
  unfolding check_packed check_nested required
  check_value nested f num typ value =
      required (p.consume_field_value num typ value) invalid_field >>= λ consumed.
      check_packed f num typ value >> check_nested nested f typ value >> ok consumed

  -- The loop of `validateWireMessage`, one round for each field.
  unfoldable pub message_loop :
      (ℕ → Bytes → Check WireError) → ℕ → List Field → List Bytes → Bytes → Check WireError
  unfolding check_tag check_value required
  message_loop nested fuel fields seen [] = ok tt
  message_loop nested zero fields seen (c ∷ cs) = err fuel_exhausted
  message_loop nested (suc fuel) fields seen (c ∷ cs) =
      required (p.consume_tag (c ∷ cs)) invalid_tag >>= λ t.
      let value = drop t.2 (c ∷ cs) in
      check_tag fields seen t.0 t.1 >>= λ r. check_value nested r.0 t.0 t.1 value >>= λ consumed.
      message_loop nested fuel fields r.1 (drop consumed value)

  module _ (descriptors : ℕ → List Field) where
    -- `validateWireMessage`, with the levels that are left in place of the depth.
    unfoldable pub validate_wire_message : ℕ → ℕ → Bytes → Check WireError
    unfolding message_loop
    validate_wire_message zero md b = err too_deep
    validate_wire_message (suc levels) md b =
        message_loop (validate_wire_message levels) (length b) (descriptors md) [] b

    -- `ValidateWire`
    unfoldable pub validate_wire : ℕ → Bytes → Check WireError
    unfolding validate_wire_message
    validate_wire md b = validate_wire_message 100 md b

    -- `DecodeHookResult`, `DecodeHookInput` and `DecodeChatRequest`, and `DecodeHostCallResult` with
    -- a check of the message in `unmarshal`: `md` is the descriptor and
    -- `unmarshal` what protobuf reads.
    unfoldable pub decode {ℓ κ} :
        {A : Type ℓ} {E : Type κ} → (WireError → E) → (Bytes → Result E A) → ℕ → Bytes → Result E A
    unfolding validate_wire
    decode wire unmarshal md b = elim (validate_wire md b) [
      | err e ↦ err (wire e)
      | ok _ ↦ unmarshal b
    ]

-- ===== src/Wire/Total.antt =====
-- The loops of the wire check never run out of their fuel.
use torana_plugin_sdk.Prelude.{
  length-drop, ℕ, zero, suc, ◌≤◌, Bool, true, false, not, ◌&&◌, ◌||◌, Bytes, List, [], ◌∷◌, Option,
  none, some, Result, Check, ok, err, ◌>>◌, ◌>>=◌, refuse_if, ◌==◌, length, drop, ◌≡◌, ◌≢◌, refl,
  ap, arith, Bool-cases, inl, inr,
}
use torana_plugin_sdk.Wire.{
  Protowire, IsProtowire, Field, WireError, fuel_exhausted, wire_type_for, is_packed, check_oneof,
  packed_payload, packed_loop, check_packed, check_nested, check_value, required, invalid_tag,
  invalid_field, invalid_packed_field, invalid_message, unknown_field, check_tag, message_loop,
  validate_wire_message, validate_wire, is_message, seen_oneof, two_arms, by_number,
  wrong_wire_type,
}

-- A check that did not run out of fuel.
abbrev pub Settles {ℓ} : {A : Type ℓ} → Result WireError A → Type ℓ
Settles r = r ≢ err fuel_exhausted

err_eq {ℓ} : {A : Type ℓ} (d e : WireError) (r : Result WireError A) → r ≡ err d → r ≡ err e → d ≡ e
err_eq d e r p q = cc

err-Settles {ℓ} : {A : Type ℓ} (e : WireError) → e ≢ fuel_exhausted → Settles {A = A} (err e)
err-Settles e n h = n (err_eq e fuel_exhausted (err e) refl h)

settled {ℓ} : {A : Type ℓ} (e : WireError) → Settles {A = A} (err e) → e ≢ fuel_exhausted
settled e f h = f (ap err h)

>>-Settles {ℓ} :
    {A : Type ℓ} (m : Check WireError) (k : Result WireError A)
    → Settles m
    → Settles k
    → Settles (m >> k)
>>-Settles (ok _) k f g = g
>>-Settles (err e) k f g = err-Settles e (settled e f)

>>=-Settles {ℓ κ} :
    {A : Type ℓ} {B : Type κ} (m : Result WireError A) (k : A → Result WireError B)
    → Settles m
    → ((a : A) → m ≡ ok a → Settles (k a))
    → Settles (m >>= k)
>>=-Settles (ok a) k f g = g a refl
>>=-Settles (err e) k f g = err-Settles e (settled e f)

refuse_if-Settles : (b : Bool) (e : WireError) → e ≢ fuel_exhausted → Settles (refuse_if b e)
refuse_if-Settles true e n = err-Settles e n
refuse_if-Settles false e n = λ h. absurd (ground arith)

required-Settles {ℓ} :
    {A : Type ℓ} (o : Option A) (e : WireError) → e ≢ fuel_exhausted → Settles (required o e)
unfolding required
required-Settles none e n = err-Settles e n
required-Settles (some a) e n = λ h. absurd (ground arith)

pub required-some {ℓ} :
    {A : Type ℓ} (o : Option A) (e : WireError) (a : A) → required o e ≡ ok a → o ≡ some a
unfolding required
required-some none e a h = absurd cc
required-some (some b) e a h = cc

module _ (p : Protowire) (laws : IsProtowire p) where
  packed_loop-Settles :
      (fuel num expected : ℕ) (b : Bytes)
      → (expected == 0 || expected == 1 || expected == 5) ≡ true
      → length b ≤ fuel
      → Settles (packed_loop p fuel num expected b)
  unfolding packed_loop
  packed_loop-Settles fuel num expected [] s l = λ h. absurd (ground arith)
  packed_loop-Settles zero num expected (c ∷ cs) s l = absurd (omega arith)
  packed_loop-Settles (suc fuel) num expected (c ∷ cs) s l =
      >>=-Settles _ _
        (required-Settles (p.consume_field_value num expected (c ∷ cs)) invalid_packed_field
          (λ h. absurd (ground arith)))
        (λ n q.
          let e =
            required-some (p.consume_field_value num expected (c ∷ cs)) invalid_packed_field n q in
          packed_loop-Settles fuel num expected (drop n (c ∷ cs)) s (
            omega
              (arith, l, laws.scalar_takes num expected n (c ∷ cs) e s, length-drop n (c ∷ cs))))

  check_packed-Settles :
      (f : Field) (num typ : ℕ) (value : Bytes) → Settles (check_packed p f num typ value)
  unfolding check_packed is_packed
  check_packed-Settles f num typ value =
      let payload = packed_payload (p.consume_bytes value) in
      elim (Bool-cases (is_packed f typ)) [
        | inl t ↦ rw t (
            packed_loop-Settles (length payload) num (wire_type_for f.kind) payload
              (ground (arith, t)) (omega arith))
        | inr t ↦ rw t (λ h. absurd (ground arith))
      ]

  check_nested-Settles :
      (nested : ℕ → Bytes → Check WireError) (f : Field) (typ : ℕ) (value : Bytes)
      → ((md : ℕ) (b : Bytes) → Settles (nested md b))
      → Settles (check_nested p nested f typ value)
  unfolding check_nested
  check_nested-Settles nested f typ value g = elim (Bool-cases (is_message f.kind && typ == 2)) [
    | inr t ↦ rw t (λ h. absurd (ground arith))
    | inl t ↦ rw t (
        >>=-Settles _ _
          (required-Settles (p.consume_bytes value) invalid_message (λ h. absurd (ground arith)))
          (λ q e. g f.descriptor q.0))
  ]

  check_oneof-Settles : (o : Option Bytes) (seen : List Bytes) → Settles (check_oneof o seen)
  unfolding check_oneof
  check_oneof-Settles none seen = λ h. absurd (ground arith)
  check_oneof-Settles (some name) seen =
      >>-Settles (refuse_if (seen_oneof name seen) two_arms) (ok (name ∷ seen))
        (refuse_if-Settles (seen_oneof name seen) two_arms (λ h. absurd (ground arith)))
        (λ h. absurd (ground arith))

  check_tag-Settles :
      (fields : List Field) (seen : List Bytes) (num typ : ℕ)
      → Settles (check_tag p fields seen num typ)
  unfolding check_tag
  check_tag-Settles fields seen num typ =
      >>=-Settles _ _
        (required-Settles (by_number num fields) unknown_field (λ h. absurd (ground arith)))
        (λ f q.
          >>-Settles _ _
            (refuse_if-Settles (not (wire_type_for f.kind == typ) && not (is_packed f typ))
              wrong_wire_type (λ h. absurd (ground arith)))
            (>>=-Settles (check_oneof f.oneof seen) _ (check_oneof-Settles f.oneof seen)
              (λ seen' q h. absurd (ground arith))))

  check_value-Settles :
      (nested : ℕ → Bytes → Check WireError) (f : Field) (num typ : ℕ) (value : Bytes)
      → ((md : ℕ) (b : Bytes) → Settles (nested md b))
      → Settles (check_value p nested f num typ value)
  unfolding check_value
  check_value-Settles nested f num typ value g =
      >>=-Settles _ _
        (required-Settles (p.consume_field_value num typ value) invalid_field
          (λ h. absurd (ground arith)))
        (λ consumed q.
          >>-Settles _ _
            (>>-Settles (check_packed p f num typ value) _ (check_packed-Settles f num typ value)
              (check_nested-Settles nested f typ value g))
            (λ h. absurd (ground arith)))

  message_loop-Settles :
      (nested : ℕ → Bytes → Check WireError) (fuel : ℕ) (fields : List Field) (seen : List Bytes)
      (b : Bytes)
      → ((md : ℕ) (b : Bytes) → Settles (nested md b))
      → length b ≤ fuel
      → Settles (message_loop p nested fuel fields seen b)
  unfolding message_loop
  message_loop-Settles nested fuel fields seen [] g l = λ h. absurd (ground arith)
  message_loop-Settles nested zero fields seen (c ∷ cs) g l = absurd (omega arith)
  message_loop-Settles nested (suc fuel) fields seen (c ∷ cs) g l =
      >>=-Settles _ _
        (required-Settles (p.consume_tag (c ∷ cs)) invalid_tag (λ h. absurd (ground arith)))
        (λ t q.
          let value = drop t.2 (c ∷ cs) in
          let taken =
            laws.tag_takes (c ∷ cs) t.0 t.1 t.2
              (required-some (p.consume_tag (c ∷ cs)) invalid_tag t q) in
          >>=-Settles (check_tag p fields seen t.0 t.1) _ (check_tag-Settles fields seen t.0 t.1)
            (λ r e.
              >>=-Settles (check_value p nested r.0 t.0 t.1 value) _
                (check_value-Settles nested r.0 t.0 t.1 value g)
                (λ consumed e'.
                  message_loop-Settles nested fuel fields r.1 (drop consumed value) g (
                    omega
                      (arith, l, taken, length-drop consumed value, length-drop t.2 (c ∷ cs))))))

  validate_wire_message-Settles :
      (descriptors : ℕ → List Field) (levels md : ℕ) (b : Bytes)
      → Settles (validate_wire_message p descriptors levels md b)
  unfolding validate_wire_message
  validate_wire_message-Settles descriptors zero md b = λ h. absurd (ground arith)
  validate_wire_message-Settles descriptors (suc levels) md b =
      message_loop-Settles (validate_wire_message p descriptors levels) (length b) (descriptors md)
        [] b (validate_wire_message-Settles descriptors levels) (omega arith)

-- `ValidateWire` comes to a verdict on every input: no loop runs out of its fuel, which is the length
-- of its bytes, if no consumer of protowire takes more than there is and each takes a tag or a scalar
-- of a byte at least.
pub validate_wire-ne-fuel_exhausted :
    (p : Protowire) (descriptors : ℕ → List Field) (md : ℕ) (b : Bytes)
    → IsProtowire p
    → validate_wire p descriptors md b ≢ err fuel_exhausted
unfolding validate_wire
validate_wire-ne-fuel_exhausted p descriptors md b laws =
    validate_wire_message-Settles p laws descriptors 100 md b

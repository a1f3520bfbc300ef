-- ===== src/Wire/Accepted.antt =====
-- What a frame looks like that the wire check accepts.
use torana_plugin_sdk.Prelude.{
  ℕ, zero, suc, true, false, Bytes, List, [], ◌∷◌, Option, none, some, ok, bytes_eq_iff, length,
  ◌≡◌, refl, sym, ap, ◌∙◌, subst, arith, get_elem?,
}
use torana_plugin_sdk.Wire.{Protowire, Field, seen_oneof, validate_wire_message, by_number}
use torana_plugin_sdk.Wire.Tags.{Tag, wire_tags, added, IsUnseen, IsKnown, Follows, loop-Follows}

pub some_injective {ℓ} : {A : Type ℓ} {a b : A} → some a ≡ some b → a ≡ b
some_injective h = cc

Follows-IsKnown :
    (fields : List Field) (seen : List Bytes) (tags : List Tag) (i : ℕ) (t : Tag)
    → Follows fields seen tags
    → get_elem? tags i ≡ some t
    → IsKnown fields t
unfolding Follows
Follows-IsKnown fields seen [] i t f e = absurd cc
Follows-IsKnown fields seen (x ∷ tags) zero t f e = subst (IsKnown fields) (some_injective e) f.0
Follows-IsKnown fields seen (x ∷ tags) (suc i) t f e =
    Follows-IsKnown fields (added f.0.field.oneof seen) tags i t f.2 e

-- The field with the tag's number belongs to the oneof.
abbrev pub InOneof : List Field → Bytes → Tag → Type 0
InOneof fields name t = (f : Field) × (by_number t.0 fields ≡ some f) × (f.oneof ≡ some name)

known_oneof :
    (fields : List Field) (name : Bytes) (t : Tag) (k : IsKnown fields t)
    → InOneof fields name t
    → k.field.oneof ≡ some name
known_oneof fields name t k (f, found, named) =
    ap (λ x. x.oneof) (some_injective (sym k.found ∙ found)) ∙ named

unseen_name :
    (name : Bytes) (o : Option Bytes) (seen : List Bytes)
    → o ≡ some name
    → IsUnseen o seen
    → seen_oneof name seen ≡ false
unseen_name name none seen e u = absurd cc
unseen_name name (some m) seen e u = ap (λ x. seen_oneof x seen) (some_injective (sym e)) ∙ u

added-keeps :
    (name : Bytes) (o : Option Bytes) (seen : List Bytes)
    → seen_oneof name (added o seen) ≡ false
    → seen_oneof name seen ≡ false
unfolding added seen_oneof
added-keeps name none seen h = h
added-keeps name (some m) seen h = ground (arith, h)

added-marks :
    (name : Bytes) (o : Option Bytes) (seen : List Bytes)
    → o ≡ some name
    → seen_oneof name (added o seen) ≡ true
unfolding added seen_oneof
added-marks name none seen e = absurd cc
added-marks name (some m) seen e = ground (arith, (bytes_eq_iff name m).1 (some_injective (sym e)))

Follows-unseen :
    (fields : List Field) (seen : List Bytes) (tags : List Tag) (i : ℕ) (t : Tag) (name : Bytes)
    → Follows fields seen tags
    → get_elem? tags i ≡ some t
    → InOneof fields name t
    → seen_oneof name seen ≡ false
unfolding Follows
Follows-unseen fields seen [] i t name f e o = absurd cc
Follows-unseen fields seen (x ∷ tags) zero t name f e o =
    unseen_name name f.0.field.oneof seen
      (known_oneof fields name x f.0 (subst (InOneof fields name) (sym (some_injective e)) o)) f.1
Follows-unseen fields seen (x ∷ tags) (suc i) t name f e o =
    added-keeps name f.0.field.oneof seen
      (Follows-unseen fields (added f.0.field.oneof seen) tags i t name f.2 e o)

-- A tag of a oneof and a later one of the same oneof.
Follows-later :
    (fields : List Field) (seen : List Bytes) (x : Tag) (tags : List Tag) (i : ℕ) (t : Tag)
    (name : Bytes)
    → Follows fields seen (x ∷ tags)
    → InOneof fields name x
    → get_elem? tags i ≡ some t
    → InOneof fields name t
    → (zero ≡ suc i)
unfolding Follows
Follows-later fields seen x tags i t name f ox e ot = absurd (
    cc (
      Follows-unseen fields (added f.0.field.oneof seen) tags i t name f.2 e ot,
      added-marks name f.0.field.oneof seen (known_oneof fields name x f.0 ox),
    ))

one_arm :
    (fields : List Field) (seen : List Bytes) (tags : List Tag) (i j : ℕ) (t u : Tag) (name : Bytes)
    → Follows fields seen tags
    → get_elem? tags i ≡ some t
    → get_elem? tags j ≡ some u
    → InOneof fields name t
    → InOneof fields name u
    → i ≡ j
unfolding Follows
one_arm fields seen [] i j t u name f e g ot ou = absurd cc
one_arm fields seen (x ∷ tags) zero zero t u name f e g ot ou = refl
one_arm fields seen (x ∷ tags) zero (suc j) t u name f e g ot ou =
    Follows-later fields seen x tags j u name f
      (subst (InOneof fields name) (sym (some_injective e)) ot) g ou
one_arm fields seen (x ∷ tags) (suc i) zero t u name f e g ot ou = sym (
    Follows-later fields seen x tags i t name f
      (subst (InOneof fields name) (sym (some_injective g)) ou) e ot)
one_arm fields seen (x ∷ tags) (suc i) (suc j) t u name f e g ot ou =
    ap suc (one_arm fields (added f.0.field.oneof seen) tags i j t u name f.2 e g ot ou)

-- The bytes of a message that the wire check accepts, read with protowire alone, are a sequence of fields; each has a number of the descriptor and its wire type,
-- or is packed, and no two belong to the same oneof.
pub accepted_wire :
    (p : Protowire) (descriptors : ℕ → List Field) (levels md : ℕ) (b : Bytes)
    → validate_wire_message p descriptors levels md b ≡ ok tt
    → (tags : List Tag) × (wire_tags p (length b) b ≡ some tags)
      × ((i : ℕ) (t : Tag) → get_elem? tags i ≡ some t → IsKnown (descriptors md) t)
      × ((i j : ℕ) (t u : Tag) (name : Bytes)
          → get_elem? tags i ≡ some t
          → get_elem? tags j ≡ some u
          → InOneof (descriptors md) name t
          → InOneof (descriptors md) name u
          → i ≡ j)
unfolding validate_wire_message
accepted_wire p descriptors zero md b h = absurd cc
accepted_wire p descriptors (suc levels) md b h =
    let (tags, read, f) =
      loop-Follows p (validate_wire_message p descriptors levels) (length b) (descriptors md) [] b
        h in
    (
      tags,
      read,
      λ i t e. Follows-IsKnown (descriptors md) [] tags i t f e,
      λ i j t u name e g ot ou. one_arm (descriptors md) [] tags i j t u name f e g ot ou,
    )

-- ===== src/Wire/Tags.antt =====
-- The sequence of fields that the loop of the wire check reads.
use torana_plugin_sdk.Prelude.{
  ℕ, zero, suc, true, false, not, ◌&&◌, ◌||◌, Bytes, List, [], ◌∷◌, Option, none, some, Result,
  Check, ok, err, ◌>>◌, ◌>>=◌, refuse_if, is_empty, ◌==◌, drop, ◌≡◌, refl, sym, ap, ◌∙◌, subst,
  arith,
}
use torana_plugin_sdk.Wire.{
  Protowire, Field, WireError, wire_type_for, is_packed, check_oneof, seen_oneof, check_tag,
  check_value, message_loop, required, by_number, two_arms, invalid_tag, unknown_field,
  wrong_wire_type, invalid_field, check_packed, check_nested,
}
use torana_plugin_sdk.Wire.Total.{required-some}

-- The tag of a field on the wire: its number and its wire type.
abbrev pub Tag : Type 0
Tag = ℕ × ℕ

bind {ℓ κ} : {A : Type ℓ} {B : Type κ} → Option A → (A → Option B) → Option B
bind none k = none
bind (some a) k = k a

-- The fields of a message one behind the other, read with protowire alone.
unfoldable pub wire_tags : Protowire → ℕ → Bytes → Option (List Tag)
unfolding bind
wire_tags p fuel [] = some []
wire_tags p zero (c ∷ cs) = none
wire_tags p (suc fuel) (c ∷ cs) = bind (p.consume_tag (c ∷ cs)) (λ t.
    bind (p.consume_field_value t.0 t.1 (drop t.2 (c ∷ cs))) (λ n.
      bind (wire_tags p fuel (drop n (drop t.2 (c ∷ cs)))) (λ tags. some ((t.0, t.1) ∷ tags))))

bind_ok {ℓ κ} :
    {E : Type 0} {A : Type ℓ} {B : Type κ} (m : Result E A) (k : A → Result E B) (b : B)
    → (m >>= k) ≡ ok b
    → (a : A) × (m ≡ ok a) × (k a ≡ ok b)
bind_ok (ok a) k b h = (a, refl, h)
bind_ok (err e) k b h = absurd cc

ok_eq {ℓ} : {E : Type 0} {A : Type ℓ} (r : Result E A) (a b : A) → r ≡ ok a → r ≡ ok b → a ≡ b
ok_eq r a b p q = cc

after_check {ℓ} :
    {E : Type 0} {A : Type ℓ} (m : Check E) (r : Result E A) (a : A)
    → (m >> r) ≡ ok a
    → (m ≡ ok tt) × (r ≡ ok a)
after_check (ok _) r a h = (refl, h)
after_check (err e) r a h = absurd cc

-- The oneofs that are seen behind a field.
unfoldable pub added : Option Bytes → List Bytes → List Bytes
added none seen = seen
added (some name) seen = name ∷ seen

abbrev pub IsUnseen : Option Bytes → List Bytes → Type 0
IsUnseen none seen = Unit
IsUnseen (some name) seen = seen_oneof name seen ≡ false

-- The tag is that of a known field with its wire type, or packed.
pub record IsKnown (fields : List Field) (t : Tag) : Type 0 where
  pub field : Field
  pub found : by_number t.0 fields ≡ some field
  pub has_type : ((wire_type_for field.kind == t.1) || is_packed field t.1) ≡ true

-- The tags of an accepted message, from a point on where some oneofs are seen.
unfoldable pub Follows : List Field → List Bytes → List Tag → Type 0
Follows fields seen [] = Unit
Follows fields seen (t ∷ ts) =
    (k : IsKnown fields t) × IsUnseen k.field.oneof seen
    × Follows fields (added k.field.oneof seen) ts

check_oneof-added :
    (o : Option Bytes) (seen seen' : List Bytes)
    → check_oneof o seen ≡ ok seen'
    → IsUnseen o seen × (seen' ≡ added o seen)
unfolding check_oneof added
check_oneof-added none seen seen' h = (tt, ok_eq (ok seen) seen' seen h refl)
check_oneof-added (some name) seen seen' h =
    let (p, q) =
      after_check (refuse_if (seen_oneof name seen) two_arms) (ok (name ∷ seen)) seen' h in
    (ground (arith, p), ok_eq (ok (name ∷ seen)) seen' (name ∷ seen) q refl)

check_tag-IsKnown :
    (p : Protowire) (fields : List Field) (seen : List Bytes) (t : Tag) (r : Field × List Bytes)
    → check_tag p fields seen t.0 t.1 ≡ ok r
    → (k : IsKnown fields t) × (k.field ≡ r.0)
      × IsUnseen k.field.oneof seen
      × (r.1 ≡ added k.field.oneof seen)
unfolding check_tag
check_tag-IsKnown p fields seen t r h =
    let (f, found, rest) =
      bind_ok (required (by_number t.0 fields) unknown_field)
        (λ x.
          refuse_if (not (wire_type_for x.kind == t.1) && not (is_packed x t.1)) wrong_wire_type
          >> (check_oneof x.oneof seen >>= λ s. ok (x, s)))
        r h in
    let (typed, marks) =
      after_check
        (refuse_if (not (wire_type_for f.kind == t.1) && not (is_packed f t.1)) wrong_wire_type)
        (check_oneof f.oneof seen >>= λ s. ok (f, s)) r rest in
    let (s, marked, done) = bind_ok (check_oneof f.oneof seen) (λ s. ok (f, s)) r marks in
    let (unseen, same) = check_oneof-added f.oneof seen s marked in
    let pair : Field × List Bytes = (f, s) in
    let whole : pair ≡ r = ok_eq (ok pair) pair r refl done in
    (
      record {
        field = f;
        found = required-some (by_number t.0 fields) unknown_field f found;
        has_type = ground (arith, typed);
      },
      ap (λ x. x.0) whole,
      unseen,
      sym (ap (λ x. x.1) whole) ∙ same,
    )

value_read :
    (p : Protowire) (nested : ℕ → Bytes → Check WireError) (f : Field) (num typ : ℕ) (value : Bytes)
    (n : ℕ)
    → check_value p nested f num typ value ≡ ok n
    → p.consume_field_value num typ value ≡ some n
unfolding check_value
value_read p nested f num typ value n h =
    let (m, read, rest) =
      bind_ok (required (p.consume_field_value num typ value) invalid_field)
        (λ m. check_packed p f num typ value >> check_nested p nested f typ value >> ok m) n h in
    let (checks, done) =
      after_check (check_packed p f num typ value >> check_nested p nested f typ value) (ok m) n
        rest in
    required-some (p.consume_field_value num typ value) invalid_field m read
    ∙ ap some (ok_eq (ok m) m n refl done)

wire_tags_cons :
    (p : Protowire) (fuel : ℕ) (b : Bytes) (t : ℕ × ℕ × ℕ) (n : ℕ) (tags : List Tag)
    → is_empty b ≡ false
    → p.consume_tag b ≡ some t
    → p.consume_field_value t.0 t.1 (drop t.2 b) ≡ some n
    → wire_tags p fuel (drop n (drop t.2 b)) ≡ some tags
    → wire_tags p (suc fuel) b ≡ some ((t.0, t.1) ∷ tags)
unfolding wire_tags bind
wire_tags_cons p fuel [] t n tags e x y z = absurd cc
wire_tags_cons p fuel (c ∷ cs) t n tags e x y z =
    ap
      (λ o. bind o (λ t. bind (p.consume_field_value t.0 t.1 (drop t.2 (c ∷ cs))) (λ n.
        bind (wire_tags p fuel (drop n (drop t.2 (c ∷ cs)))) (λ tags. some ((t.0, t.1) ∷ tags)))))
      x
    ∙ ap
        (λ o. bind o (λ n.
          bind (wire_tags p fuel (drop n (drop t.2 (c ∷ cs)))) (λ tags. some ((t.0, t.1) ∷ tags))))
        y
    ∙ ap (λ o. bind o (λ tags. some ((t.0, t.1) ∷ tags))) z

pub loop-Follows :
    (p : Protowire) (nested : ℕ → Bytes → Check WireError) (fuel : ℕ) (fields : List Field)
    (seen : List Bytes) (b : Bytes)
    → message_loop p nested fuel fields seen b ≡ ok tt
    → (tags : List Tag) × (wire_tags p fuel b ≡ some tags) × Follows fields seen tags
unfolding message_loop wire_tags bind Follows
loop-Follows p nested fuel fields seen [] h = ([], refl, tt)
loop-Follows p nested zero fields seen (c ∷ cs) h = absurd cc
loop-Follows p nested (suc fuel) fields seen (c ∷ cs) h =
    let (t, tagged, one) =
      bind_ok (required (p.consume_tag (c ∷ cs)) invalid_tag)
        (λ t. check_tag p fields seen t.0 t.1 >>= λ r.
          check_value p nested r.0 t.0 t.1 (drop t.2 (c ∷ cs)) >>= λ n.
          message_loop p nested fuel fields r.1 (drop n (drop t.2 (c ∷ cs))))
        tt h in
    let (r, checked, two) =
      bind_ok (check_tag p fields seen t.0 t.1)
        (λ r. check_value p nested r.0 t.0 t.1 (drop t.2 (c ∷ cs)) >>= λ n.
          message_loop p nested fuel fields r.1 (drop n (drop t.2 (c ∷ cs))))
        tt one in
    let (n, valued, three) =
      bind_ok (check_value p nested r.0 t.0 t.1 (drop t.2 (c ∷ cs)))
        (λ n. message_loop p nested fuel fields r.1 (drop n (drop t.2 (c ∷ cs)))) tt two in
    let (k, named, unseen, marks) = check_tag-IsKnown p fields seen (t.0, t.1) r checked in
    let (tags, read, follows) =
      loop-Follows p nested fuel fields r.1 (drop n (drop t.2 (c ∷ cs))) three in
    (
      (t.0, t.1) ∷ tags,
      wire_tags_cons p fuel (c ∷ cs) t n tags refl
          (required-some (p.consume_tag (c ∷ cs)) invalid_tag t tagged)
          (value_read p nested r.0 t.0 t.1 (drop t.2 (c ∷ cs)) n valued) read,
      (k, unseen, subst (λ s. Follows fields s tags) marks follows),
    )

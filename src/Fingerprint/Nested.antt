-- ===== src/Fingerprint/Nested.antt =====
-- Equal fingerprints of tool-result content come from equal content, or from a collision.
use torana_plugin_sdk.Prelude.{
  ℕ, ◌+◌, ◌*◌, ◌/◌, ◌%◌, ◌^◌, ◌<◌, false, Bytes, List, [], ◌∷◌, ◌++◌, Option, none, some, ok,
  >>-eq-ok, length, take, drop, take-append, drop-append, is_empty, if◌then◌else◌, ◌==◌, ◌≡◌, ◌⊎◌,
  inl, inr, refl, sym, ap, ◌∙◌, arith,
}
use torana_plugin_sdk.Proto.Request.{ContentKind, ContentBlock}
use torana_plugin_sdk.Fingerprint.Content.{
  u64, sized, check_content, check_contents, element, elements, content_preimage,
  content_fingerprint,
}
use torana_plugin_sdk.Fingerprint.Injective.{Collision, same_digest_cases, checked_digest}
use mathlib.Core.List.{append_assoc}

-- The fields of an element are shorter than 2 ^ 64 bytes.
abbrev pub Fits : ContentKind → Type 0
Fits (ContentKind.text (some t)) = length t.text < 2 ^ 64
Fits (ContentKind.unknown (some u)) = (length u.kind < 2 ^ 64) × (length u.payload_json < 2 ^ 64)
Fits (ContentKind.cache_breakpoint (some c)) = length c.marker_json < 2 ^ 64
Fits _ = Unit

abbrev pub AllFit : List (Option ContentBlock) → Type 0
AllFit [] = Unit
AllFit (none ∷ cs) = AllFit cs
AllFit (some c ∷ cs) = Fits c.kind × AllFit cs

-- An element without its unknown protobuf fields.
unfoldable pub bare : ContentKind → ContentKind
bare (ContentKind.text (some t)) = ContentKind.text (some (record t { unknown_fields = [] }))
bare (ContentKind.unknown (some u)) = ContentKind.unknown (some (record u { unknown_fields = [] }))
bare (ContentKind.cache_breakpoint (some c)) =
    ContentKind.cache_breakpoint (some (record c { unknown_fields = [] }))
bare k = k

unfoldable pub all_bare : List (Option ContentBlock) → List ContentKind
unfolding bare
all_bare [] = []
all_bare (none ∷ cs) = all_bare cs
all_bare (some c ∷ cs) = bare c.kind ∷ all_bare cs

read_u64 : ℕ → ℕ → ℕ → ℕ → ℕ → ℕ → ℕ → ℕ → ℕ
read_u64 a b c d e f g h =
    ((((((a * 256 + b) * 256 + c) * 256 + d) * 256 + e) * 256 + f) * 256 + g) * 256 + h

read_sized : Bytes → Bytes × Bytes
read_sized (a ∷ b ∷ c ∷ d ∷ e ∷ f ∷ g ∷ h ∷ rest) =
    let n = read_u64 a b c d e f g h in (take n rest, drop n rest)
read_sized _ = ([], [])

read_u64-u64 :
    (n : ℕ)
    → n < 2 ^ 64
    → read_u64
        (n / 2 ^ 56 % 256)
        (n / 2 ^ 48 % 256)
        (n / 2 ^ 40 % 256)
        (n / 2 ^ 32 % 256)
        (n / 2 ^ 24 % 256)
        (n / 2 ^ 16 % 256)
        (n / 2 ^ 8 % 256)
        (n % 256)
      ≡ n
unfolding read_u64
read_u64-u64 n h = omega arith

read_sized-sized : (v rest : Bytes) → length v < 2 ^ 64 → read_sized (sized v ++ rest) ≡ (v, rest)
unfolding read_sized sized u64
read_sized-sized v rest h =
    rw (read_u64-u64 (length v) h, take-append v rest, drop-append v rest) refl

text_of : Bytes × Bytes → ContentKind × Bytes
text_of (v, rest) = (ContentKind.text (some (record { text = v; unknown_fields = [] })), rest)

unknown_of : Bytes → Bytes × Bytes → ContentKind × Bytes
unknown_of kind (v, rest) = (
  ContentKind.unknown (some (record { kind = kind; payload_json = v; unknown_fields = [] })),
  rest,
)

marker_of : Bytes × Bytes → ContentKind × Bytes
marker_of (v, rest) =
    (ContentKind.cache_breakpoint (some (record { marker_json = v; unknown_fields = [] })), rest)

read_fields : ℕ → Bytes → ContentKind × Bytes
unfolding text_of unknown_of marker_of
read_fields tag s =
    let first = read_sized s in
    if tag == 1
    then text_of first
    else if tag == 2
    then unknown_of first.0 (read_sized first.1)
    else marker_of first

-- One element, and what is behind it.
read_element : Bytes → ContentKind × Bytes
unfolding read_fields
read_element (tag ∷ present ∷ s) = read_fields tag s
read_element _ = (ContentKind.no_arm, [])

read_element-element :
    (k : ContentKind) (rest : Bytes)
    → check_content k ≡ ok tt
    → Fits k
    → read_element (element k ++ rest) ≡ (bare k, rest)
unfolding read_element element bare read_fields text_of unknown_of marker_of check_content
read_element-element (ContentKind.text (some t)) rest h f = rw (read_sized-sized t.text rest f) refl
read_element-element (ContentKind.unknown (some u)) rest h f =
    rw
      (
        append_assoc (sized u.kind) (sized u.payload_json) rest,
        read_sized-sized u.kind (sized u.payload_json ++ rest) f.0,
        read_sized-sized u.payload_json rest f.1,
      )
      refl
read_element-element (ContentKind.cache_breakpoint (some c)) rest h f =
    rw (read_sized-sized c.marker_json rest f) refl
read_element-element ContentKind.no_arm rest h f = absurd (ground arith)
read_element-element _ rest h f = absurd (ground arith)

element_not_empty :
    (k : ContentKind) (rest : Bytes)
    → check_content k ≡ ok tt
    → is_empty (element k ++ rest) ≡ false
unfolding element check_content
element_not_empty (ContentKind.text (some t)) rest h = refl
element_not_empty (ContentKind.unknown (some u)) rest h = refl
element_not_empty (ContentKind.cache_breakpoint (some c)) rest h = refl
element_not_empty ContentKind.no_arm rest h = absurd (ground arith)
element_not_empty _ rest h = absurd (ground arith)

elements_injective :
    (cs ds : List (Option ContentBlock))
    → check_contents cs ≡ ok tt
    → check_contents ds ≡ ok tt
    → AllFit cs
    → AllFit ds
    → elements cs ≡ elements ds
    → all_bare cs ≡ all_bare ds
unfolding check_contents elements all_bare
elements_injective [] [] p q f g h = refl
elements_injective (none ∷ cs) ds p q f g h = absurd (ground arith)
elements_injective cs (none ∷ ds) p q f g h = absurd (ground arith)
elements_injective [] (some d ∷ ds) p q f g h = absurd (
    cc (
      ap is_empty h,
      element_not_empty d.kind (elements ds) (((>>-eq-ok _ (check_contents ds)).0 q).0),
    ))
elements_injective (some c ∷ cs) [] p q f g h = absurd (
    cc (
      ap is_empty h,
      element_not_empty c.kind (elements cs) (((>>-eq-ok _ (check_contents cs)).0 p).0),
    ))
elements_injective (some c ∷ cs) (some d ∷ ds) p q f g h =
    let (pc, ps) = (>>-eq-ok (check_content c.kind) (check_contents cs)).0 p in
    let (qd, qs) = (>>-eq-ok (check_content d.kind) (check_contents ds)).0 q in
    let left : ContentKind × Bytes = (bare c.kind, elements cs) in
    let right : ContentKind × Bytes = (bare d.kind, elements ds) in
    let same : left ≡ right =
      sym (read_element-element c.kind (elements cs) pc f.0)
      ∙ ap read_element h
      ∙ read_element-element d.kind (elements ds) qd g.0 in
    let here : bare c.kind ≡ bare d.kind = ap (λ x. x.0) same in
    let rest = elements_injective cs ds ps qs f.1 g.1 (ap (λ x. x.1) same) in cc (here, rest)

preimage-elements :
    (cs ds : List (Option ContentBlock))
    → content_preimage cs ≡ content_preimage ds
    → elements cs ≡ elements ds
unfolding content_preimage u64
preimage-elements cs ds h = ap (drop 45) h

-- Two sequences of tool-result content with the same fingerprint, with fields shorter than 2 ^ 64
-- bytes, are element by element the same but for unknown protobuf fields, or a collision of the
-- hash is found.
pub equal_content_fingerprints :
    (sha256 : Bytes → Bytes) (cs ds : List (Option ContentBlock)) (d : Bytes)
    → AllFit cs
    → AllFit ds
    → content_fingerprint sha256 cs ≡ ok d
    → content_fingerprint sha256 ds ≡ ok d
    → (all_bare cs ≡ all_bare ds) ⊎ Collision sha256
unfolding content_fingerprint
equal_content_fingerprints sha256 cs ds d f g hc hd =
    let (pc, dc) = checked_digest (check_contents cs) (sha256 (content_preimage cs)) d hc in
    let (pd, dd) = checked_digest (check_contents ds) (sha256 (content_preimage ds)) d hd in
    elim (same_digest_cases sha256 (content_preimage cs) (content_preimage ds) (dc ∙ sym dd)) [
      | inl e ↦ inl (elements_injective cs ds pc pd f g (preimage-elements cs ds e))
      | inr c ↦ inr c
    ]

-- ===== src/Fingerprint/Injective.antt =====
-- Equal fingerprints come from equal message bodies, or from a collision of the hash.
use torana_plugin_sdk.Prelude.{
  ℕ, suc, true, false, Bytes, List, [], ◌∷◌, ◌++◌, Option, none, some, Check, Result, ok, err, ◌>>◌,
  >>-eq-ok, codes, bytes_eq, bytes_eq_iff, if◌then◌else◌, All, ◌≡◌, ◌≢◌, ◌⊎◌, inl, inr, refl, sym,
  ap, ◌∙◌, arith, Bool-cases,
}
use torana_plugin_sdk.GoStd.Decimal.{hex_encode_injective}
use torana_plugin_sdk.GoStd.Strings.{all_bytes}
use torana_plugin_sdk.Proto.Request.{BlockKind, RequestBlock, Message}
use torana_plugin_sdk.Fingerprint.Frames.{Frame, hashed, is_plain, hashed_injective}
use torana_plugin_sdk.Fingerprint.View.{BlockView, view, fields-view}
use torana_plugin_sdk.Fingerprint.{
  check_blocks, kind_name, presence, format_optional, fields, block_frames,
  request_blocks_fingerprint,
}

-- Two different inputs with the same digest.
abbrev pub Collision : (Bytes → Bytes) → Type 0
Collision sha256 = (a : Bytes) × (b : Bytes) × (a ≢ b) × (sha256 a ≡ sha256 b)

pub same_digest_cases :
    (sha256 : Bytes → Bytes) (a b : Bytes) → sha256 a ≡ sha256 b → (a ≡ b) ⊎ Collision sha256
same_digest_cases sha256 a b h = elim (Bool-cases (bytes_eq a b)) [
  | inl t ↦ inl ((bytes_eq_iff a b).0 t)
  | inr f ↦ inr (a, b, λ e. absurd (cc (f, (bytes_eq_iff a b).1 e)), h)
]

pub cons_head {ℓ} : {A : Type ℓ} {a b : A} {x y : List A} → (a ∷ x) ≡ (b ∷ y) → a ≡ b
cons_head h = cc

ok_injective {ℓ κ} :
    {E : Type κ} {A : Type ℓ} {a b : A} {r : Result E A} → r ≡ ok a → r ≡ ok b → a ≡ b
ok_injective p q = cc

-- A digest that is returned behind a check.
pub checked_digest {κ} :
    {E : Type κ} (m : Check E) (a b : Bytes) → (m >> ok a) ≡ ok b → (m ≡ ok tt) × (a ≡ b)
checked_digest (ok tt) a b h = (refl, ok_injective refl h)
checked_digest (err e) a b h = absurd (ground arith)

pub cons_tail {ℓ} : {A : Type ℓ} {a b : A} {x y : List A} → (a ∷ x) ≡ (b ∷ y) → x ≡ y
cons_tail h = cc

-- A frame inside of a block: its tag has no digit and is not the one that starts a block.
abbrev Inner : Frame → Type 0
Inner f = (is_plain f ≡ true) × (bytes_eq f.0 (codes "block") ≡ false)

All-append : (xs ys : List Frame) → All Inner xs → All Inner ys → All Inner (xs ++ ys)
All-append [] ys p q = q
All-append (x ∷ xs) ys p q = (p.0, All-append xs ys p.1 q)

presence-All :
    (t v : Bytes) (o : Option Bytes)
    → Inner (t, codes "0")
    → Inner (t, codes "1")
    → ((x : Bytes) → Inner (v, x))
    → All Inner (presence t v o)
unfolding presence
presence-All t v none z s i = (z, tt)
presence-All t v (some x) z s i = (s, (i x, tt))

module _ (sha256 : Bytes → Bytes) where
  fields-All : (k : BlockKind) → All Inner (fields sha256 k)
  unfolding fields is_plain all_bytes bytes_eq
  fields-All (BlockKind.text (some t)) = ((refl, refl), ((refl, refl), ((refl, refl), tt)))
  fields-All (BlockKind.thinking (some t)) = ((refl, refl), ((refl, refl), ((refl, refl), tt)))
  fields-All (BlockKind.redacted_thinking (some r)) = ((refl, refl), tt)
  fields-All (BlockKind.tool_use (some u)) = (
    (refl, refl),
    (
      (refl, refl),
      (
        (refl, refl),
        (
          (refl, refl),
          (
            (refl, refl),
            (
              (refl, refl),
              presence-All (codes "input-present") (codes "input") u.input_text (refl, refl)
                  (refl, refl) (λ x. (refl, refl)),
            ),
          ),
        ),
      ),
    ),
  )
  fields-All (BlockKind.tool_result (some r)) = (
    (refl, refl),
    (
      (refl, refl),
      (
        (refl, refl),
        All-append _ _
            (presence-All (codes "wc") (codes "wcval") (format_optional r.will_continue)
              (refl, refl) (refl, refl) (λ x. (refl, refl)))
            (All-append _ _
              (presence-All (codes "sched") (codes "schedval") r.scheduling (refl, refl)
                (refl, refl) (λ x. (refl, refl)))
              (All-append _ _
                (presence-All (codes "iserr") (codes "iserrval") (format_optional r.is_error)
                  (refl, refl) (refl, refl) (λ x. (refl, refl)))
                ((refl, refl), ((refl, refl), ((refl, refl), tt))))),
      ),
    ),
  )
  fields-All (BlockKind.cache_breakpoint (some c)) = ((refl, refl), tt)
  fields-All (BlockKind.unknown (some u)) =
      ((refl, refl), ((refl, refl), ((refl, refl), ((refl, refl), tt))))
  fields-All (BlockKind.trailing_signature (some t)) = ((refl, refl), ((refl, refl), tt))
  fields-All (BlockKind.refusal (some r)) = ((refl, refl), tt)
  fields-All _ = tt

  All-plain :
      (fs gs : List Frame)
      → All Inner fs
      → All (λ f. is_plain f ≡ true) gs
      → All (λ f. is_plain f ≡ true) (fs ++ gs)
  All-plain [] gs p q = q
  All-plain (f ∷ fs) gs p q = (p.0.0, All-plain fs gs p.1 q)

  block_frames-plain :
      (i : ℕ) (bs : List (Option RequestBlock))
      → All (λ f. is_plain f ≡ true) (block_frames sha256 i bs)
  unfolding block_frames is_plain all_bytes
  block_frames-plain i [] = tt
  block_frames-plain i (none ∷ bs) = tt
  block_frames-plain i (some b ∷ bs) = (
    refl,
    (refl, All-plain (fields sha256 b.kind) _ (fields-All b.kind) (block_frames-plain (suc i) bs)),
  )

  -- The frames up to the next block.
  inner_front : List Frame → List Frame × List Frame
  inner_front [] = ([], [])
  inner_front (f ∷ fs) =
      let rest = inner_front fs in
      if bytes_eq f.0 (codes "block") then ([], f ∷ fs) else (f ∷ rest.0, rest.1)

  inner_front-blocks :
      (i : ℕ) (bs : List (Option RequestBlock))
      → inner_front (block_frames sha256 i bs) ≡ ([], block_frames sha256 i bs)
  unfolding inner_front block_frames bytes_eq
  inner_front-blocks i [] = refl
  inner_front-blocks i (none ∷ bs) = refl
  inner_front-blocks i (some b ∷ bs) = refl

  inner_front-append :
      (xs ys : List Frame)
      → All Inner xs
      → inner_front ys ≡ ([], ys)
      → inner_front (xs ++ ys) ≡ (xs, ys)
  unfolding inner_front
  inner_front-append [] ys p h = h
  inner_front-append (x ∷ xs) ys p h = rw (p.0.1, inner_front-append xs ys p.1 h) refl

  unfoldable pub views : List (Option RequestBlock) → List BlockView
  views [] = []
  views (none ∷ bs) = views bs
  views (some b ∷ bs) = view sha256 b.kind ∷ views bs

  -- What follows a block's "kind" frame, cut at the next block.
  block_tail :
      (b : RequestBlock) (i : ℕ) (bs : List (Option RequestBlock))
      → inner_front (fields sha256 b.kind ++ block_frames sha256 i bs)
        ≡ (fields sha256 b.kind, block_frames sha256 i bs)
  block_tail b i bs =
      inner_front-append (fields sha256 b.kind) (block_frames sha256 i bs) (fields-All b.kind)
        (inner_front-blocks i bs)

  block_frames-views :
      (i : ℕ) (bs cs : List (Option RequestBlock))
      → check_blocks bs ≡ ok tt
      → check_blocks cs ≡ ok tt
      → block_frames sha256 i bs ≡ block_frames sha256 i cs
      → views bs ≡ views cs
  unfolding check_blocks block_frames views
  block_frames-views i [] [] p q h = refl
  block_frames-views i (none ∷ bs) cs p q h = absurd (ground arith)
  block_frames-views i bs (none ∷ cs) p q h = absurd (ground arith)
  block_frames-views i [] (some c ∷ cs) p q h = absurd cc
  block_frames-views i (some b ∷ bs) [] p q h = absurd cc
  block_frames-views i (some b ∷ bs) (some c ∷ cs) p q h =
      let tails = cons_tail (cons_tail h) in
      let name : kind_name b.kind ≡ kind_name c.kind = ap (λ f. f.1) (cons_head (cons_tail h)) in
      let cut = sym (block_tail b (suc i) bs) ∙ ap inner_front tails ∙ block_tail c (suc i) cs in
      let here =
        fields-view sha256 b.kind c.kind (((>>-eq-ok _ (check_blocks bs)).0 p).0)
          (((>>-eq-ok _ (check_blocks cs)).0 q).0) name (ap (λ x. x.0) cut) in
      let rest =
        block_frames-views (suc i) bs cs (((>>-eq-ok _ (check_blocks bs)).0 p).1)
          (((>>-eq-ok _ (check_blocks cs)).0 q).1) (ap (λ x. x.1) cut) in
      cc (here, rest)

  message_frames : Message → List Frame
  message_frames m = (codes "role", m.role) ∷ block_frames sha256 0 m.blocks

  message_frames-plain : (m : Message) → All (λ f. is_plain f ≡ true) (message_frames m)
  unfolding message_frames is_plain all_bytes
  message_frames-plain m = (refl, block_frames-plain 0 m.blocks)

  -- Two messages with the same fingerprint have the same role and, block by block in order, the same
  -- content (with nested tool-result content compared by its digest and invocation kinds by the
  -- text of their number), or a collision of the hash is found.
  pub equal_fingerprints :
      (m n : Message) (d : Bytes)
      → request_blocks_fingerprint sha256 (some m) ≡ ok d
      → request_blocks_fingerprint sha256 (some n) ≡ ok d
      → ((m.role ≡ n.role) × (views m.blocks ≡ views n.blocks)) ⊎ Collision sha256
  unfolding message_frames request_blocks_fingerprint
  equal_fingerprints m n d hm hn =
      let (cm, dm) = checked_digest (check_blocks m.blocks) _ d hm in
      let (cn, dn) = checked_digest (check_blocks n.blocks) _ d hn in
      elim (same_digest_cases sha256 (hashed (message_frames m)) (hashed (message_frames n))
        (hex_encode_injective _ _ (dm ∙ sym dn))) [
          | inr c ↦ inr c
          | inl e ↦
              let same =
                hashed_injective (message_frames m) (message_frames n) (message_frames-plain m)
                  (message_frames-plain n) e in
              inl (
                ap (λ f. f.1) (cons_head same),
                block_frames-views 0 m.blocks n.blocks cm cn (cons_tail same),
              )
        ]

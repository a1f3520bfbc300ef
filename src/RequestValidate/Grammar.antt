-- ===== src/RequestValidate/Grammar.antt =====
-- What a request that `ValidateReplacement` accepts looks like.
use torana_plugin_sdk.Prelude.{
  ℕ, zero, suc, ◌<◌, Bool, true, false, Bytes, List, [], ◌∷◌, Option, none, some, ◌≡◌, ◌≢◌, inl,
  inr, refl, ap, subst, arith, ok, >>-eq-ok, is_empty, get_elem?, length, bytes_eq, bytes_eq_iff,
  codes, Bool-cases,
}
use torana_plugin_sdk.Proto.Request.{BlockKind, RequestBlock, Message, TrailingSignatureBlock}
use torana_plugin_sdk.RequestValidate.Blocks.{
  Place, validate_block, validate_blocks, validate_kind, validate_trailing_signature,
}
use torana_plugin_sdk.RequestValidate.Parts.{
  covers_kind, has_covered_block, validate_message, validate_messages,
}

some_injective {ℓ} : {A : Type ℓ} {a b : A} → some a ≡ some b → a ≡ b
some_injective h = cc

get_elem?-lt {ℓ} :
    {A : Type ℓ} (xs : List A) (i : ℕ) {x : A} → get_elem? xs i ≡ some x → i < length xs
get_elem?-lt [] i h = ground arith
get_elem?-lt (x ∷ xs) zero h = omega arith
get_elem?-lt (x ∷ xs) (suc i) h = omega (arith, get_elem?-lt xs i h)

-- A block of a message that passes has passed, and where it is checked as the final one it is.
record Checked (role : Bytes) (covered : Bool) (n i : ℕ) (b : Option RequestBlock) : Type 0 where
  pub final : Bool
  pub passes :
      validate_block (record { is_final = final; role = role; has_covered_block = covered }) b
      ≡ ok tt
  pub at_end : final ≡ true → suc i ≡ n

validate_blocks-Checked :
    (role : Bytes) (covered : Bool) (bs : List (Option RequestBlock)) (i : ℕ)
    (b : Option RequestBlock)
    → validate_blocks role covered bs ≡ ok tt
    → get_elem? bs i ≡ some b
    → Checked role covered (length bs) i b
unfolding validate_blocks
validate_blocks-Checked role covered [] i b h e = absurd (ground arith)
validate_blocks-Checked role covered (c ∷ bs) zero b h e = record {
  final = is_empty bs;
  passes =
      let p = ((>>-eq-ok _ (validate_blocks role covered bs)).0 h).0 in
      subst
        (λ x.
          validate_block
            (record { is_final = is_empty bs; role = role; has_covered_block = covered }) x
          ≡ ok tt)
        (some_injective e) p;
  at_end = λ f. ground (arith, f);
}
validate_blocks-Checked role covered (c ∷ bs) (suc i) b h e =
    let r =
      validate_blocks-Checked role covered bs i b
        (((>>-eq-ok _ (validate_blocks role covered bs)).0 h).1) e in
    record { final = r.final; passes = r.passes; at_end = λ f. ap suc (r.at_end f) }

record Covered (bs : List (Option RequestBlock)) : Type 0 where
  pub at : ℕ
  pub block : RequestBlock
  pub found : get_elem? bs at ≡ some (some block)
  pub covers : covers_kind block.kind ≡ true

has_covered_block-Covered :
    (bs : List (Option RequestBlock)) → has_covered_block bs ≡ true → Covered bs
unfolding has_covered_block
has_covered_block-Covered [] h = absurd (ground arith)
has_covered_block-Covered (none ∷ bs) h =
    let r = has_covered_block-Covered bs h in
    record { at = suc r.at; block = r.block; found = r.found; covers = r.covers }
has_covered_block-Covered (some b ∷ bs) h = elim (Bool-cases (covers_kind b.kind)) [
  | inl e ↦ record { at = 0; block = b; found = refl; covers = e }
  | inr e ↦
      let r = has_covered_block-Covered bs (ground arith) in
      record { at = suc r.at; block = r.block; found = r.found; covers = r.covers }
]

validate_messages-at :
    (ms : List (Option Message)) (k : ℕ) (m : Message)
    → validate_messages ms ≡ ok tt
    → get_elem? ms k ≡ some (some m)
    → validate_message (some m) ≡ ok tt
unfolding validate_messages
validate_messages-at [] k m h e = absurd (ground arith)
validate_messages-at (n ∷ ms) zero m h e =
    subst (λ x. validate_message x ≡ ok tt) (some_injective e)
      (((>>-eq-ok (validate_message n) (validate_messages ms)).0 h).0)
validate_messages-at (n ∷ ms) (suc k) m h e =
    validate_messages-at ms k m (((>>-eq-ok (validate_message n) (validate_messages ms)).0 h).1) e

validate_message-blocks :
    (m : Message)
    → validate_message (some m) ≡ ok tt
    → validate_blocks m.role (has_covered_block m.blocks) m.blocks ≡ ok tt
unfolding validate_message
validate_message-blocks m h =
    ((>>-eq-ok _ (validate_blocks m.role (has_covered_block m.blocks) m.blocks)).0 h).1

validate_block-trailing :
    (p : Place) (b : RequestBlock) (ts : TrailingSignatureBlock)
    → b.kind ≡ BlockKind.trailing_signature (some ts)
    → validate_block p (some b) ≡ ok tt
    → validate_trailing_signature p ts ≡ ok tt
unfolding validate_block validate_kind
validate_block-trailing p b ts t h =
    subst (λ k. validate_kind p k ≡ ok tt) t (((>>-eq-ok _ (validate_kind p b.kind)).0 h).1)

validate_trailing_signature-eq-ok :
    (p : Place) (ts : TrailingSignatureBlock)
    → validate_trailing_signature p ts ≡ ok tt
    → (is_empty ts.signature ≡ false)
      × (bytes_eq p.role (codes "assistant") ≡ true)
      × (p.is_final ≡ true)
      × (p.has_covered_block ≡ true)
unfolding validate_trailing_signature
validate_trailing_signature-eq-ok p ts h = ground arith

-- A trailing-signature block in accepted messages is the last block of its message, the message is
-- the assistant's, the signature is not empty, and a text or thinking block stands before it.
pub trailing_signature_place :
    (ms : List (Option Message)) (k : ℕ) (m : Message) (i : ℕ) (b : RequestBlock)
    → (ts : TrailingSignatureBlock) → validate_messages ms ≡ ok tt
    → get_elem? ms k ≡ some (some m)
    → get_elem? m.blocks i ≡ some (some b)
    → b.kind ≡ BlockKind.trailing_signature (some ts)
    → (suc i ≡ length m.blocks)
      × (m.role ≡ codes "assistant")
      × (is_empty ts.signature ≡ false)
      × ((j : ℕ) × (j < i)
          × (c : RequestBlock) × (get_elem? m.blocks j ≡ some (some c))
          × (covers_kind c.kind ≡ true))
unfolding covers_kind
trailing_signature_place ms k m i b ts h e g t =
    let r =
      validate_blocks-Checked m.role (has_covered_block m.blocks) m.blocks i (some b)
        (validate_message-blocks m (validate_messages-at ms k m h e)) g in
    let q = validate_block-trailing _ b ts t r.passes in
    let s = validate_trailing_signature-eq-ok _ ts q in
    let last = r.at_end s.2 in
    let c = has_covered_block-Covered m.blocks s.3 in
    let apart : c.at ≢ i = λ n. cc in
    (
      last,
      (bytes_eq_iff m.role (codes "assistant")).0 s.1,
      s.0,
      (
        c.at,
        omega (arith, apart, last, get_elem?-lt m.blocks c.at c.found),
        c.block,
        c.found,
        c.covers,
      ),
    )

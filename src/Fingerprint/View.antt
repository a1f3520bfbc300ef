-- ===== src/Fingerprint/View.antt =====
-- What the frames of a block say: the block without its unknown protobuf fields, with its nested
-- content as a digest.
use torana_plugin_sdk.Prelude.{
  ℕ, Bool, true, false, Bytes, List, [], ◌∷◌, ◌++◌, Option, none, some, ok, drop, codes, bytes_eq,
  if◌then◌else◌, get_elem?, ◌≡◌, refl, sym, ◌∙◌, ap, arith,
}
use torana_plugin_sdk.Proto.Request.{function, BlockKind}
use torana_plugin_sdk.Fingerprint.Frames.{Frame}
use torana_plugin_sdk.Fingerprint.Content.{content_preimage}
use torana_plugin_sdk.Fingerprint.{
  check_kind, kind_name, format_invocation, format_optional, presence, fields,
}

-- The invocation kind is the text of its number, and `[]` where a block has none.
pub record BlockView : Type 0 where
  pub kind : BlockKind
  pub invocation : Bytes
  pub nested : Bytes

abbrev plain : BlockKind → BlockView
plain k = record { kind = k; invocation = []; nested = [] }

module _ (sha256 : Bytes → Bytes) where
  unfoldable pub view : BlockKind → BlockView
  view (BlockKind.text (some t)) = plain (BlockKind.text (some (record t { unknown_fields = [] })))
  view (BlockKind.thinking (some t)) =
      plain (BlockKind.thinking (some (record t { unknown_fields = [] })))
  view (BlockKind.redacted_thinking (some r)) =
      plain (BlockKind.redacted_thinking (some (record r { unknown_fields = [] })))
  view (BlockKind.tool_use (some u)) = record {
    kind = BlockKind.tool_use (some (record u { invocation_kind = function; unknown_fields = [] }));
    invocation = format_invocation u.invocation_kind;
    nested = [];
  }
  view (BlockKind.tool_result (some r)) = record {
    kind =
        BlockKind.tool_result
          (some (record r { content = []; invocation_kind = function; unknown_fields = [] }));
    invocation = format_invocation r.invocation_kind;
    nested = sha256 (content_preimage r.content);
  }
  view (BlockKind.cache_breakpoint (some c)) =
      plain (BlockKind.cache_breakpoint (some (record c { unknown_fields = [] })))
  view (BlockKind.unknown (some u)) =
      plain (BlockKind.unknown (some (record u { unknown_fields = [] })))
  view (BlockKind.trailing_signature (some t)) =
      plain (BlockKind.trailing_signature (some (record t { unknown_fields = [] })))
  view (BlockKind.refusal (some r)) =
      plain (BlockKind.refusal (some (record r { unknown_fields = [] })))
  view k = plain k

value_of : Option Frame → Bytes
value_of none = []
value_of (some f) = f.1

value_at : ℕ → List Frame → Bytes
unfolding value_of
value_at i fs = value_of (get_elem? fs i)

present_value : List Frame → Option Bytes × List Frame
present_value [] = (none, [])
present_value (f ∷ fs) = (some f.1, fs)

-- A presence frame, its value, and what is behind them.
read_presence : List Frame → Option Bytes × List Frame
unfolding present_value
read_presence [] = (none, [])
read_presence (f ∷ fs) = if bytes_eq f.1 (codes "1") then present_value fs else (none, fs)

read_bool : Option Bytes → Option Bool
read_bool none = none
read_bool (some v) = some (bytes_eq v (codes "true"))

-- The block that a "kind" frame and the frames behind it describe.
rebuild : Bytes → List Frame → BlockView
unfolding value_at read_presence read_bool
rebuild name fs =
    if bytes_eq name (codes "text")
    then plain (
        BlockKind.text (
          some (record {
            text = value_at 0 fs;
            signature = value_at 1 fs;
            part_metadata_json = value_at 2 fs;
            unknown_fields = [];
          })))
    else if bytes_eq name (codes "thinking")
    then plain (
        BlockKind.thinking (
          some (record {
            text = value_at 0 fs;
            signature = value_at 1 fs;
            part_metadata_json = value_at 2 fs;
            unknown_fields = [];
          })))
    else if bytes_eq name (codes "redacted")
    then plain (
        BlockKind.redacted_thinking
          (some (record { redacted = value_at 0 fs; unknown_fields = [] })))
    else if bytes_eq name (codes "tool_use")
    then record {
      kind = BlockKind.tool_use (
          some (record {
            id = value_at 0 fs;
            name = value_at 1 fs;
            arguments_json = value_at 2 fs;
            signature = value_at 3 fs;
            part_metadata_json = value_at 4 fs;
            input_text = (read_presence (drop 6 fs)).0;
            invocation_kind = function;
            unknown_fields = [];
          }));
      invocation = value_at 5 fs;
      nested = [];
    }
    else if bytes_eq name (codes "tool_result")
    then (let wc = read_presence (drop 3 fs) in
        let sched = read_presence wc.1 in
        let iserr = read_presence sched.1 in
        record {
          kind = BlockKind.tool_result (
              some (record {
                tool_call_id = value_at 0 fs;
                tool_name = value_at 1 fs;
                content = [];
                part_metadata_json = value_at 2 fs;
                will_continue = read_bool wc.0;
                scheduling = sched.0;
                signature = value_at 0 iserr.1;
                invocation_kind = function;
                is_error = read_bool iserr.0;
                unknown_fields = [];
              }));
          invocation = value_at 1 iserr.1;
          nested = value_at 2 iserr.1;
        })
    else if bytes_eq name (codes "cache")
    then plain (
        BlockKind.cache_breakpoint
          (some (record { marker_json = value_at 0 fs; unknown_fields = [] })))
    else if bytes_eq name (codes "unknown")
    then plain (
        BlockKind.unknown (
          some (record {
            kind = value_at 0 fs;
            payload_json = value_at 1 fs;
            part_metadata_json = value_at 2 fs;
            signature = value_at 3 fs;
            unknown_fields = [];
          })))
    else if bytes_eq name (codes "trailing")
    then plain (
        BlockKind.trailing_signature (
          some (record {
            signature = value_at 0 fs;
            part_metadata_json = value_at 1 fs;
            unknown_fields = [];
          })))
    else plain (BlockKind.refusal (some (record { refusal = value_at 0 fs; unknown_fields = [] })))

read_presence-alone : (t v : Bytes) (o : Option Bytes) → (read_presence (presence t v o)).0 ≡ o
unfolding read_presence presence bytes_eq
read_presence-alone t v none = refl
read_presence-alone t v (some x) = refl

read_presence-presence :
    (t v : Bytes) (o : Option Bytes) (rest : List Frame)
    → read_presence (presence t v o ++ rest) ≡ (o, rest)
unfolding read_presence presence bytes_eq
read_presence-presence t v none rest = refl
read_presence-presence t v (some x) rest = refl

read_bool-format : (o : Option Bool) → read_bool (format_optional o) ≡ o
unfolding read_bool bytes_eq
read_bool-format none = refl
read_bool-format (some true) = refl
read_bool-format (some false) = refl

module _ (sha256 : Bytes → Bytes) where
  rebuild-fields :
      (k : BlockKind)
      → check_kind k ≡ ok tt
      → rebuild (kind_name k) (fields sha256 k) ≡ view sha256 k
  unfolding rebuild kind_name fields view bytes_eq check_kind
  rebuild-fields (BlockKind.text (some t)) h = refl
  rebuild-fields (BlockKind.thinking (some t)) h = refl
  rebuild-fields (BlockKind.redacted_thinking (some r)) h = refl
  rebuild-fields (BlockKind.tool_use (some u)) h =
      rw (read_presence-alone (codes "input-present") (codes "input") u.input_text) refl
  rebuild-fields (BlockKind.tool_result (some r)) h =
      rw
        (
          read_presence-presence (codes "wc") (codes "wcval") (format_optional r.will_continue) _,
          read_presence-presence (codes "sched") (codes "schedval") r.scheduling _,
          read_presence-presence (codes "iserr") (codes "iserrval") (format_optional r.is_error) _,
          read_bool-format r.will_continue,
          read_bool-format r.is_error,
        )
        refl
  rebuild-fields (BlockKind.cache_breakpoint (some c)) h = refl
  rebuild-fields (BlockKind.unknown (some u)) h = refl
  rebuild-fields (BlockKind.trailing_signature (some t)) h = refl
  rebuild-fields (BlockKind.refusal (some r)) h = refl
  rebuild-fields BlockKind.no_arm h = absurd (ground arith)
  rebuild-fields _ h = absurd (ground arith)

  -- Blocks with the same frames have the same view.
  pub fields-view :
      (j k : BlockKind)
      → check_kind j ≡ ok tt
      → check_kind k ≡ ok tt
      → kind_name j ≡ kind_name k
      → fields sha256 j ≡ fields sha256 k
      → view sha256 j ≡ view sha256 k
  fields-view j k cj ck n f =
      sym (rebuild-fields j cj)
      ∙ ap (λ x. rebuild x (fields sha256 j)) n
      ∙ ap (rebuild (kind_name k)) f
      ∙ rebuild-fields k ck

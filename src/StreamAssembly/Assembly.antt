-- ===== src/StreamAssembly/Assembly.antt =====
-- What a sequence of fed events leaves in the buffers, and the call that a stop completes.
use mathlib.Core.List.{append-nil, append_assoc}
use torana_plugin_sdk.Prelude.{
  ℕ, true, false, Bytes, List, [], ◌∷◌, ◌++◌, none, some, Result, Check, ok, err, ◌==◌,
  if◌then◌else◌, ◌≡◌, refl, ap, sym, ◌∙◌, arith, ==-refl, ==_iff, Bool-cases, inl, inr,
}
use torana_plugin_sdk.Proto.Envelope.{
  holds, nil_wrapper, nil_message, ToolCallRef, ToolCallDelta, StartBlock, StreamEvent,
}
use torana_plugin_sdk.RequestValidate.Parts.{slice_bytes}
use torana_plugin_sdk.Envelope.Stream.{
  EventError, validate_event, validate_block_start, validate_tool_call_delta, is_negative,
}
use torana_plugin_sdk.StreamAssembly.MetaStore.{Meta, find, insert, stored, meta_append}
use torana_plugin_sdk.StreamAssembly.Frames.{encode_header}
use torana_plugin_sdk.StreamAssembly.Feed.{
  fragment_of, feed, feed_event, feed_start, feed_delta, feed_stop, feed_checked,
}

-- The buffer of a block; an absent one is empty.
abbrev pub buffer : ℕ → Meta → Bytes
buffer i m = slice_bytes (find i m)

find-insert : (i : ℕ) (v : Bytes) (m : Meta) → find i (insert i v m) ≡ some v
unfolding find insert
find-insert i v [] = ground (arith, ==-refl i)
find-insert i v (e ∷ m) = ground (arith, ==-refl i, find-insert i v m)

find-insert_other :
    (i j : ℕ) (v : Bytes) (m : Meta) → (j == i) ≡ false → find i (insert j v m) ≡ find i m
unfolding find insert
find-insert_other i j v [] h = ground arith
find-insert_other i j v (e ∷ m) h = ground (arith, find-insert_other i j v m h)

-- A stored fragment goes behind the buffer of its block and leaves the others.
buffer-stored :
    (i j : ℕ) (fragment : Bytes) (m : Meta)
    → buffer i (stored j fragment m) ≡ buffer i m ++ (if j == i then fragment else [])
unfolding stored
buffer-stored i j fragment m = elim (Bool-cases (j == i)) [
  | inl e ↦
      ground
        (arith, append-nil (buffer i m), find-insert i (buffer i m ++ fragment) m, (==_iff j i).0 e)
  | inr e ↦
      ground (arith, append-nil (buffer i m), find-insert_other i j (buffer j m ++ fragment) m e)
]

-- The text of a fragment: the free-form text where the delta has one, else the arguments.
abbrev said_by : ToolCallDelta → Bytes
said_by d = elim d.input_text_delta [ none ↦ d.arguments_delta | some t ↦ t ]

module _ {E : Type 0} (marshal : ToolCallRef → Result E Bytes) where
  unfoldable pub header_of : StartBlock → Bytes
  header_of (StartBlock.tool_call (holds ref)) = elim (encode_header marshal ref) [
    | ok b ↦ b
    | err e ↦ []
  ]
  header_of _ = []

  -- What an event adds to a block: the frame header of a tool call that starts, or a fragment.
  unfoldable pub adds : ℕ → StreamEvent → Bytes
  unfolding header_of
  adds i (StreamEvent.content_block_start (holds s)) =
      if s.index == i then header_of s.block else []
  adds i (StreamEvent.tool_call_delta (holds d)) = if d.index == i then said_by d else []
  adds i _ = []

  -- The same, of the valid events of a sequence.
  unfoldable pub added : ℕ → List StreamEvent → Bytes
  unfolding adds
  added i [] = []
  added i (ev ∷ evs) =
      elim (validate_event (some ev)) [ ok _ ↦ adds i ev | err e ↦ [] ] ++ added i evs

module _ {E : Type 0} (marshal : ToolCallRef → Result E Bytes)
    (unmarshal : Bytes → Result E ToolCallRef) where
  feed_delta-buffer :
      (i : ℕ) (d : ToolCallDelta) (m : Meta)
      → validate_tool_call_delta d ≡ ok tt
      → buffer i (feed_delta marshal unmarshal d m).0
        ≡ buffer i m ++ (if d.index == i then fragment_of d else [])
  unfolding feed_delta meta_append validate_tool_call_delta stored
  feed_delta-buffer i d m h =
      ground (arith, buffer-stored i d.index (fragment_of d) m, append-nil (buffer i m))

  feed_start-buffer :
      (ev : StreamEvent) (i j : ℕ) (b : StartBlock) (m : Meta)
      → is_negative j ≡ false
      → buffer i (feed_start marshal unmarshal ev j b m).0
        ≡ buffer i m ++ (if j == i then header_of marshal b else [])
  unfolding feed_start meta_append header_of
  feed_start-buffer ev i j (StartBlock.tool_call (holds ref)) m h =
      by_header (encode_header marshal ref) refl
    where
      by_header :
          (r : Result E Bytes)
          → encode_header marshal ref ≡ r
          → buffer i (feed_start marshal unmarshal ev j (StartBlock.tool_call (holds ref)) m).0
            ≡ buffer i m
              ++ (if j == i then header_of marshal (StartBlock.tool_call (holds ref)) else [])
      by_header (ok frame) e = ground (arith, e, buffer-stored i j frame m)
      by_header (err x) e = ground (arith, e, append-nil (buffer i m))
  feed_start-buffer ev i j (StartBlock.tool_call nil_wrapper) m h =
      ground (arith, append-nil (buffer i m))
  feed_start-buffer ev i j (StartBlock.tool_call nil_message) m h =
      ground (arith, append-nil (buffer i m))
  feed_start-buffer ev i j StartBlock.no_block m h = ground (arith, append-nil (buffer i m))
  feed_start-buffer ev i j (StartBlock.text w) m h = ground (arith, append-nil (buffer i m))
  feed_start-buffer ev i j (StartBlock.thinking w) m h = ground (arith, append-nil (buffer i m))
  feed_start-buffer ev i j (StartBlock.provider w) m h = ground (arith, append-nil (buffer i m))

  feed_stop_keeps :
      (ev : StreamEvent) (j : ℕ) (m : Meta) → (feed_stop marshal unmarshal ev j m).0 ≡ m
  unfolding feed_stop meta_append stored
  feed_stop_keeps ev j m = ground arith

  feed_event-buffer :
      (i : ℕ) (ev : StreamEvent) (m : Meta)
      → validate_event (some ev) ≡ ok tt
      → buffer i (feed_event marshal unmarshal ev m).0 ≡ buffer i m ++ adds marshal i ev
  unfolding feed_event adds validate_event validate_block_start
  feed_event-buffer i (StreamEvent.content_block_start (holds s)) m h =
      feed_start-buffer (StreamEvent.content_block_start (holds s)) i s.index s.block m
        (ground arith)
  feed_event-buffer i (StreamEvent.tool_call_delta (holds d)) m h = feed_delta-buffer i d m h
  feed_event-buffer i (StreamEvent.content_block_stop (holds s)) m h = ground (
    arith,
    append-nil (buffer i m),
    feed_stop_keeps (StreamEvent.content_block_stop (holds s)) s.index m,
  )
  feed_event-buffer i StreamEvent.no_event m h = sym (append-nil (buffer i m))
  feed_event-buffer i (StreamEvent.text_delta t) m h = sym (append-nil (buffer i m))
  feed_event-buffer i (StreamEvent.thinking_delta t) m h = sym (append-nil (buffer i m))
  feed_event-buffer i (StreamEvent.signature_delta t) m h = sym (append-nil (buffer i m))
  feed_event-buffer i (StreamEvent.usage w) m h = sym (append-nil (buffer i m))
  feed_event-buffer i (StreamEvent.error w) m h = sym (append-nil (buffer i m))
  feed_event-buffer i (StreamEvent.message_start w) m h = sym (append-nil (buffer i m))
  feed_event-buffer i (StreamEvent.message_stop w) m h = sym (append-nil (buffer i m))
  feed_event-buffer i (StreamEvent.tool_call_delta nil_wrapper) m h = sym (append-nil (buffer i m))
  feed_event-buffer i (StreamEvent.tool_call_delta nil_message) m h = sym (append-nil (buffer i m))
  feed_event-buffer i (StreamEvent.content_block_start nil_wrapper) m h =
      sym (append-nil (buffer i m))
  feed_event-buffer i (StreamEvent.content_block_start nil_message) m h =
      sym (append-nil (buffer i m))
  feed_event-buffer i (StreamEvent.content_block_stop nil_wrapper) m h =
      sym (append-nil (buffer i m))
  feed_event-buffer i (StreamEvent.content_block_stop nil_message) m h =
      sym (append-nil (buffer i m))

  -- The host's metadata after a sequence of events, each fed by itself.
  unfoldable pub feed_all : List StreamEvent → Meta → Meta
  feed_all [] m = m
  feed_all (ev ∷ evs) m = feed_all evs (feed marshal unmarshal true (some ev) m).0

  feed-buffer :
      (i : ℕ) (ev : StreamEvent) (m : Meta)
      → buffer i (feed marshal unmarshal true (some ev) m).0
        ≡ buffer i m ++ added marshal i (ev ∷ [])
  unfolding feed feed_checked added
  feed-buffer i ev m = by_verdict (validate_event (some ev)) refl
    where
      by_verdict :
          (v : Check EventError)
          → validate_event (some ev) ≡ v
          → buffer i (feed marshal unmarshal true (some ev) m).0
            ≡ buffer i m ++ added marshal i (ev ∷ [])
      by_verdict (ok tt) e = rw (e, append-nil (adds marshal i ev)) (feed_event-buffer i ev m e)
      by_verdict (err x) e = rw (e) (sym (append-nil (buffer i m)))

  added-cons :
      (i : ℕ) (ev : StreamEvent) (evs : List StreamEvent)
      → added marshal i (ev ∷ evs) ≡ added marshal i (ev ∷ []) ++ added marshal i evs
  unfolding added
  added-cons i ev evs = ap (λ l. l ++ added marshal i evs) (sym (append-nil _))

  -- The buffer of a block collects, in order, what the valid events say about it.
  pub feed_all-buffer :
      (i : ℕ) (evs : List StreamEvent) (m : Meta)
      → buffer i (feed_all evs m) ≡ buffer i m ++ added marshal i evs
  unfolding feed_all added
  feed_all-buffer i [] m = sym (append-nil (buffer i m))
  feed_all-buffer i (ev ∷ evs) m =
      feed_all-buffer i evs (feed marshal unmarshal true (some ev) m).0
      ∙ ap (λ l. l ++ added marshal i evs) (feed-buffer i ev m)
      ∙ append_assoc (buffer i m) (added marshal i (ev ∷ [])) (added marshal i evs)
      ∙ ap (λ l. buffer i m ++ l) (sym (added-cons i ev evs))

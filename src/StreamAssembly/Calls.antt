-- ===== src/StreamAssembly/Calls.antt =====
-- A tool call that was streamed in fragments comes out whole, and goes out again as it came.
use torana_plugin_sdk.Prelude.{
  if◌then◌else◌, ◌+◌, ℕ, ◌^◌, ◌<◌, true, false, Bytes, List, [], ◌∷◌, ◌++◌, some, Result, ok,
  is_empty, ◌≡◌, refl, ap, ◌∙◌, arith, length, bytes_eq, bytes_eq_refl, ==-refl,
}
use torana_plugin_sdk.Proto.Request.{InvocationKind, function, freeform, other}
use torana_plugin_sdk.Proto.Envelope.{holds, ToolCallRef, ToolCallDelta, StartBlock, StreamEvent}
use torana_plugin_sdk.RequestValidate.Blocks.{is_some}
use torana_plugin_sdk.Envelope.Stream.{
  validate_event, validate_block_start, validate_block_stop, is_negative,
}
use torana_plugin_sdk.StreamAssembly.MetaStore.{
  Meta, stored, meta_append, meta_append_success_value,
}
use torana_plugin_sdk.StreamAssembly.Frames.{
  encode_header, decode_frame, decode_frame-encode_header,
}
use torana_plugin_sdk.StreamAssembly.Feed.{
  AssembledCall, completes, assembled, call_arguments, call_input, decoded, feed, feed_event,
  feed_stop, feed_checked, emit_assembled_tool_call, reemit_ref, emitted_delta, emitted_signature,
  original_payload,
}
use torana_plugin_sdk.StreamAssembly.Handler.{
  Handler, ToolCallAction, emit_events, pass_tool_call, payload_of, apply_action, finish_call,
  handle_fed, handle,
}
use torana_plugin_sdk.StreamAssembly.Assembly.{
  buffer, header_of, adds, added, feed_all, feed_all-buffer,
}
use torana_plugin_sdk.StreamAssembly.Completion.{
  start_event, stop_event, IsCallOf, IsCompletion, IsDeltaOf, assembled-IsCallOf,
  assembled-IsCompletion, emitted_delta-IsDeltaOf,
}

original_payload-assembled :
    (k : InvocationKind) (args : Bytes)
    → original_payload k (call_input k args) (call_arguments k args) ≡ args
unfolding original_payload call_input call_arguments
original_payload-assembled function args = refl
original_payload-assembled freeform args = refl
original_payload-assembled (other n) args = refl

-- An assembled call goes out as the start of its block, one delta and the stop; the signature is kept
-- for the payload that it was assembled with.
pub emit_assembled-eq :
    (i : ℕ) (ref : ToolCallRef) (args payload : Bytes)
    → emit_assembled_tool_call (assembled i ref args) payload
      ≡ start_event i
          (record ref { signature = if bytes_eq payload args then ref.signature else [] })
        ∷ StreamEvent.tool_call_delta (holds (emitted_delta ref.invocation_kind i payload))
        ∷ stop_event i
        ∷ []
unfolding emit_assembled_tool_call assembled reemit_ref emitted_signature
emit_assembled-eq i ref args payload = rw (original_payload-assembled ref.invocation_kind args) refl

emit_assembled_pass :
    (i : ℕ) (ref : ToolCallRef) (args : Bytes)
    → emit_assembled_tool_call (assembled i ref args) args
      ≡ start_event i ref
        ∷ StreamEvent.tool_call_delta (holds (emitted_delta ref.invocation_kind i args))
        ∷ stop_event i
        ∷ []
emit_assembled_pass i ref args = rw (emit_assembled-eq i ref args args, bytes_eq_refl args) refl

read-back :
    (i : ℕ) (m : Meta)
    → is_negative i ≡ false
    → is_empty (buffer i m) ≡ false
    → meta_append i [] m ≡ (m, ok (buffer i m))
unfolding meta_append stored meta_append_success_value
read-back i m h e = ground arith

is_empty-append : (xs ys : Bytes) → is_empty xs ≡ false → is_empty (xs ++ ys) ≡ false
is_empty-append [] ys h = absurd (ground arith)
is_empty-append (x ∷ xs) ys h = refl

module _ {E : Type 0} (marshal : ToolCallRef → Result E Bytes)
    (unmarshal : Bytes → Result E ToolCallRef) where
  feed_stop-buffer :
      (i : ℕ) (m : Meta)
      → is_negative i ≡ false
      → is_empty (buffer i m) ≡ false
      → feed marshal unmarshal true (some (stop_event i)) m
        ≡ (m, decoded marshal unmarshal i (decode_frame unmarshal (buffer i m)))
  unfolding feed feed_checked feed_event feed_stop validate_event validate_block_stop
  feed_stop-buffer i m h e = rw (h, read-back i m h e, e) refl

  header_of-start :
      (ref : ToolCallRef) (header : Bytes)
      → encode_header marshal ref ≡ ok header
      → header_of marshal (StartBlock.tool_call (holds ref)) ≡ header
  unfolding header_of
  header_of-start ref header e = rw (header_of, e) refl

  added-start :
      (i : ℕ) (ref : ToolCallRef) (header : Bytes) (evs : List StreamEvent)
      → validate_event (some (start_event i ref)) ≡ ok tt
      → encode_header marshal ref ≡ ok header
      → added marshal i (start_event i ref ∷ evs) ≡ header ++ added marshal i evs
  unfolding added adds
  added-start i ref header evs v e = rw (v, ==-refl i, header_of-start ref header e) refl

  pub start-nonnegative :
      (i : ℕ) (ref : ToolCallRef)
      → validate_event (some (start_event i ref)) ≡ ok tt
      → is_negative i ≡ false
  unfolding validate_event validate_block_start
  start-nonnegative i ref v = ground arith

  stop-assembled :
      (i : ℕ) (ref : ToolCallRef) (raw : Bytes) (evs : List StreamEvent) (m : Meta)
      → validate_event (some (start_event i ref)) ≡ ok tt
      → buffer i m ≡ []
      → marshal ref ≡ ok raw
      → unmarshal raw ≡ ok ref
      → 4 + length raw < 2 ^ 32
      → (feed marshal unmarshal true
          (some (stop_event i))
          (feed_all marshal unmarshal (start_event i ref ∷ evs) m)).1
        ≡ completes (assembled i ref (added marshal i evs))
  unfolding decoded
  stop-assembled i ref raw evs m v b c d l =
      let d4 = decode_frame-encode_header marshal unmarshal ref raw (added marshal i evs) c d l in
      let last = feed_all marshal unmarshal (start_event i ref ∷ evs) m in
      let whole : buffer i last ≡ d4.0 ++ added marshal i evs =
        feed_all-buffer marshal unmarshal i (start_event i ref ∷ evs) m
        ∙ ap (λ l. l ++ added marshal i (start_event i ref ∷ evs)) b
        ∙ added-start i ref d4.0 evs v d4.1 in
      let full : is_empty (buffer i last) ≡ false =
        ap is_empty whole ∙ is_empty-append d4.0 (added marshal i evs) d4.2 in
      ap (λ p. p.1) (feed_stop-buffer i last (start-nonnegative i ref v) full)
      ∙ ap (λ q. decoded marshal unmarshal i (decode_frame unmarshal q)) whole
      ∙ ap (decoded marshal unmarshal i) d4.3

  -- A stop completes the call of its block. The start of the call is valid, its block had no buffer,
  -- and protobuf reads back the ToolCallRef that it wrote, in less than 2 ^ 32 - 4 bytes. Then, whatever
  -- the events between, of this block and others, the completed call has the index of the block, the
  -- id, name, signature, kind and ToolCallRef of the start and, in the field of its kind, what the valid
  -- events add to the block: their fragments in order (and the frame header of a further start of
  -- the same block); the stop is held back, and nothing is emitted.
  pub stop-completes :
      (i : ℕ) (ref : ToolCallRef) (raw : Bytes) (evs : List StreamEvent) (m : Meta)
      → validate_event (some (start_event i ref)) ≡ ok tt
      → buffer i m ≡ []
      → marshal ref ≡ ok raw
      → unmarshal raw ≡ ok ref
      → 4 + length raw < 2 ^ 32
      → IsCompletion i ref
          (added marshal i evs)
          (feed marshal unmarshal true
            (some (stop_event i))
            (feed_all marshal unmarshal (start_event i ref ∷ evs) m)).1
  stop-completes i ref raw evs m v b c d l =
      assembled-IsCompletion i ref (added marshal i evs) _
        (stop-assembled i ref raw evs m v b c d l)

payload_of-assembled :
    (i : ℕ) (ref : ToolCallRef) (args : Bytes) → payload_of (assembled i ref args) ≡ args
unfolding assembled
payload_of-assembled i ref args = original_payload-assembled ref.invocation_kind args

module _ {E C : Type 0} (marshal : ToolCallRef → Result E Bytes)
    (unmarshal : Bytes → Result E ToolCallRef) where
  finish_call-pass :
      (h : Handler C) (f : AssembledCall → Result C (ToolCallAction C)) (call : AssembledCall)
      → h.on_tool_call ≡ some f
      → f call ≡ ok pass_tool_call
      → finish_call {E = E} h call
        ≡ ok (emit_events (emit_assembled_tool_call call (payload_of call)))
  unfolding finish_call apply_action
  finish_call-pass h f call t p = rw (t, p) refl

  -- Under the conditions of `stop-completes`, when the handler has a tool callback and that passes
  -- every call with the fields and the payload that are completed there, the handler answers the stop
  -- with the ToolCallRef of the start, one delta with all that the events in between add to the block,
  -- as free-form text for a free-form call and as arguments otherwise, and the stop.
  pub handle_pass :
      (h : Handler C) (f : AssembledCall → Result C (ToolCallAction C))
      → (i : ℕ) (ref : ToolCallRef) (raw : Bytes) (evs : List StreamEvent) (m : Meta)
      → h.on_tool_call ≡ some f
      → ((call : AssembledCall)
          → IsCallOf i ref (added marshal i evs) call
          → f call ≡ ok pass_tool_call)
      → validate_event (some (start_event i ref)) ≡ ok tt
      → buffer i m ≡ []
      → marshal ref ≡ ok raw
      → unmarshal raw ≡ ok ref
      → 4 + length raw < 2 ^ 32
      → (delta : ToolCallDelta) × IsDeltaOf i ref.invocation_kind (added marshal i evs) delta
        × ((handle {C = C} marshal unmarshal h
              (some (stop_event i))
              (feed_all marshal unmarshal (start_event i ref ∷ evs) m)).1
            ≡ ok (
                emit_events (
                  start_event i ref
                  ∷ StreamEvent.tool_call_delta (holds delta)
                  ∷ stop_event i
                  ∷ [])))
  unfolding handle handle_fed
  handle_pass h f i ref raw evs m t p v b c d l =
      let args = added marshal i evs in
      let done = stop-assembled marshal unmarshal i ref raw evs m v b c d l in
      let on : is_some h.on_tool_call ≡ true = ap is_some t in
      let passed = p (assembled i ref args) (assembled-IsCallOf i ref args) in
      (
        emitted_delta ref.invocation_kind i args,
        emitted_delta-IsDeltaOf i ref.invocation_kind args,
        rw (on, done)
            (finish_call-pass h f (assembled i ref args) t passed
              ∙ ap (λ l. ok (emit_events l))
                  (ap (emit_assembled_tool_call (assembled i ref args))
                      (payload_of-assembled i ref args)
                    ∙ emit_assembled_pass i ref args)),
      )

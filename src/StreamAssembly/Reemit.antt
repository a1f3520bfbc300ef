-- ===== src/StreamAssembly/Reemit.antt =====
-- A call that is emitted with a payload and fed again.
use mathlib.Core.List.{append-nil}
use torana_plugin_sdk.Prelude.{
  ℕ, ◌+◌, ◌^◌, ◌<◌, true, false, Bytes, [], ◌∷◌, some, ok, ◌≡◌, ◌≢◌, sym, ap, ◌∙◌, subst, length,
  bytes_eq, bytes_eq_iff, Bool-cases, inl, inr, ==-refl, if◌then◌else◌, Result,
}
use torana_plugin_sdk.Proto.Request.{InvocationKind, function, freeform, other}
use torana_plugin_sdk.Proto.Envelope.{holds, ToolCallRef, ToolCallDelta, StreamEvent}
use torana_plugin_sdk.Envelope.Stream.{validate_event, validate_tool_call_delta, is_negative}
use torana_plugin_sdk.StreamAssembly.MetaStore.{Meta}
use torana_plugin_sdk.StreamAssembly.Feed.{
  AssembledCall, feed, emit_assembled_tool_call, emitted_delta,
}
use torana_plugin_sdk.StreamAssembly.Assembly.{buffer, adds, added, feed_all}
use torana_plugin_sdk.StreamAssembly.Completion.{
  start_event, stop_event, IsCallOf, IsCompletion, IsDeltaOf, IsCallOf-assembled,
  emitted_delta-IsDeltaOf,
}
use torana_plugin_sdk.StreamAssembly.Calls.{emit_assembled-eq, stop-completes, start-nonnegative}

-- The signature that a call keeps with a payload.
kept_signature :
    (signature args payload sig : Bytes)
    → (payload ≡ args → sig ≡ signature)
    → (payload ≢ args → sig ≡ [])
    → (if bytes_eq payload args then signature else []) ≡ sig
kept_signature signature args payload sig kept cleared = elim (Bool-cases (bytes_eq payload args)) [
  | inl e ↦ rw e (sym (kept ((bytes_eq_iff payload args).0 e)))
  | inr e ↦ rw e (sym (cleared (λ h. cc ((bytes_eq_iff payload args).1 h, e))))
]

module _ {E : Type 0} (marshal : ToolCallRef → Result E Bytes)
    (unmarshal : Bytes → Result E ToolCallRef) where
  -- The delta that is emitted adds its payload to the block.
  added-emitted_delta :
      (i : ℕ) (kind : InvocationKind) (payload : Bytes)
      → is_negative i ≡ false
      → added marshal i (StreamEvent.tool_call_delta (holds (emitted_delta kind i payload)) ∷ [])
        ≡ payload
  unfolding added adds validate_event validate_tool_call_delta emitted_delta
  added-emitted_delta i function payload n = rw (n, ==-refl i) (append-nil payload)
  added-emitted_delta i freeform payload n = rw (n, ==-refl i) (append-nil payload)
  added-emitted_delta i (other k) payload n = rw (n, ==-refl i) (append-nil payload)

  -- A call that the assembler completed, emitted with a payload, comes out as the start of its block,
  -- one delta with the payload in the field of its kind, and the stop; the start has the ToolCallRef of
  -- the call, unknown fields included, with its signature if the payload is the call's own, and none
  -- otherwise. If that start is valid, protobuf reads back the ToolCallRef that it writes in less than
  -- 2 ^ 32 - 4 bytes, and the block has no buffer, an assembler that is fed these events completes the
  -- call with that ToolCallRef and that payload.
  pub emit_assembled_reassembles :
      (i : ℕ) (ref : ToolCallRef) (args payload sig raw : Bytes) (call : AssembledCall) (m : Meta)
      → IsCallOf i ref args call
      → (payload ≡ args → sig ≡ ref.signature)
      → (payload ≢ args → sig ≡ [])
      → validate_event (some (start_event i (record ref { signature = sig }))) ≡ ok tt
      → buffer i m ≡ []
      → marshal (record ref { signature = sig }) ≡ ok raw
      → unmarshal raw ≡ ok (record ref { signature = sig })
      → 4 + length raw < 2 ^ 32
      → (delta : ToolCallDelta) × IsDeltaOf i ref.invocation_kind payload delta
        × (emit_assembled_tool_call call payload
            ≡ start_event i (record ref { signature = sig })
              ∷ StreamEvent.tool_call_delta (holds delta)
              ∷ stop_event i
              ∷ [])
        × IsCompletion i
            (record ref { signature = sig })
            payload
            (feed marshal unmarshal true (some (stop_event i)) (
              feed_all marshal unmarshal
                (start_event i (record ref { signature = sig })
                  ∷ StreamEvent.tool_call_delta (holds delta)
                  ∷ [])
                m)).1
  emit_assembled_reassembles i ref args payload sig raw call m p kept cleared v b c d l =
      let delta = emitted_delta ref.invocation_kind i payload in
      let out : ToolCallRef = record ref { signature = sig } in
      let between = StreamEvent.tool_call_delta (holds delta) ∷ [] in
      (
        delta,
        emitted_delta-IsDeltaOf i ref.invocation_kind payload,
        ap (λ c. emit_assembled_tool_call c payload) (IsCallOf-assembled i ref args call p)
            ∙ emit_assembled-eq i ref args payload
            ∙ ap
                (λ s.
                  start_event i (record ref { signature = s })
                  ∷ StreamEvent.tool_call_delta (holds delta)
                  ∷ stop_event i
                  ∷ [])
                (kept_signature ref.signature args payload sig kept cleared),
        subst
            (λ q.
              IsCompletion i out q
                (feed marshal unmarshal true (some (stop_event i))
                  (feed_all marshal unmarshal (start_event i out ∷ between) m)).1)
            (added-emitted_delta i ref.invocation_kind payload
              (start-nonnegative marshal unmarshal i out v))
            (stop-completes marshal unmarshal i out raw between m v b c d l),
      )

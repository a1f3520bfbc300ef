-- ===== src/Envelope/Accepted/Inputs.antt =====
-- `HookInput.ValidateFor` accepts an input for a hook exactly when the contract of the hook holds.
use torana_plugin_sdk.Prelude.{
  Bool, true, false, Bytes, Option, none, some, ◌≡◌, ◌↔◌, refl, arith, ok, err,
}
use torana_plugin_sdk.Proto.Envelope.{
  holds, nil_wrapper, nil_message, Hook, unspecified, before_request, after_response,
  on_stream_chunk, on_http_request, on_tick, Payload, ChatResponse, HookInput,
}
use torana_plugin_sdk.RequestValidate.{validate_replacement}
use torana_plugin_sdk.Envelope.Closed.{Reflected, validate_closed}
use torana_plugin_sdk.Envelope.Closed.Inside.{Inside, Clean, validate_closed_iff}
use torana_plugin_sdk.Envelope.Stream.{validate_event}
use torana_plugin_sdk.Envelope.Hooks.{
  EnvelopeError, hook_eq, input_hook, payload_present, validate_payload, validate_input,
  validate_input_for, validate_chat_response,
}
use torana_plugin_sdk.Envelope.Accepted.{InputFor, hook_eq_iff, wrap-eq-ok}

module _ (floats_fit : Bytes → Bool) where
  response_iff :
      (o : Option ChatResponse)
      → (elim o [
        | none ↦ err EnvelopeError.nil_response
        | some r ↦ validate_chat_response floats_fit r
      ]
          ≡ ok tt)
        ↔ elim o [ none ↦ ⊥ | some r ↦ validate_chat_response floats_fit r ≡ ok tt ]
  response_iff none = (λ h. absurd cc, λ q. absurd q)
  response_iff (some r) = (λ h. h, λ h. h)

  -- What is checked of a payload, one payload at a time.
  payload_iff :
      (h : Hook) (p : Payload)
      → ((payload_present p ≡ true)
          × (validate_payload floats_fit p ≡ ok tt)
          × (hook_eq (input_hook p) h ≡ true))
        ↔ InputFor floats_fit h p
  unfolding input_hook payload_present validate_payload InputFor
  payload_iff h Payload.no_payload = (λ q. absurd cc, λ q. absurd q)
  payload_iff h (Payload.chat_request (holds r)) = (
    λ q. (
      (hook_eq_iff before_request h).0 q.2,
      (wrap-eq-ok EnvelopeError.request (validate_replacement (some r))).0 q.1,
    ),
    λ q. (
      refl,
      (wrap-eq-ok EnvelopeError.request (validate_replacement (some r))).1 q.1,
      (hook_eq_iff before_request h).1 q.0,
    ),
  )
  payload_iff h (Payload.after_response_payload (holds a)) = (
    λ q. ((hook_eq_iff after_response h).0 q.2, (response_iff a.response).0 q.1),
    λ q. (refl, (response_iff a.response).1 q.1, (hook_eq_iff after_response h).1 q.0),
  )
  payload_iff h (Payload.stream_event (holds e)) = (
    λ q. (
      (hook_eq_iff on_stream_chunk h).0 q.2,
      (wrap-eq-ok EnvelopeError.event (validate_event (some e))).0 q.1,
    ),
    λ q. (
      refl,
      (wrap-eq-ok EnvelopeError.event (validate_event (some e))).1 q.1,
      (hook_eq_iff on_stream_chunk h).1 q.0,
    ),
  )
  payload_iff h (Payload.http_request (holds x)) = (
    λ q. (hook_eq_iff on_http_request h).0 q.2,
    λ q. (refl, refl, (hook_eq_iff on_http_request h).1 q),
  )
  payload_iff h (Payload.tick_request (holds x)) =
      (λ q. (hook_eq_iff on_tick h).0 q.2, λ q. (refl, refl, (hook_eq_iff on_tick h).1 q))
  payload_iff h (Payload.chat_request nil_wrapper) = (λ q. absurd cc, λ q. absurd q)
  payload_iff h (Payload.chat_request nil_message) = (λ q. absurd cc, λ q. absurd q)
  payload_iff h (Payload.after_response_payload nil_wrapper) = (λ q. absurd cc, λ q. absurd q)
  payload_iff h (Payload.after_response_payload nil_message) = (λ q. absurd cc, λ q. absurd q)
  payload_iff h (Payload.stream_event nil_wrapper) = (λ q. absurd cc, λ q. absurd q)
  payload_iff h (Payload.stream_event nil_message) = (λ q. absurd cc, λ q. absurd q)
  payload_iff h (Payload.http_request nil_wrapper) = (λ q. absurd cc, λ q. absurd q)
  payload_iff h (Payload.http_request nil_message) = (λ q. absurd cc, λ q. absurd q)
  payload_iff h (Payload.tick_request nil_wrapper) = (λ q. absurd cc, λ q. absurd q)
  payload_iff h (Payload.tick_request nil_message) = (λ q. absurd cc, λ q. absurd q)

  present_hook :
      (p : Payload) → payload_present p ≡ true → hook_eq (input_hook p) unspecified ≡ false
  unfolding input_hook hook_eq payload_present
  present_hook Payload.no_payload h = absurd cc
  present_hook (Payload.chat_request w) h = refl
  present_hook (Payload.after_response_payload w) h = refl
  present_hook (Payload.stream_event w) h = refl
  present_hook (Payload.http_request w) h = refl
  present_hook (Payload.tick_request w) h = refl

module _ (floats_fit : Bytes → Bool) (reflect : HookInput → Reflected) where
  input_parts :
      (h : Hook) (x : HookInput)
      → (validate_input_for floats_fit reflect h x ≡ ok tt) ↔ (
          (x.contract_revision ≡ 1)
          × (validate_closed (reflect x) ≡ ok tt)
          × (hook_eq (input_hook x.payload) unspecified ≡ false)
          × (payload_present x.payload ≡ true)
          × (validate_payload floats_fit x.payload ≡ ok tt)
          × (hook_eq (input_hook x.payload) h ≡ true))
  unfolding validate_input_for validate_input
  input_parts h x = ground arith

  -- An input is accepted for a hook exactly when it has revision 1, no message inside of it has
  -- unknown fields or strings that are not UTF-8, and its payload is present and that of the hook: a
  -- valid replacement request for before_request, a valid response for after_response, a valid event
  -- for on_stream_chunk, and any request for on_http_request and for on_tick.
  pub accepted_input_iff :
      (h : Hook) (x : HookInput)
      → (validate_input_for floats_fit reflect h x ≡ ok tt) ↔ (
          (x.contract_revision ≡ 1)
          × ((m : Reflected) → Inside m (reflect x) → Clean m)
          × InputFor floats_fit h x.payload)
  accepted_input_iff h x =
      let parts = input_parts h x in
      let payload = payload_iff floats_fit h x.payload in
      let clean = validate_closed_iff (reflect x) in
      (
        λ q. let p = parts.0 q in (p.0, clean.0 p.1, payload.0 (p.3, p.4, p.5)),
        λ q.
            let p = payload.1 q.2 in
            parts.1 (q.0, clean.1 q.1, present_hook floats_fit x.payload p.0, p.0, p.1, p.2),
      )

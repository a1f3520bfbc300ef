-- ===== src/Envelope/Accepted.antt =====
-- Exactly which hook envelopes are accepted, hook by hook.
pub mod Inputs
pub mod Results
use torana_plugin_sdk.Prelude.{
  ℕ, ◌≤◌, ◌<◌, ◌^◌, ◌>>◌, Bool, true, false, not, Bytes, List, [], ◌∷◌, Option, none, some, ◌≡◌,
  ◌↔◌, ◌⊎◌, inl, inr, refl, sym, arith, ok, Check, err, >>-eq-ok, refuse_if, refuse_if-eq-ok,
  is_empty, All, ap, ◌∙◌, ◌==◌, within, leb, if◌then◌else◌, ◌||◌, ◌&&◌,
}
use torana_plugin_sdk.Proto.Envelope.{
  Wrapper, holds, nil_wrapper, nil_message, Hook, unspecified, before_request, after_response,
  on_stream_chunk, on_http_request, on_tick, StreamEvent, HttpResponse, TickOutcome, Payload,
  AfterResponse, ChatResponse, HookInput, Action, HookResult,
}
use torana_plugin_sdk.RequestValidate.{validate_replacement}
use torana_plugin_sdk.Envelope.Closed.{Reflected, validate_closed}
use torana_plugin_sdk.Envelope.Closed.Inside.{Inside, Clean, validate_closed_iff}
use torana_plugin_sdk.Envelope.Stream.{validate_event, is_negative}
use torana_plugin_sdk.Envelope.Hooks.{
  EnvelopeError, wrap, hook_eq, input_hook, payload_present, validate_payload, validate_input,
  validate_input_for, action_hook, action_present, validate_events, validate_action,
  validate_result_for, is_no_action, validate_chat_response, validate_http_response,
  validate_tick_outcome,
}

-- A status from 200 to 599, and no body with 204, 205 or 304.
abbrev pub IsResponse : HttpResponse → Type 0
IsResponse x =
    (200 ≤ x.status)
    × (x.status ≤ 599)
    × ((x.status ≡ 204) ⊎ ((x.status ≡ 205) ⊎ (x.status ≡ 304)) → is_empty x.body ≡ true)

module _ (floats_fit : Bytes → Bool) where
  -- The payload is that of the hook, and what the contract asks of it.
  unfoldable pub InputFor : Hook → Payload → Type 0
  InputFor h (Payload.chat_request (holds r)) =
      (h ≡ before_request) × (validate_replacement (some r) ≡ ok tt)
  InputFor h (Payload.after_response_payload (holds a)) =
      (h ≡ after_response)
      × elim a.response [ none ↦ ⊥ | some r ↦ validate_chat_response floats_fit r ≡ ok tt ]
  InputFor h (Payload.stream_event (holds e)) =
      (h ≡ on_stream_chunk) × (validate_event (some e) ≡ ok tt)
  InputFor h (Payload.http_request (holds q)) = h ≡ on_http_request
  InputFor h (Payload.tick_request (holds t)) = h ≡ on_tick
  InputFor h _ = ⊥

  -- The action is one of the hook, and what the contract asks of it; no action suits every hook.
  unfoldable pub ActionFor : Hook → Action → Type 0
  ActionFor h Action.no_action = Unit
  ActionFor h (Action.replace_request (holds r)) =
      (h ≡ before_request) × (validate_replacement (some r) ≡ ok tt)
  ActionFor h (Action.replace_response (holds r)) =
      (h ≡ after_response) × (validate_chat_response floats_fit r ≡ ok tt)
  ActionFor h (Action.emit_events (holds es)) =
      (h ≡ on_stream_chunk) × (is_empty es ≡ false) × All (λ e. validate_event e ≡ ok tt) es
  ActionFor h (Action.suppress (holds s)) = h ≡ on_stream_chunk
  ActionFor h (Action.serve_http (holds r)) = (h ≡ on_http_request) × IsResponse r
  ActionFor h (Action.tick_outcome (holds t)) = (h ≡ on_tick) × (t.actions < 2 ^ 31)
  ActionFor h _ = ⊥

pub hook_eq_iff : (h k : Hook) → (hook_eq h k ≡ true) ↔ (k ≡ h)
unfolding hook_eq
hook_eq_iff h k = ground arith

pub wrap-eq-ok {κ} :
    {E : Type κ} (f : E → EnvelopeError) (r : Check E) → (wrap f r ≡ ok tt) ↔ (r ≡ ok tt)
wrap-eq-ok f (ok _) = (λ h. refl, λ h. refl)
wrap-eq-ok f (err e) = (λ h. absurd cc, λ h. absurd cc)

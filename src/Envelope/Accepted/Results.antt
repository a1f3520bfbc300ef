-- ===== src/Envelope/Accepted/Results.antt =====
-- `HookResult.ValidateFor` accepts a result for a hook exactly when the contract of the hook holds.
use torana_plugin_sdk.Prelude.{
  ◌<◌, ◌^◌, ◌>>◌, Bool, true, false, not, Bytes, List, [], ◌∷◌, Option, some, ◌≡◌, ◌↔◌, refl, arith,
  ok, Check, >>-eq-ok, refuse_if, refuse_if-eq-ok, is_empty, All, if◌then◌else◌,
}
use torana_plugin_sdk.Proto.Envelope.{
  holds, nil_wrapper, nil_message, Hook, before_request, after_response, on_stream_chunk,
  on_http_request, on_tick, StreamEvent, HttpResponse, TickOutcome, Action, HookResult,
}
use torana_plugin_sdk.RequestValidate.{validate_replacement}
use torana_plugin_sdk.Envelope.Stream.{validate_event}
use torana_plugin_sdk.Envelope.Hooks.{
  EnvelopeError, wrap, hook_eq, action_hook, action_present, validate_events, validate_action,
  validate_result_for, is_no_action, validate_http_response, validate_tick_outcome,
}
use torana_plugin_sdk.Envelope.Accepted.{ActionFor, IsResponse, hook_eq_iff, wrap-eq-ok}

module _ (floats_fit : Bytes → Bool) where
  events_iff :
      (es : List (Option StreamEvent))
      → (validate_events floats_fit es ≡ ok tt) ↔ All (λ e. validate_event e ≡ ok tt) es
  unfolding validate_events
  events_iff [] = (λ h. tt, λ h. refl)
  events_iff (e ∷ es) =
      let parts =
        >>-eq-ok (wrap EnvelopeError.event (validate_event e)) (validate_events floats_fit es) in
      let here = wrap-eq-ok EnvelopeError.event (validate_event e) in
      (
        λ h. (here.0 (parts.0 h).0, (events_iff es).0 (parts.0 h).1),
        λ q. parts.1 (here.1 q.0, (events_iff es).1 q.1),
      )

  http_iff : (x : HttpResponse) → (validate_http_response x ≡ ok tt) ↔ IsResponse x
  unfolding validate_http_response
  http_iff x = ground arith

  tick_iff : (t : TickOutcome) → (validate_tick_outcome t ≡ ok tt) ↔ (t.actions < 2 ^ 31)
  unfolding validate_tick_outcome
  tick_iff t = ground arith

  emit_iff :
      (es : List (Option StreamEvent))
      → (validate_action floats_fit (Action.emit_events (holds es)) ≡ ok tt)
        ↔ ((is_empty es ≡ false) × All (λ e. validate_event e ≡ ok tt) es)
  unfolding validate_action
  emit_iff es =
      let parts =
        >>-eq-ok (refuse_if (is_empty es) EnvelopeError.no_events)
          (validate_events floats_fit es) in
      let full = refuse_if-eq-ok (is_empty es) EnvelopeError.no_events in
      (
        λ h. (full.0 (parts.0 h).0, (events_iff es).0 (parts.0 h).1),
        λ q. parts.1 (full.1 q.0, (events_iff es).1 q.1),
      )

  -- What is checked of an action, one action at a time.
  action_iff :
      (h : Hook) (a : Action)
      → ((action_present a ≡ true)
          × (validate_action floats_fit a ≡ ok tt)
          × (hook_eq (action_hook a) h ≡ true))
        ↔ ((is_no_action floats_fit a ≡ false) × ActionFor floats_fit h a)
  unfolding action_hook action_present validate_action ActionFor is_no_action
  action_iff h Action.no_action = (λ q. absurd cc, λ q. absurd cc)
  action_iff h (Action.replace_request (holds r)) = (
    λ q. (
      refl,
      (
        (hook_eq_iff before_request h).0 q.2,
        (wrap-eq-ok EnvelopeError.request (validate_replacement (some r))).0 q.1,
      ),
    ),
    λ q. (
      refl,
      (wrap-eq-ok EnvelopeError.request (validate_replacement (some r))).1 q.1.1,
      (hook_eq_iff before_request h).1 q.1.0,
    ),
  )
  action_iff h (Action.replace_response (holds r)) = (
    λ q. (refl, ((hook_eq_iff after_response h).0 q.2, q.1)),
    λ q. (refl, q.1.1, (hook_eq_iff after_response h).1 q.1.0),
  )
  action_iff h (Action.emit_events (holds es)) = (
    λ q. (
      refl,
      ((hook_eq_iff on_stream_chunk h).0 q.2, ((emit_iff es).0 q.1).0, ((emit_iff es).0 q.1).1),
    ),
    λ q. (refl, (emit_iff es).1 (q.1.1, q.1.2), (hook_eq_iff on_stream_chunk h).1 q.1.0),
  )
  action_iff h (Action.suppress (holds x)) = (
    λ q. (refl, (hook_eq_iff on_stream_chunk h).0 q.2),
    λ q. (refl, refl, (hook_eq_iff on_stream_chunk h).1 q.1),
  )
  action_iff h (Action.serve_http (holds r)) = (
    λ q. (refl, ((hook_eq_iff on_http_request h).0 q.2, (http_iff r).0 q.1)),
    λ q. (refl, (http_iff r).1 q.1.1, (hook_eq_iff on_http_request h).1 q.1.0),
  )
  action_iff h (Action.tick_outcome (holds t)) = (
    λ q. (refl, ((hook_eq_iff on_tick h).0 q.2, (tick_iff t).0 q.1)),
    λ q. (refl, (tick_iff t).1 q.1.1, (hook_eq_iff on_tick h).1 q.1.0),
  )
  action_iff h (Action.replace_request nil_wrapper) = (λ q. absurd cc, λ q. absurd q.1)
  action_iff h (Action.replace_request nil_message) = (λ q. absurd cc, λ q. absurd q.1)
  action_iff h (Action.replace_response nil_wrapper) = (λ q. absurd cc, λ q. absurd q.1)
  action_iff h (Action.replace_response nil_message) = (λ q. absurd cc, λ q. absurd q.1)
  action_iff h (Action.emit_events nil_wrapper) = (λ q. absurd cc, λ q. absurd q.1)
  action_iff h (Action.emit_events nil_message) = (λ q. absurd cc, λ q. absurd q.1)
  action_iff h (Action.serve_http nil_wrapper) = (λ q. absurd cc, λ q. absurd q.1)
  action_iff h (Action.serve_http nil_message) = (λ q. absurd cc, λ q. absurd q.1)
  action_iff h (Action.tick_outcome nil_wrapper) = (λ q. absurd cc, λ q. absurd q.1)
  action_iff h (Action.tick_outcome nil_message) = (λ q. absurd cc, λ q. absurd q.1)
  action_iff h (Action.suppress nil_wrapper) = (λ q. absurd cc, λ q. absurd q.1)
  action_iff h (Action.suppress nil_message) = (λ q. absurd cc, λ q. absurd q.1)

  action_checks : Hook → Action → Check EnvelopeError
  action_checks h a =
      refuse_if (not (action_present a)) EnvelopeError.nil_action
      >> refuse_if (not (hook_eq (action_hook a) h)) EnvelopeError.wrong_action
      >> validate_action floats_fit a

  action_checks_iff :
      (h : Hook) (a : Action)
      → is_no_action floats_fit a ≡ false
      → (action_checks h a ≡ ok tt) ↔ ActionFor floats_fit h a
  unfolding action_checks
  action_checks_iff h a some_action =
      let facts = action_iff h a in
      (
        λ q. (facts.0 (ground (arith, q))).1,
        λ q. let p = facts.1 (some_action, q) in ground (arith, p.0, p.1, p.2),
      )

  any_action_iff :
      (h : Hook) (a : Action)
      → ((if is_no_action floats_fit a then ok tt else action_checks h a) ≡ ok tt)
        ↔ ActionFor floats_fit h a
  unfolding is_no_action ActionFor
  any_action_iff h Action.no_action = (λ q. tt, λ q. refl)
  any_action_iff h (Action.replace_request w) = action_checks_iff h (Action.replace_request w) refl
  any_action_iff h (Action.replace_response w) =
      action_checks_iff h (Action.replace_response w) refl
  any_action_iff h (Action.emit_events w) = action_checks_iff h (Action.emit_events w) refl
  any_action_iff h (Action.suppress w) = action_checks_iff h (Action.suppress w) refl
  any_action_iff h (Action.serve_http w) = action_checks_iff h (Action.serve_http w) refl
  any_action_iff h (Action.tick_outcome w) = action_checks_iff h (Action.tick_outcome w) refl

  -- A result is accepted for a hook exactly when it has no unknown field and either no action, or
  -- one that is present and answers that hook: a valid replacement request for before_request, a
  -- valid response for after_response, a suppression or at least one event, all valid, for
  -- on_stream_chunk, a response with a status from 200 to 599 and no body with 204, 205 or 304 for
  -- on_http_request, and a count of actions that is not negative for on_tick.
  pub accepted_result_iff :
      (h : Hook) (x : HookResult)
      → (validate_result_for floats_fit h (some x) ≡ ok tt)
        ↔ ((is_empty x.unknown_fields ≡ true) × ActionFor floats_fit h x.action)
  unfolding validate_result_for action_checks
  accepted_result_iff h x =
      let facts = any_action_iff h x.action in
      let parts =
        >>-eq-ok (refuse_if (not (is_empty x.unknown_fields)) EnvelopeError.unknown_action)
          (if is_no_action floats_fit x.action then ok tt else action_checks h x.action) in
      (
        λ q. (ground (arith, (parts.0 q).0), facts.0 (parts.0 q).1),
        λ q. parts.1 (ground (arith, q.0), facts.1 q.1),
      )

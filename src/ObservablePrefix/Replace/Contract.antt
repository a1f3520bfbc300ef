-- ===== src/ObservablePrefix/Replace/Contract.antt =====
-- What `ReplaceLastCacheBreakpoint` promises its callers.
use torana_plugin_sdk.Prelude.{
  true, false, Bytes, Option, none, some, ◌≡◌, refl, ap, sym, ◌∙◌, arith, Result, ok, err, bytes_eq,
  bytes_eq_iff, ◌⊎◌,
}
use torana_plugin_sdk.Proto.Request.{ChatRequest}
use torana_plugin_sdk.RequestValidate.{validate_replacement}
use torana_plugin_sdk.RequestValidate.Fields.{validate_json_field, required_object, FieldError}
use torana_plugin_sdk.RequestValidate.Blocks.{RequestError}
use torana_plugin_sdk.ObservablePrefix.{MarkerPos, last_cache_marker}
use torana_plugin_sdk.ObservablePrefix.Carriers.{carriers, last_cache_marker-last_or, last_or}
use torana_plugin_sdk.ObservablePrefix.Replace.{
  ReplaceError, marker_at, put_marker, replace_last_cache_breakpoint,
}
use torana_plugin_sdk.ObservablePrefix.Replace.Places.{last_cache_marker-carrier_at}
use torana_plugin_sdk.ObservablePrefix.Replace.Laws.{carriers-put_marker, marker_at-put_marker}
use torana_plugin_sdk.ObservablePrefix.Replace.Valid.{marker_not_empty}
use torana_plugin_sdk.ObservablePrefix.Replace.Kept.{put_marker-valid}

-- What a call that reports a change has done: the request was valid, the marker is a non-empty
-- JSON object, and the request is the old one with the marker of its last carrier set.
record Replaced (req : ChatRequest) (marker : Bytes) (out : ChatRequest) : Type 0 where
  pub place : MarkerPos
  pub last : last_cache_marker req ≡ some place
  pub differs : bytes_eq (marker_at place req) marker ≡ false
  pub written : out ≡ put_marker place marker req
  pub request_valid : validate_replacement (some req) ≡ ok tt
  pub marker_valid : validate_json_field marker required_object ≡ ok tt

replace-Replaced :
    (req : ChatRequest) (marker : Bytes) (out : ChatRequest)
    → replace_last_cache_breakpoint req marker ≡ (out, ok true)
    → Replaced req marker out
unfolding replace_last_cache_breakpoint
replace-Replaced req marker out h =
    go (validate_replacement (some req)) refl (validate_json_field marker required_object) refl
      (last_cache_marker req) refl
  where
    go :
        (v : Result RequestError (Unit {0}))
        → validate_replacement (some req) ≡ v
        → (w : Result FieldError (Unit {0})) → validate_json_field marker required_object ≡ w
        → (l : Option MarkerPos) → last_cache_marker req ≡ l
        → Replaced req marker out
    go (err e) p _ _ _ _ = absurd (ground arith)
    go (ok _) p (err e) q _ _ = absurd (ground arith)
    go (ok _) p (ok _) q none r = absurd (ground arith)
    go (ok _) p (ok _) q (some place) r = record {
      place = place;
      last = r;
      differs = ground arith;
      written = ground arith;
      request_valid = p;
      marker_valid = q;
    }

-- A refused call leaves the request as it was, and so does one that reports no change.
pub replace-unchanged :
    (req : ChatRequest) (marker : Bytes)
    → ((e : ReplaceError) × ((replace_last_cache_breakpoint req marker).1 ≡ err e))
      ⊎ ((replace_last_cache_breakpoint req marker).1 ≡ ok false)
    → (replace_last_cache_breakpoint req marker).0 ≡ req
unfolding replace_last_cache_breakpoint
replace-unchanged req marker h = ground arith

-- The marker that stands there already is no change.
replace_same :
    (p : MarkerPos) (marker : Bytes) (req : ChatRequest)
    → last_cache_marker req ≡ some p
    → marker_at p req ≡ marker
    → validate_replacement (some req) ≡ ok tt
    → validate_json_field marker required_object ≡ ok tt
    → replace_last_cache_breakpoint req marker ≡ (req, ok false)
unfolding replace_last_cache_breakpoint
replace_same p marker req l m v w = ground (arith, bytes_eq_iff (marker_at p req) marker)

-- A call that reports a change leaves every carrier of the request at its position, so that the
-- last one is the same; that one holds the new marker; the request is still valid; and the same
-- call again reports no change.
pub replace_changed :
    (req : ChatRequest) (marker : Bytes) (out : ChatRequest)
    → replace_last_cache_breakpoint req marker ≡ (out, ok true)
    → (carriers out ≡ carriers req)
      × ((p : MarkerPos) × (last_cache_marker out ≡ some p)
          × (last_cache_marker req ≡ some p)
          × (marker_at p out ≡ marker))
      × (validate_replacement (some out) ≡ ok tt)
      × (replace_last_cache_breakpoint out marker ≡ (out, ok false))
replace_changed req marker out h =
    let r = replace-Replaced req marker out h in
    let p = r.place in
    let found = last_cache_marker-carrier_at req p r.last in
    let kept : carriers out ≡ carriers req =
      ap carriers r.written
      ∙ carriers-put_marker p marker req (marker_not_empty marker r.marker_valid) found in
    let last : last_cache_marker out ≡ some p =
      last_cache_marker-last_or out
      ∙ ap (last_or none) kept
      ∙ sym (last_cache_marker-last_or req)
      ∙ r.last in
    let reads : marker_at p out ≡ marker =
      ap (marker_at p) r.written ∙ marker_at-put_marker p marker req found in
    let valid : validate_replacement (some out) ≡ ok tt =
      ap (λ x. validate_replacement (some x)) r.written
      ∙ put_marker-valid marker r.marker_valid p req r.request_valid in
    (
      kept,
      (p, last, r.last, reads),
      valid,
      replace_same p marker out last reads valid r.marker_valid,
    )

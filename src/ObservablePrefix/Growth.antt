-- ===== src/ObservablePrefix/Growth.antt =====
-- Messages that come after the last carrier, and the whole result of `RequestObservablePrefix`.
use mathlib.Core.List.{append-nil, append_assoc}
use mathlib.Core.Path.{ap₂}
use torana_plugin_sdk.Prelude.{
  ℕ, zero, suc, ◌+◌, ◌<◌, Bool, Bytes, List, [], ◌∷◌, ◌++◌, Option, none, some, ◌≡◌, ◌≢◌, refl, ap,
  sym, ◌∙◌, arith, length, is_empty, not, Result, ok,
}
use torana_plugin_sdk.Proto.Request.{Message, ChatRequest}
use torana_plugin_sdk.RequestValidate.{validate_replacement}
use torana_plugin_sdk.ObservablePrefix.{
  last_cache_marker, update_at, cut_messages, cut_at, projection, blocks_of,
  request_observable_prefix,
}
use torana_plugin_sdk.ObservablePrefix.Carriers.{
  carriers, tool_carriers, message_carriers, block_carriers, last_or, last_cache_marker-last_or,
  is_some-last_or,
}
use torana_plugin_sdk.ObservablePrefix.Projection.{
  Ending, in_messages, in_tools, nowhere, ending, cleared, cut_at-place, last-in_messages,
  last-in_tools, last-cleared,
}

message_carriers-append :
    (i : ℕ) (ms ns : List (Option Message))
    → message_carriers i (ms ++ ns) ≡ message_carriers i ms ++ message_carriers (i + length ms) ns
unfolding message_carriers
message_carriers-append i [] ns = ap (λ x. message_carriers x ns) (omega arith)
message_carriers-append i (m ∷ ms) ns =
    ap (λ l. block_carriers i 0 (blocks_of m) ++ l)
      (message_carriers-append (i + 1) ms ns
        ∙ ap (λ x. message_carriers (i + 1) ms ++ message_carriers x ns) (omega arith))
    ∙ sym (append_assoc (block_carriers i 0 (blocks_of m)) (message_carriers (i + 1) ms) _)

cut_messages-append :
    (i j : ℕ) (o : Option ℕ) (ms ns : List (Option Message))
    → i < length ms
    → cut_messages i j o (ms ++ ns) ≡ cut_messages i j o ms
unfolding cut_messages update_at
cut_messages-append i j o [] ns h = elim h [ ]
cut_messages-append zero j o (m ∷ ms) ns h = refl
cut_messages-append (suc i) j o (m ∷ ms) ns h =
    ap (λ l. m ∷ l) (cut_messages-append i j o ms ns (omega arith))

abbrev pub grown : ChatRequest → List (Option Message) → ChatRequest
grown req ns = record req { messages = req.messages ++ ns }

carriers-grown :
    (req : ChatRequest) (ns : List (Option Message))
    → message_carriers (length req.messages) ns ≡ []
    → carriers (grown req ns) ≡ carriers req
unfolding carriers
carriers-grown req ns h =
    ap (λ l. tool_carriers 0 req.tools ++ l)
      (message_carriers-append 0 req.messages ns
        ∙ ap (λ l. message_carriers 0 req.messages ++ l)
            (ap (λ x. message_carriers x ns) (omega arith) ∙ h)
        ∙ append-nil _)

last-grown :
    (req : ChatRequest) (ns : List (Option Message))
    → message_carriers (length req.messages) ns ≡ []
    → last_cache_marker (grown req ns) ≡ last_cache_marker req
last-grown req ns h =
    last_cache_marker-last_or (grown req ns)
    ∙ ap (last_or none) (carriers-grown req ns h)
    ∙ sym (last_cache_marker-last_or req)

-- Once a request has a carrier, messages without one that are added behind it do not change the
-- projection, and so not the cached prefix.
pub projection-grown :
    (req : ChatRequest) (ns : List (Option Message))
    → message_carriers (length req.messages) ns ≡ []
    → carriers req ≢ []
    → projection (grown req ns) ≡ projection req
unfolding projection cut_at carriers
projection-grown req ns h c =
    ap (λ l. cut_at l (cleared (grown req ns)))
      (last-cleared (grown req ns) ∙ last-grown req ns h ∙ sym (last-cleared req))
    ∙ same (ending (cleared req))
  where
    same :
        Ending (cleared req)
        → cut_at (last_cache_marker (cleared req)) (cleared (grown req ns))
          ≡ cut_at (last_cache_marker (cleared req)) (cleared req)
    same (in_messages s) =
        ap (λ l. cut_at l (cleared (grown req ns))) (last-in_messages (cleared req) s)
        ∙ cut_at-place s.at s.block s.within (cleared (grown req ns))
        ∙ ap (λ ms. record (cleared req) { messages = ms })
            (cut_messages-append s.at s.block s.within req.messages ns s.inside)
        ∙ sym (cut_at-place s.at s.block s.within (cleared req))
        ∙ sym (ap (λ l. cut_at l (cleared req)) (last-in_messages (cleared req) s))
    same (in_tools m s) =
        ap (λ l. cut_at l (cleared (grown req ns))) (last-in_tools (cleared req) s m)
        ∙ sym (ap (λ l. cut_at l (cleared req)) (last-in_tools (cleared req) s m))
    same (nowhere m t) = absurd (c (ap₂ (λ x y. x ++ y) t m))

module _ {E : Type 0} (marshal : ChatRequest → Result E Bytes) where
  -- A result is the serialization of the projection of a valid request, with the claim that a
  -- carrier exists exactly when the request has one.
  pub request_observable_prefix-eq-ok :
      (req : ChatRequest) (prefix : Bytes) (has : Bool)
      → request_observable_prefix marshal req ≡ ok (prefix, has)
      → (validate_replacement (some req) ≡ ok tt)
        × (marshal (projection req) ≡ ok prefix)
        × (has ≡ not (is_empty (carriers req)))
  unfolding request_observable_prefix
  request_observable_prefix-eq-ok req prefix has h =
      ground
        (arith, last-cleared req, last_cache_marker-last_or req, is_some-last_or (carriers req))

-- ===== src/StreamAssembly/Completion.antt =====
-- What a completed tool call and an emitted delta are, said by their fields.
use torana_plugin_sdk.Prelude.{ℕ, true, Bytes, Option, none, [], some, ◌≡◌, ◌≢◌, refl, ap}
use torana_plugin_sdk.Proto.Request.{InvocationKind, function, freeform, other}
use torana_plugin_sdk.Proto.Envelope.{holds, ToolCallRef, ToolCallDelta, StartBlock, StreamEvent}
use torana_plugin_sdk.StreamAssembly.Feed.{
  AssembledCall, FeedResult, completes, assembled, call_arguments, call_input, emitted_delta,
}

abbrev pub start_event : ℕ → ToolCallRef → StreamEvent
start_event i ref =
    StreamEvent.content_block_start
      (holds (record { index = i; block = StartBlock.tool_call (holds ref) }))

abbrev pub stop_event : ℕ → StreamEvent
stop_event i = StreamEvent.content_block_stop (holds (record { index = i }))

-- The payload of a call or a delta stands in the field of its kind, and the other field is empty.
pub record IsPayload (kind : InvocationKind) (input : Option Bytes) (arguments payload : Bytes)
    : Type 0 where
  pub if_freeform : kind ≡ freeform → (input ≡ some payload) × (arguments ≡ [])
  pub if_other : kind ≢ freeform → (input ≡ none) × (arguments ≡ payload)

-- The call has the ToolCallRef of a block and a payload.
pub record IsCallOf (i : ℕ) (ref : ToolCallRef) (payload : Bytes) (call : AssembledCall)
    : Type 0 where
  pub same_index : call.index ≡ i
  pub same_id : call.id ≡ ref.id
  pub same_name : call.name ≡ ref.name
  pub same_signature : call.signature ≡ ref.signature
  pub same_kind : call.invocation_kind ≡ ref.invocation_kind
  pub same_ref : call.ref ≡ some ref
  pub has_payload : IsPayload ref.invocation_kind call.input_text call.arguments payload

-- The result holds back the event and completes such a call.
pub record IsCompletion {E : Type 0} (i : ℕ) (ref : ToolCallRef) (payload : Bytes)
    (r : FeedResult E) : Type 0 where
  pub call : AssembledCall
  pub complete : r.complete ≡ some call
  pub held_back : r.suppress ≡ true
  pub no_event : r.emit ≡ []
  pub no_failure : r.failure ≡ none
  pub is_call : IsCallOf i ref payload call

assembled-IsPayload :
    (kind : InvocationKind) (payload : Bytes)
    → IsPayload kind (call_input kind payload) (call_arguments kind payload) payload
unfolding call_input call_arguments
assembled-IsPayload function payload = record {
  if_freeform = λ h. absurd cc;
  if_other = λ h. (refl, refl);
}
assembled-IsPayload freeform payload = record {
  if_freeform = λ h. (refl, refl);
  if_other = λ h. absurd (h refl);
}
assembled-IsPayload (other n) payload = record {
  if_freeform = λ h. absurd cc;
  if_other = λ h. (refl, refl);
}

pub assembled-IsCallOf :
    (i : ℕ) (ref : ToolCallRef) (payload : Bytes) → IsCallOf i ref payload (assembled i ref payload)
unfolding assembled
assembled-IsCallOf i ref payload = record {
  same_index = refl;
  same_id = refl;
  same_name = refl;
  same_signature = refl;
  same_kind = refl;
  same_ref = refl;
  has_payload = assembled-IsPayload ref.invocation_kind payload;
}

pub assembled-IsCompletion :
    {E : Type 0} (i : ℕ) (ref : ToolCallRef) (payload : Bytes) (r : FeedResult E)
    → r ≡ completes (assembled i ref payload)
    → IsCompletion i ref payload r
assembled-IsCompletion i ref payload r h = record {
  call = assembled i ref payload;
  complete = ap (λ r. r.complete) h;
  held_back = ap (λ r. r.suppress) h;
  no_event = ap (λ r. r.emit) h;
  no_failure = ap (λ r. r.failure) h;
  is_call = assembled-IsCallOf i ref payload;
}

-- A payload determines the two fields that it stands in.
IsPayload-fields :
    (kind : InvocationKind) (input : Option Bytes) (arguments payload : Bytes)
    → IsPayload kind input arguments payload
    → (input ≡ call_input kind payload) × (arguments ≡ call_arguments kind payload)
unfolding call_input call_arguments
IsPayload-fields function input arguments payload p = p.if_other (λ h. cc)
IsPayload-fields freeform input arguments payload p = p.if_freeform refl
IsPayload-fields (other n) input arguments payload p = p.if_other (λ h. cc)

-- The fields determine the call.
pub IsCallOf-assembled :
    (i : ℕ) (ref : ToolCallRef) (payload : Bytes) (call : AssembledCall)
    → IsCallOf i ref payload call
    → call ≡ assembled i ref payload
unfolding assembled
IsCallOf-assembled i ref payload call p =
    let (same_input, same_arguments) =
      IsPayload-fields ref.invocation_kind call.input_text call.arguments payload p.has_payload in
    cc (
      p.same_index, p.same_id, p.same_name, p.same_signature, p.same_kind, p.same_ref, same_input,
      same_arguments,
    )

-- A delta for a block with a payload.
pub record IsDeltaOf (i : ℕ) (kind : InvocationKind) (payload : Bytes) (d : ToolCallDelta)
    : Type 0 where
  pub same_index : d.index ≡ i
  pub has_payload : IsPayload kind d.input_text_delta d.arguments_delta payload

pub emitted_delta-IsDeltaOf :
    (i : ℕ) (kind : InvocationKind) (payload : Bytes)
    → IsDeltaOf i kind payload (emitted_delta kind i payload)
unfolding emitted_delta call_input call_arguments
emitted_delta-IsDeltaOf i function payload = record {
  same_index = refl;
  has_payload = assembled-IsPayload function payload;
}
emitted_delta-IsDeltaOf i freeform payload = record {
  same_index = refl;
  has_payload = assembled-IsPayload freeform payload;
}
emitted_delta-IsDeltaOf i (other n) payload = record {
  same_index = refl;
  has_payload = assembled-IsPayload (other n) payload;
}

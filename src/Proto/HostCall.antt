-- ===== src/Proto/HostCall.antt =====
-- The host-call messages of pb/v1/torana.pb.go, with the fields that their validators read. A
-- float64 is its IEEE 754 pattern and an int32 its two's complement pattern.
use torana_plugin_sdk.Prelude.{ℕ, Bool, Bytes, List, Option}
use torana_plugin_sdk.Proto.Request.{Message, ToolDef, OutputFormat}
use torana_plugin_sdk.Proto.Envelope.{ResponseMessage}

pub record HostError : Type 0 where
  pub code : ℕ
  pub message : Bytes

-- The oneof of HostCallResult: no arm, a typed-nil wrapper, or an arm.
pub data CallResult : Type 0 where
  no_result nil_value nil_error : CallResult
  value : Bytes → CallResult
  error : Option HostError → CallResult

pub record HostCallResult : Type 0 where
  pub result : CallResult
  pub unknown_fields : Bytes

pub record BlockRequestArgs : Type 0 where
  pub status : ℕ
  pub code : Bytes

pub record RouteRequestArgs : Type 0 where
  pub provider : Bytes
  pub model : Bytes
  pub effort : ℕ

pub record SuggestAction : Type 0 where
  pub id : Bytes
  pub label : Bytes

pub record SuggestArgs : Type 0 where
  pub kind : Bytes
  pub dedupe_key : Bytes
  pub title : Bytes
  pub body : Bytes
  pub actions : List (Option SuggestAction)
  pub cost_usd : Option ℕ
  pub harness_target_model : Option Bytes
  pub expires_after_user_turns : ℕ

pub record HttpHeader : Type 0 where
  pub name : Bytes
  pub values : List Bytes

pub record OutboundHttpRequestArgs : Type 0 where
  pub endpoint : Bytes
  pub method : Bytes
  pub path : Bytes
  pub headers : List (Option HttpHeader)

pub record OutboundHttpResponse : Type 0 where
  pub status : ℕ
  pub headers : List (Option HttpHeader)

pub record CacheSetArgs : Type 0 where
  pub key : Bytes
  pub value : Bytes
  pub ttl_ms : Option ℕ

pub record ModelCompleteArgs : Type 0 where
  pub service : Bytes
  pub messages : List (Option Message)
  pub max_tokens : Option ℕ
  pub temperature : Option ℕ
  pub tools : List (Option ToolDef)
  pub output_format : Option OutputFormat
  pub unknown_fields : Bytes

-- The counts are int32 patterns, below 2 ^ 32.
pub record Usage : Type 0 where
  pub input_tokens : ℕ
  pub output_tokens : ℕ
  pub cache_read_tokens : ℕ
  pub cache_write_tokens : ℕ
  pub unknown_fields : Bytes

pub record ModelCompleteResult : Type 0 where
  pub message : Option ResponseMessage
  pub reported_model : Bytes
  pub finish_reason : Bytes
  pub usage : Option Usage
  pub unknown_fields : Bytes

pub record ResourceGetArgs : Type 0 where
  pub resource : Bytes
  pub unknown_fields : Bytes

pub record ModelPricing : Type 0 where
  pub input_usd_per_mtok : Option ℕ
  pub output_usd_per_mtok : Option ℕ
  pub cache_read_usd_per_mtok : Option ℕ
  pub cache_write_usd_per_mtok : Option ℕ
  pub unknown_fields : Bytes

pub record ModelCapabilitiesArgs : Type 0 where
  pub provider : Bytes
  pub model : Bytes

pub record ModelCapabilities : Type 0 where
  pub effort_levels : List ℕ
  pub context_window_tokens : Option ℕ
  pub format : Bytes
  pub pricing : Option ModelPricing

pub record PromptCacheTier : Type 0 where
  pub ttl_seconds : ℕ
  pub write_multiplier : Option ℕ
  pub marker_json : Bytes
  pub unknown_fields : Bytes

pub record PromptCachePolicy : Type 0 where
  pub cache_read_usd_per_mtok : Option ℕ
  pub cache_write_usd_per_mtok : Option ℕ
  pub refresh_on_read : Bool
  pub tiers : List (Option PromptCacheTier)
  pub warm_interval_seconds : Option ℕ
  pub unknown_fields : Bytes

pub record SyntheticResponse : Type 0 where
  pub message : Option ResponseMessage
  pub finish_reason : Bytes

pub record StateValue : Type 0 where
  pub value : Bytes
  pub version : Bytes
  pub unknown_fields : Bytes

pub record StateEntry : Type 0 where
  pub key : Bytes
  pub value : Option StateValue
  pub unknown_fields : Bytes

pub record StateScanResult : Type 0 where
  pub entries : List (Option StateEntry)
  pub next_cursor : Bytes
  pub unknown_fields : Bytes

pub record StateCompareAndSetArgs : Type 0 where
  pub key : Bytes
  pub expected_version : Option Bytes
  pub value : Bytes
  pub unknown_fields : Bytes

pub record StateCompareAndDeleteArgs : Type 0 where
  pub key : Bytes
  pub expected_version : Bytes
  pub unknown_fields : Bytes

pub record StateMutationResult : Type 0 where
  pub applied : Bool
  pub version : Option Bytes
  pub unknown_fields : Bytes

pub record StateScanArgs : Type 0 where
  pub prefix : Bytes
  pub cursor : Bytes
  pub limit : ℕ
  pub unknown_fields : Bytes

pub record ResourceInfoArgs : Type 0 where
  pub kind : Bytes
  pub name : Bytes
  pub unknown_fields : Bytes

pub record ResourceInfo : Type 0 where
  pub kind : Bytes
  pub name : Bytes
  pub operations : List Bytes
  pub unknown_fields : Bytes

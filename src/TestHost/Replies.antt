-- ===== src/TestHost/Replies.antt =====
-- What a command of the test host answers: the HostCallResult frame before its serialization, where
-- a value is raw bytes or a result message.
use torana_plugin_sdk.Prelude.{Bytes, List, Check, ok, err}
use torana_plugin_sdk.Proto.HostCall.{StateValue, StateMutationResult, StateScanResult}
use torana_plugin_sdk.HostCall.Names.{HostCallError}

-- The codes that the test host uses; the message of an error is left out.
pub data ErrorCode : Type 0 where
  invalid_argument not_configured not_found : ErrorCode

pub data Reply : Type 0 where
  value : Bytes → Reply
  state_value : StateValue → Reply
  mutation : StateMutationResult → Reply
  page : StateScanResult → Reply
  names : List Bytes → Reply
  error : ErrorCode → Reply

-- `if err := a.Validate(); err != nil { return hostCallResultError(INVALID_ARGUMENT, …) }`
unfoldable pub guarded {ℓ} : {S : Type ℓ} → Check HostCallError → S → S × Reply → S × Reply
guarded (ok _) s k = k
guarded (err e) s k = (s, error invalid_argument)

-- ===== src/Envelope.antt =====
-- pb/v1/validate.go: the validation of what crosses the guest boundary. An error of the model
-- names the rule that was broken. Two parts are parameters: `reflect`, the view of a message that
-- protobuf reflection gives (`Envelope.Closed`), and `floats_fit`, whether every number of a JSON
-- text is in the range of a float64, which `json.Unmarshal` into an `any` asks of it.
pub mod Closed
pub mod Stream
pub mod Hooks
pub mod Dispatch
pub mod Accepted

-- ===== src/Proto.antt =====
-- pb/v1/torana.pb.go: the protobuf messages that the modelled code reads and writes.
-- A Go pointer that may be nil is an `Option`; a oneof interface is a data type whose `no_arm` is
-- the nil interface and whose `typed_nil` is a nil wrapper pointer; `string` and `[]byte` fields
-- are byte lists; `unknown_fields` is what `GetUnknown` returns.
pub mod Request
pub mod Envelope
pub mod HostCall

-- ===== src/HostCall.antt =====
-- pb/v1/hostcall_validate.go: what the arguments and results of host calls must look like, with the
-- state and resource messages of pb/v1/foundation_validate.go.
pub mod Names
pub mod Headers
pub mod Policy
pub mod Args
pub mod State
pub mod Paths
pub mod Unique
pub mod CachePolicy

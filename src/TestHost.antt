-- ===== src/TestHost.antt =====
-- sdktest/sdktest.go: the host that a plugin's tests run against.
pub mod Maps
pub mod Replies
pub mod Store
pub mod Cache
pub mod Host
pub mod History

-- ===== src/Envelope/Dispatch.antt =====
-- What the events of an accepted hook result are to the host.
use torana_plugin_sdk.Prelude.{Bool, true, false, not, ◌≡◌, arith}

not-false : (b : Bool) → not b ≡ false → b ≡ true
not-false b e = ground arith

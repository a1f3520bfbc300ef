-- ===== src/GoStd.antt =====
-- The parts of Go's standard library that the modelled code calls: unicode/utf8, strconv.Itoa and
-- the syntax that encoding/json accepts.
pub mod Utf8
pub mod Json
pub mod Decimal
pub mod Strings
pub mod Order
mod Tests

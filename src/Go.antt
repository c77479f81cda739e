-- ===== src/Go.antt =====
-- What the worker uses of Go's standard library: strings, decimal numbers, host and port
-- pairs, and slash-separated paths.
pub mod Text
pub mod Int
pub mod Decimal
pub mod Net
pub mod Ip
pub mod Json
pub mod Path
pub mod Sort

-- ===== src/Go.antt =====
-- What the program uses of Go's standard library.
pub mod Reader
pub mod Runtime
pub mod Unicode
pub mod Text
pub mod Format
pub mod Path

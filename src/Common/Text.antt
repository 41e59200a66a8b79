-- ===== src/Common/Text.antt =====
-- Go strings as lists of code points, with the laws of `strings.Split` and `strings.Join`.
mod Base
pub mod Split
pub mod Numbers
pub mod Bytes
unfoldable pub use Base.*

-- ===== src/Base/Text.antt =====
-- Go strings: sequences of bytes, with the functions of package strings that the code calls.
mod Defs
mod Laws
mod Cuts
unfoldable pub use Defs.*
pub use Laws.*
pub use Cuts.*

-- ===== src/Exec.antt =====
-- Exceptions and shared state: the methods, and the rules for what they keep.
mod Defs
mod Rules
unfoldable pub use Defs.*
pub use Rules.*

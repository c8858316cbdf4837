-- ===== src/Exec.antt =====
-- Go's calling convention, and its laws.
mod Defs
mod Laws
unfoldable pub use Defs.*
pub use Laws.*

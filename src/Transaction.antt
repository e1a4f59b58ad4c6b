-- ===== src/Transaction.antt =====
-- src/reader/transaction.ts: packages from ledger data, and the placement check.
mod Logged
mod Activity
mod Events
mod Placement
mod Verify
pub mod Segments
unfoldable pub use Logged.*
unfoldable pub use Activity.*
unfoldable pub use Events.*
unfoldable pub use Placement.*
unfoldable pub use Verify.*

-- ===== src/Protocol.antt =====
-- internal/protocol/messages.go: the messages between devices, the hub and viewers, and how their
-- JSON forms are read. `Types`, `Shapes` and `Reports` are passed on, `Validate` has
-- `ValidateEnvelope`, and the other children prove what it lets pass.
pub mod Validate
pub mod Accepted
pub mod Alarms
pub mod Kinds
pub mod Events
pub mod Merging
pub mod Envelopes
mod Tests
mod Types
mod Shapes
mod Reports
pub use Types.*
unfoldable pub use Shapes.*
unfoldable pub use Reports.*

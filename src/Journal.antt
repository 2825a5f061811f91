-- ===== src/Journal.antt =====
-- src/journal.ts: the journal of contract state changes.
pub mod Json
pub mod Pointer
pub mod Index
pub mod Same
pub mod Unpack
pub mod Shapes
pub mod Turtledash
pub mod Diff
pub mod Apply
pub mod RoundTrip
pub mod Redact
pub mod Log
pub mod Config
pub mod Record
mod Tests

-- ===== src/Journal/RoundTrip.antt =====
-- src/journal.ts: applying the diff of two JSON values to the first gives the second.
mod Inner
mod Arrays
mod Objects
mod Rounds
pub mod Main
pub mod Fixed

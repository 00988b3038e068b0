-- ===== src/Bodies.antt =====
-- The bodies of a connection together: what `_bodies`, `_queued_body_size` and `_responses` of
-- `class Connection` (src/ngh2/_core.pyx) keep in step over every callback and method.
pub mod Ledger
pub mod Callbacks
pub mod Runs
pub mod Steady
pub mod Transfers
pub mod Sends
pub mod Opens
pub mod Sequences

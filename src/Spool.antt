-- ===== src/Spool.antt =====
-- internal/observer/spool: the durable write-ahead log of captured observations.
pub mod Bytes
pub mod Checks
pub mod Frame
pub mod Sealed
pub mod Sidecar
pub mod AtomicWrite
pub mod Ack
pub mod Segment
pub mod Recover
pub mod Reserves
pub mod Compact
pub mod Capacity

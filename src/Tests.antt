-- ===== src/Tests.antt =====
-- The theorems at concrete inputs, with toy checksums of the right sizes.
mod Data
mod Frames
mod Acks
mod Recovery
mod Ledger
mod Space
mod Guard
mod Runs
mod Uploads
mod Batches
mod Consent
mod Wrapper

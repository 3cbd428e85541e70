-- ===== src/Upload.antt =====
-- internal/observer/upload: batches of observations from the spool to the server.
pub mod Retry
pub mod Batch
pub mod Store

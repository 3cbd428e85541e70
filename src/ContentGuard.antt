-- ===== src/ContentGuard.antt =====
-- internal/observer/contentguard: the refusal gate of the content lane.
pub mod Fnmatch
pub mod Screen

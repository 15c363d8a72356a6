-- ===== src/Nixstore.antt =====
-- internal/nixstore: the names and texts that nix-store prints and reads. The children model its parts.
pub mod Base32
pub mod Lines
pub mod Registration
pub mod PathInfo
pub mod Reconcile
pub mod StorePath

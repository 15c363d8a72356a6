-- ===== src/Engine.antt =====
-- engine/engine.go. The children model the file from top to bottom; the modules below them hold lemmas.
pub mod Defs
pub mod Read
pub mod Signature
pub mod Container
pub mod Fixup
pub mod Walk
pub mod Verify

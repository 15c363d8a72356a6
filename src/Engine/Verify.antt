-- ===== src/Engine/Verify.antt =====
-- engine/engine.go: what a valid signature is, independently of the loops of `fixupSlice`, and how the
-- code relates to that.
pub mod Spec
pub mod Pages
pub mod Directory
pub mod Signature
pub mod Slice
pub mod Check
pub mod Repair

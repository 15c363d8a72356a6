-- ===== src/Doctor.antt =====
-- internal/doctor/doctor.go. The children model its parts.
pub mod Undo
pub mod Plan
pub mod Scan
pub mod Pool
pub mod Flags
pub mod Traverse
pub mod Disk
pub mod Files
pub mod JournalFile
pub mod Run
pub mod Lock
pub mod Command

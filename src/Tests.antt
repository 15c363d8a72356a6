-- ===== src/Tests.antt =====
-- Small Mach-O files, in the shape that internal/machofixture builds, runs of the model on them, and
-- the theorems at these files.
mod Fixtures
mod Engine
mod Doctor
mod Commands
mod Scanning
mod Nixstore
mod Programs
mod Undoing
mod Running
mod Exiting
mod Checking
mod Tracking
mod Theorems

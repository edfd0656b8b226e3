-- ===== src/Shells.antt =====
-- app/shells: what a shell's output goes through, and the shell itself.
pub mod Buffer
pub mod Framing
pub mod Redact
pub mod Script
pub mod Log
pub mod Shell

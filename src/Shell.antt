-- ===== src/Shell.antt =====
-- The terminal of OSC/boot/efi_main.c: its state, the commands, and the loops that run them.
pub mod State
pub mod Run
pub mod Files
pub mod Alone
pub mod Commands
pub mod Passwords
pub mod Programs
pub mod Replies
pub mod Restart
pub mod Execute
pub mod Session
pub mod Kept
pub mod Lines
pub mod Users
pub mod Writing
pub mod Drives
pub mod Welcome
pub mod Loops
pub mod Scripts
pub mod Dispatch
pub mod Examples
mod UserExamples
mod FileExamples

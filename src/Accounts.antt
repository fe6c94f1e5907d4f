-- ===== src/Accounts.antt =====
-- kernel/drivers/accounts.c: the user table of the loader, its file and the signed-in user.
pub mod Image
pub mod State
pub mod Directory
pub mod Valid
pub mod Requests
pub mod Restart
pub mod Refine
pub mod Names
pub mod Invariant
pub mod Session
pub mod SignIn
pub mod Persist
pub mod Start
pub mod Examples

-- ===== src/Ctaphid.antt =====
-- src/ctaphid.rs: the CTAPHID channels of the device and the commands that run on them.
pub mod Types
pub mod Env
pub mod Reply
pub mod Context
pub mod Commands
pub mod U2f
pub mod Channel
pub mod Effects
pub mod Parser

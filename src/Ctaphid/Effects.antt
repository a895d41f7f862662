-- ===== src/Ctaphid/Effects.antt =====
-- Postconditions of actions, one rule for each way to build an action of src/ctaphid.rs.
pub mod Rules
pub mod Answers
pub mod Commands
pub mod U2f
pub mod Packets
pub mod Consent

-- ===== src/Roster.antt =====
-- crates/hrc-core/src/roster.rs: replaying the control log into membership. The state and the
-- operations come first, then what is proved of them.
pub mod State
pub mod Admission
pub mod Apply
pub mod Certified
pub mod Invariant
pub mod Preserves
pub mod Removal
pub mod WellFormed
pub mod Accepted
pub mod History
pub mod Settled
pub mod Revoked
pub mod Authority
pub mod Chain
pub mod Invites
pub mod Refusal
pub mod Toy
mod Examples

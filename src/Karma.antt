-- ===== src/Karma.antt =====
-- argentum.py: actions, their attestations, karma, and the ways an action is contested.
pub mod Store
pub mod Wisdom
pub mod Actions
pub mod Attest
pub mod Contest
pub mod Steps
pub mod Weight
pub mod Invariant
pub mod Calls
pub mod Slash
pub mod Settled
pub mod Stays
pub mod Once
pub mod Dispute
pub mod Overlap
mod Tests

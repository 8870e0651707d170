-- ===== src/Mycelium.antt =====
-- mycelium_trails.py: the trail store and the prepaid accounts beside it; and the poller of anchors.
pub mod Store
pub mod Trails
pub mod Payg
pub mod Chain
pub mod Anchor

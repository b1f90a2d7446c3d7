-- ===== src/Iso.antt =====
-- internal/isoimage: what an ISO image is made of.
pub mod Image
pub mod Boots

-- ===== src/Pecoff.antt =====
-- internal/secureboot/pecoff.go, and `embedWinCertificate` of internal/secureboot/authenticode.go:
-- the offsets of a PE image, its checksum, its Authenticode digest, new sections and signatures.
pub mod Layout
pub mod Checksum
pub mod Digest
pub mod Signature
pub mod Section
pub mod Panics
pub mod Placement

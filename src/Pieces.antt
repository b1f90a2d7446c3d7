-- ===== src/Pieces.antt =====
-- internal/pieces/pieces.go and sign.go: the prebuilt pieces of an image, and the checks they pass.
pub mod Hashes
pub mod World
pub mod Resolve
pub mod Trust
pub mod Signed
pub mod Firmware

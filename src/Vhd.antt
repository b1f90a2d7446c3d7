-- ===== src/Vhd.antt =====
-- cmd/cnimbus/run_vhd.go and run_vmdk.go: disk images for Hyper-V and VMware from a raw image.
pub mod Geometry
pub mod Footer
pub mod Vmdk

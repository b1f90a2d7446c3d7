-- ===== src/Examples/Iso.antt =====
-- Runs of internal/isoimage: an image for each kind of machine, and an EFI payload that is too
-- large.
use cnimbus.Common.{[], err, ok, refl, ◌∷◌, ◌≡◌}
use cnimbus.Common.Text.{codes}
use cnimbus.Iso.Boots.{Boots, Ends, write_iso-Boots}
use cnimbus.Iso.Image.{
  IsoImage, IsoPlan, bios_entry, efi_entry, efi_image_size, efi_load_blocks, efi_payload_too_large,
  work, workspace_files, write_iso,
}

abbrev small_iso : IsoImage
small_iso = record {
  volume_label = [];
  iso_arch = [];
  isolinux_bin = 1 ∷ [];
  ldlinux_c32 = 2 ∷ [];
  isolinux_cfg = 3 ∷ [];
  vmlinuz = 4 ∷ 5 ∷ [];
  initramfs = 6 ∷ [];
  metadata = 7 ∷ [];
  squashfs = 8 ∷ [];
}

abbrev small_plan : IsoPlan
small_plan = record {
  label = codes "CNIMBUS";
  work_files =
      work (codes "ISOLINUX/ISOLINUX.BIN") (1 ∷ [])
      ∷ work (codes "ISOLINUX/LDLINUX.C32") (2 ∷ [])
      ∷ work (codes "ISOLINUX/ISOLINUX.CFG") (3 ∷ [])
      ∷ work (codes "SQUASHFS.IMG") (8 ∷ [])
      ∷ work (codes "CNIMBUS.CFG") (7 ∷ [])
      ∷ work (codes "EFI/BOOT/BOOTX64.EFI") (4 ∷ 5 ∷ [])
      ∷ work (codes "EFI/BOOT/INITRD.IMG") (6 ∷ [])
      ∷ work (codes "EFIBOOT.IMG") (9 ∷ [])
      ∷ [];
  boot_catalog = codes "/ISOLINUX/BOOT.CAT";
  boot_entries = bios_entry ∷ efi_entry 16385 ∷ [];
}

small_iso_made : write_iso small_iso (9 ∷ []) 8388611 ≡ ok small_plan
unfolding write_iso efi_load_blocks workspace_files
small_iso_made = refl

too_large : write_iso small_iso (9 ∷ []) 33553921 ≡ err efi_payload_too_large
unfolding write_iso efi_load_blocks
too_large = refl

small_size : efi_image_size small_iso.vmlinuz small_iso.initramfs ≡ 8388611
unfolding efi_image_size
small_size = refl

write_iso-Boots_example : Ends 8388611 (Boots 8388611) (write_iso small_iso (9 ∷ []) 8388611)
write_iso-Boots_example = write_iso-Boots small_iso (9 ∷ []) 8388611

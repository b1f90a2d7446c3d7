-- ===== src/Iso/Image.antt =====
-- `Write` and `buildEFIBootImage` of internal/isoimage/isoimage.go: the files that are put in the
-- workspace, in order, and the boot entries that are given to the ISO 9660 library. The FAT and
-- ISO libraries and the file operations are not modelled; `efi_size` is what Stat gives for the
-- FAT image.
use cnimbus.Common.{
  Bool, List, Option, Result, [], err, false, if◌then◌else◌, length, ltb, none, ok, some, true, ℕ,
  ◌%◌, ◌*◌, ◌++◌, ◌+◌, ◌/◌, ◌>>=◌, ◌^◌, ◌∷◌,
}
use cnimbus.Common.Bytes.{Bytes}
use cnimbus.Common.Text.{Text, codes, eqt}

pub record IsoImage : Type 0 where
  pub volume_label : Text
  pub iso_arch : Text
  pub isolinux_bin : Bytes
  pub ldlinux_c32 : Bytes
  pub isolinux_cfg : Bytes
  pub vmlinuz : Bytes
  pub initramfs : Bytes
  pub metadata : Bytes
  pub squashfs : Bytes

pub record WorkFile : Type 0 where
  pub work_path : Text
  pub work_bytes : Bytes

pub data Platform : Type 0 where
  bios efi : Platform

pub record BootEntry : Type 0 where
  pub platform : Platform
  pub boot_file : Text
  pub boot_table : Bool
  pub load_blocks : Option ℕ

pub record IsoPlan : Type 0 where
  pub label : Text
  pub work_files : List WorkFile
  pub boot_catalog : Text
  pub boot_entries : List BootEntry

pub data IsoFailure : Type 0 where
  efi_payload_too_large : IsoFailure

abbrev pub or_else : Text → Text → Text
or_else [] standard = standard
or_else (c ∷ s) standard = c ∷ s

unfoldable pub efi_boot_file_name : Text → Text
unfolding eqt
efi_boot_file_name arch =
    if eqt arch (codes "arm64") then codes "BOOTAA64.EFI" else codes "BOOTX64.EFI"

abbrev pub work : Text → Bytes → WorkFile
work path content = record { work_path = path; work_bytes = content }

abbrev isolinux_files : Bool → IsoImage → List WorkFile
isolinux_files true img =
    work (codes "ISOLINUX/ISOLINUX.BIN") img.isolinux_bin
    ∷ work (codes "ISOLINUX/LDLINUX.C32") img.ldlinux_c32
    ∷ work (codes "ISOLINUX/ISOLINUX.CFG") img.isolinux_cfg
    ∷ []
isolinux_files false img = []

abbrev pub metadata_files : Bytes → List WorkFile
metadata_files [] = []
metadata_files (x ∷ xs) = work (codes "CNIMBUS.CFG") (x ∷ xs) ∷ []

-- `fat_image` is the FAT image, written last.
unfoldable pub workspace_files : Bool → Text → IsoImage → Bytes → List WorkFile
workspace_files is_amd64 efi_boot_file img fat_image =
    isolinux_files is_amd64 img
    ++ (work (codes "SQUASHFS.IMG") img.squashfs
        ∷ (metadata_files img.metadata
            ++ (work (codes "EFI/BOOT/" ++ efi_boot_file) img.vmlinuz
                ∷ work (codes "EFI/BOOT/INITRD.IMG") img.initramfs
                ∷ work (codes "EFIBOOT.IMG") fat_image
                ∷ [])))

-- The size of the FAT image: its files and 8 MiB; the library refuses less than 3 MiB.
unfoldable pub efi_image_size : Bytes → Bytes → ℕ
efi_image_size vmlinuz initramfs =
    let size = 8 * 1024 * 1024 + length vmlinuz + length initramfs in
    if ltb size (3 * 1024 * 1024) then 3 * 1024 * 1024 else size

-- The sectors of the FAT image, which El Torito counts in 16 bits.
unfoldable pub efi_load_blocks : ℕ → Result IsoFailure ℕ
efi_load_blocks efi_size =
    let sectors = (efi_size + 511) / 512 in
    if ltb 65535 sectors then err efi_payload_too_large else ok (sectors % 2 ^ 16)

abbrev pub efi_entry : ℕ → BootEntry
efi_entry blocks = record {
  platform = efi;
  boot_file = codes "/EFIBOOT.IMG";
  boot_table = false;
  load_blocks = some blocks;
}

abbrev pub bios_entry : BootEntry
bios_entry = record {
  platform = bios;
  boot_file = codes "/ISOLINUX/ISOLINUX.BIN";
  boot_table = true;
  load_blocks = none;
}

abbrev pub entries_for : Bool → ℕ → List BootEntry
entries_for true blocks = bios_entry ∷ efi_entry blocks ∷ []
entries_for false blocks = efi_entry blocks ∷ []

abbrev pub catalog_for : Bool → Text
catalog_for true = codes "/ISOLINUX/BOOT.CAT"
catalog_for false = codes "/EFIBOOT.CAT"

abbrev pub plan_of : Bool → IsoImage → Text → Bytes → ℕ → IsoPlan
plan_of is_amd64 img arch fat_image blocks = record {
  label = or_else img.volume_label (codes "CNIMBUS");
  work_files = workspace_files is_amd64 (efi_boot_file_name arch) img fat_image;
  boot_catalog = catalog_for is_amd64;
  boot_entries = entries_for is_amd64 blocks;
}

abbrev pub plan_for : Bool → IsoImage → Text → Bytes → ℕ → Result IsoFailure IsoPlan
plan_for is_amd64 img arch fat_image efi_size =
    efi_load_blocks efi_size >>= λ blocks. ok (plan_of is_amd64 img arch fat_image blocks)

unfoldable pub write_iso : IsoImage → Bytes → ℕ → Result IsoFailure IsoPlan
unfolding efi_boot_file_name workspace_files efi_load_blocks eqt
write_iso img fat_image efi_size =
    let arch = or_else img.iso_arch (codes "amd64") in
    plan_for (eqt arch (codes "amd64")) img arch fat_image efi_size

-- ===== src/Rawimage/Layout.antt =====
-- The sizes that `Write` computes, in int64 and uint64 arithmetic. Sizes of files stay far below
-- 2 ^ 62, so that no sum here wraps; the theorems say so where they need it.
use cnimbus.Common.{
  Option, Result, err, if◌then◌else◌, ltb, none, not, ok, some, ℕ, ◌%◌, ◌*◌, ◌+◌, ◌-◌, ◌/◌, ◌==◌,
  ◌>>=◌, ◌^◌,
}
use cnimbus.Common.Text.{Text, codes, eqt}

pub data Failure : Type 0 where
  unsupported_arch no_squashfs : Failure

-- The constants of the file.
abbrev pub sector_size : ℕ
sector_size = 512

abbrev pub mib_sectors : ℕ
mib_sectors = 1024 * 1024 / sector_size

abbrev pub esp_start_sector : ℕ
esp_start_sector = 2 * mib_sectors

abbrev pub esp_size : ℕ
esp_size = 200 * 1024 * 1024

abbrev pub esp_content_headroom : ℕ
esp_content_headroom = 16 * 1024 * 1024

abbrev pub gpt_overhead : ℕ
gpt_overhead = 3 * 1024 * 1024

abbrev pub mib : ℕ
mib = 1024 * 1024

unfoldable pub round_up_sectors : ℕ → ℕ
round_up_sectors size = (size + sector_size - 1) / sector_size % 2 ^ 64

unfoldable pub round_up_to_mib : ℕ → ℕ
round_up_to_mib sector =
    let rem = sector % mib_sectors in
    if rem == 0 then sector else (sector + (mib_sectors - rem)) % 2 ^ 64

unfoldable pub efi_boot_file_name : Text → Result Failure Text
unfolding eqt
efi_boot_file_name arch =
    if eqt arch (codes "amd64")
    then ok (codes "BOOTX64.EFI")
    else if eqt arch (codes "arm64")
    then ok (codes "BOOTAA64.EFI")
    else err unsupported_arch

-- `thisEspSize`, from the sizes of the kernel and of the initramfs
unfoldable pub this_esp_size : ℕ → ℕ → ℕ
this_esp_size vmlinuz initramfs =
    let content = vmlinuz + initramfs + esp_content_headroom in
    if ltb esp_size content then content else esp_size

pub record Partition : Type 0 where
  pub start : ℕ
  pub last : ℕ

pub record Layout : Type 0 where
  pub efi_boot_file : Text
  pub esp : Partition
  pub root : Partition
  pub disk_size : ℕ
  pub root_offset : ℕ
  pub root_size : ℕ

-- `rootSectors`, at least one
unfoldable pub root_sectors : ℕ → ℕ
unfolding round_up_sectors
root_sectors squashfs_size = let n = round_up_sectors squashfs_size in if n == 0 then 1 else n

-- `diskSize`, rounded up to whole MiB
unfoldable pub disk_size_of : ℕ → ℕ
disk_size_of sectors =
    let size = sectors * sector_size + gpt_overhead in
    let rem = size % mib in if not (rem == 0) then size + (mib - rem) else size

abbrev layout_with : Text → ℕ → ℕ → Layout
layout_with efi_boot_file esp_sectors root_sectors =
    let root_start = round_up_to_mib (esp_start_sector + esp_sectors) in
    record {
      efi_boot_file = efi_boot_file;
      esp = record { start = esp_start_sector; last = esp_start_sector + esp_sectors - 1 };
      root = record { start = root_start; last = root_start + root_sectors - 1 };
      disk_size = disk_size_of (root_start + root_sectors);
      root_offset = root_start * sector_size;
      root_size = root_sectors * sector_size;
    }

abbrev layout_of : Text → ℕ → ℕ → Option ℕ → Result Failure Layout
layout_of efi_boot_file vmlinuz initramfs none = err no_squashfs
layout_of efi_boot_file vmlinuz initramfs (some squashfs_size) = ok (
    layout_with efi_boot_file (round_up_sectors (this_esp_size vmlinuz initramfs))
      (root_sectors squashfs_size))

-- `Write` up to the creation of the disk, with the partition table and the place of the root
-- partition's bytes. The sizes are those of `Vmlinuz`, `InitramfsImg` and, if it is there, of the
-- file at `SquashfsImgPath`.
unfoldable pub plan : Text → ℕ → ℕ → Option ℕ → Result Failure Layout
unfolding round_up_sectors round_up_to_mib this_esp_size root_sectors disk_size_of
plan arch vmlinuz initramfs squashfs_size = do
  efi_boot_file ← efi_boot_file_name arch
  layout_of efi_boot_file vmlinuz initramfs squashfs_size

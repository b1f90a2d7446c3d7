-- ===== src/Examples/Images.antt =====
-- Runs of the writers of disk images and of the signing of PE images.
use cnimbus.Common.{
  Option, [], arith, if◌then◌else◌, length, ltb, none, ok, refl, replicate, some, ℕ, ◌*◌, ◌++◌, ◌+◌,
  ◌<◌, ◌∷◌, ◌≡◌, ◌≤◌,
}
use cnimbus.Common.Bytes.{Bytes, lay, splice}
use cnimbus.Common.Text.{codes}
use cnimbus.Rawimage.Geometry.{IsSound, plan-IsSound}
use cnimbus.Rawimage.Layout.{Layout, efi_boot_file_name, plan}
use cnimbus.Rawimage.Stream.{Region, Source, eof, more, write_loop, write_loop-image}
use cnimbus.Vhd.Footer.{HasGoodChecksum, write_fixed_vhd, write_fixed_vhd-append}
use cnimbus.Vhd.Geometry.{capped, vhd_chs_geometry, vhd_chs_geometry_bounds}
use cnimbus.Vhd.Vmdk.{write_flat_vmdk, write_flat_vmdk_geometry}

-- vhd
abbrev small_image : Bytes
small_image = replicate 512 7

vhd_chs_geometry_bounds_example :
    let g = vhd_chs_geometry 2048 in
    (4 ≤ g.heads)
    × (g.heads ≤ 16)
    × (17 ≤ g.sectors_per_track)
    × (g.sectors_per_track ≤ 255)
    × (g.cylinders ≤ 65535)
    × (g.cylinders * (g.heads * g.sectors_per_track) ≤ capped 2048)
    × (capped 2048 < (g.cylinders + 1) * (g.heads * g.sectors_per_track))
vhd_chs_geometry_bounds_example = vhd_chs_geometry_bounds 2048

write_fixed_vhd-append_example :
    (footer : Bytes) × (write_fixed_vhd (some small_image) 5 (some (replicate 16 1))
      ≡ ok (small_image ++ footer))
    × (length footer ≡ 512)
    × HasGoodChecksum footer
write_fixed_vhd-append_example =
    write_fixed_vhd-append small_image 5 (replicate 16 1) (λ e. absurd (omega (arith, e))) refl

small_descriptor :
    write_flat_vmdk (some 516096) (codes "a.raw")
    ≡ ok (record {
      sectors = 1008;
      raw_path = codes "a.raw";
      cylinders = 1;
      heads = 16;
      sectors_per_track = 63;
    })
unfolding write_flat_vmdk
small_descriptor = refl

write_flat_vmdk_geometry_example :
    (1008 * 512 ≡ 516096)
    × ((1008 ≤ 1008) → (1008 ≤ 1008) × (1008 < 1008 + 1008))
    × ((1008 < 1008) → 1008 < 1008)
write_flat_vmdk_geometry_example = write_flat_vmdk_geometry 516096 (codes "a.raw") small_descriptor

abbrev small_layout : Layout
small_layout = record {
  efi_boot_file = codes "BOOTX64.EFI";
  esp = record { start = 4096; last = 413695 };
  root = record { start = 413696; last = 413703 };
  disk_size = 216006656;
  root_offset = 211812352;
  root_size = 4096;
}

small_plan : plan (codes "amd64") 8388608 1048576 (some 4096) ≡ ok small_layout
unfolding plan efi_boot_file_name
small_plan = refl

plan-IsSound_example : IsSound 8388608 1048576 4096 small_layout
plan-IsSound_example =
    plan-IsSound (codes "amd64") 8388608 1048576 4096 (omega arith) (omega arith) (omega arith)
      small_plan

-- A region kept in memory.
abbrev write_memory : ℕ → Bytes → Bytes → Option Bytes
write_memory off b d = if ltb (length d) (off + length b) then none else some (splice off b d)

write_memory-within :
    (off : ℕ) (b d : Bytes)
    → off + length b ≤ length d
    → (d' : Bytes) × (write_memory off b d ≡ some d') × (d' ≡ splice off b d)
write_memory-within off b d h = (splice off b d, ground arith, refl)

abbrev memory : Region
memory = record {
  Disk = Bytes;
  contents = λ d. d;
  write_at = write_memory;
  write_within = write_memory-within;
}

abbrev two_reads : Source
two_reads = more (1 ∷ 2 ∷ []) (eof (3 ∷ []))

write_loop-image_example :
    (d' : Bytes) × (write_loop memory two_reads 0 (replicate 5 9) ≡ ok d')
    × (d' ≡ lay (1 ∷ 2 ∷ 3 ∷ []) (replicate 5 9))
write_loop-image_example = write_loop-image memory two_reads (replicate 5 9) tt (omega arith)

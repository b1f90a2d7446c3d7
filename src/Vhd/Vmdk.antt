-- ===== src/Vhd/Vmdk.antt =====
-- `writeFlatVMDK` of cmd/cnimbus/run_vmdk.go. The descriptor is the values that its text is filled
-- with; the text around them is fixed.
use cnimbus.Common.{
  Option, Result, arith, err, if◌then◌else◌, none, not, ok, some, ℕ, ◌%◌, ◌*◌, ◌+◌, ◌/◌, ◌<◌, ◌==◌,
  ◌≡◌, ◌≤◌,
}
use cnimbus.Common.Text.{Text}

pub record Descriptor : Type 0 where
  pub sectors : ℕ
  pub raw_path : Text
  pub cylinders : ℕ
  pub heads : ℕ
  pub sectors_per_track : ℕ

pub data Failure : Type 0 where
  unreadable not_whole_sectors : Failure

abbrev describe : ℕ → Text → Descriptor
describe size raw_path =
    let sectors = size / 512 in
    let cylinders = sectors / (16 * 63) in
    record {
      sectors = sectors;
      raw_path = raw_path;
      cylinders = if cylinders == 0 then 1 else cylinders;
      heads = 16;
      sectors_per_track = 63;
    }

-- `size` is the size of the file at `raw_path`, if it is there.
unfoldable pub write_flat_vmdk : Option ℕ → Text → Result Failure Descriptor
write_flat_vmdk none raw_path = err unreadable
write_flat_vmdk (some size) raw_path =
    if not (size % 512 == 0) then err not_whole_sectors else ok (describe size raw_path)

-- An image of whole sectors is described by its number of sectors. From 1008 sectors on, the geometry
-- is no larger than the image, with less than one cylinder left over; below that the one cylinder
-- exceeds it.
pub write_flat_vmdk_geometry :
    (size : ℕ) (raw_path : Text) {d : Descriptor}
    → write_flat_vmdk (some size) raw_path ≡ ok d
    → let volume = d.cylinders * (d.heads * d.sectors_per_track) in
      (d.sectors * 512 ≡ size)
      × ((1008 ≤ d.sectors) → (volume ≤ d.sectors) × (d.sectors < volume + 1008))
      × ((d.sectors < 1008) → d.sectors < volume)
unfolding write_flat_vmdk
write_flat_vmdk_geometry size raw_path e = ground arith

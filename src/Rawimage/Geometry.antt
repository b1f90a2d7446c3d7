-- ===== src/Rawimage/Geometry.antt =====
-- What the layout of a raw image promises.
use cnimbus.Common.{arith, inl, inr, ok, refl, some, ℕ, ◌%◌, ◌*◌, ◌+◌, ◌-◌, ◌<◌, ◌^◌, ◌≡◌, ◌≤◌, ◌⊎◌}
use cnimbus.Common.Text.{Text, codes}
use cnimbus.Rawimage.Layout.{
  Layout, Partition, efi_boot_file_name, esp_content_headroom, esp_size, mib, mib_sectors, plan,
  sector_size,
}

-- The sector after the last of a partition.
abbrev next : Partition → ℕ
next p = p.last + 1

-- A disk on which both partitions fit, apart from each other and from the tables at both ends.
pub record IsSound (vmlinuz initramfs squashfs : ℕ) (l : Layout) : Type 0 where
  pub esp_aligned : l.esp.start % mib_sectors ≡ 0
  pub root_aligned : l.root.start % mib_sectors ≡ 0
  -- the primary GPT takes the first 34 sectors, the backup the last 33
  pub front_gap : 34 ≤ l.esp.start
  pub apart : next l.esp ≤ l.root.start
  pub back_gap : (next l.root + 33) * sector_size ≤ l.disk_size
  pub not_empty : (l.esp.start ≤ l.esp.last) × (l.root.start ≤ l.root.last)
  pub esp_holds :
      vmlinuz + initramfs + esp_content_headroom ≤ (next l.esp - l.esp.start) * sector_size
  pub esp_floor : esp_size ≤ (next l.esp - l.esp.start) * sector_size
  pub root_holds : squashfs ≤ l.root_size
  pub root_bytes :
      (l.root_offset ≡ l.root.start * sector_size)
      × (l.root_size ≡ (next l.root - l.root.start) * sector_size)
  pub whole_mib : l.disk_size % mib ≡ 0

-- For sizes below 2 ^ 60, a layout that is made is sound: the partitions start on
-- whole MiB, lie apart inside the disk with room for both partition tables, hold their contents, and
-- the disk has whole MiB.
pub plan-IsSound :
    (arch : Text) (vmlinuz initramfs squashfs : ℕ)
    → vmlinuz < 2 ^ 60
    → initramfs < 2 ^ 60
    → squashfs < 2 ^ 60
    → {l : Layout} → plan arch vmlinuz initramfs (some squashfs) ≡ ok l
    → IsSound vmlinuz initramfs squashfs l
unfolding plan
plan-IsSound arch v i s hv hi hs e = ground arith

-- Only the two architectures have a layout, and there it exists whenever the root image does.
pub plan_total :
    (arch : Text) (vmlinuz initramfs squashfs : ℕ)
    → (arch ≡ codes "amd64") ⊎ (arch ≡ codes "arm64")
    → (l : Layout) × (plan arch vmlinuz initramfs (some squashfs) ≡ ok l)
unfolding plan efi_boot_file_name
plan_total arch v i s (inl e) = rw e (_, refl)
plan_total arch v i s (inr e) = rw e (_, refl)

-- ===== src/Vhd/Geometry.antt =====
-- `vhdCHSGeometry` of cmd/cnimbus/run_vhd.go.
use cnimbus.Common.{arith, if◌then◌else◌, leb, ltb, ℕ, ◌%◌, ◌*◌, ◌+◌, ◌/◌, ◌<◌, ◌^◌, ◌||◌, ◌≡◌, ◌≤◌}

pub record Geometry : Type 0 where
  pub cylinders : ℕ
  pub heads : ℕ
  pub sectors_per_track : ℕ

-- `const maxSectors`
abbrev pub max_sectors : ℕ
max_sectors = 65535 * 16 * 255

abbrev pub capped : ℕ → ℕ
capped total = if ltb max_sectors total then max_sectors else total

-- The loop variables of the function: a candidate, with the number of tracks.
pub record Candidate : Type 0 where
  pub spt : ℕ
  pub hds : ℕ
  pub cyl_times_heads : ℕ

-- `headsInt = (cylTimesHeads + 1023) / 1024`, at least 4
unfoldable pub first_candidate : ℕ → Candidate
first_candidate total =
    let cth = total / 17 in
    let h = (cth + 1023) / 1024 in
    record { spt = 17; hds = if ltb h 4 then 4 else h; cyl_times_heads = cth }

unfoldable pub second_candidate : ℕ → Candidate → Candidate
second_candidate total c =
    if leb (c.hds * 1024) c.cyl_times_heads || ltb 16 c.hds
    then record { spt = 31; hds = 16; cyl_times_heads = total / 31 }
    else c

unfoldable pub third_candidate : ℕ → Candidate → Candidate
third_candidate total c =
    if leb (c.hds * 1024) c.cyl_times_heads
    then record { spt = 63; hds = 16; cyl_times_heads = total / 63 }
    else c

unfoldable pub candidate : ℕ → Candidate
unfolding first_candidate second_candidate third_candidate
candidate total =
    if leb (65535 * 16 * 63) total
    then record { spt = 255; hds = 16; cyl_times_heads = total / 255 }
    else third_candidate total (second_candidate total (first_candidate total))

-- The results are converted to `uint16` and `uint8`.
unfoldable pub vhd_chs_geometry : ℕ → Geometry
unfolding candidate
vhd_chs_geometry total_sectors =
    let c = candidate (capped total_sectors) in
    record {
      cylinders = c.cyl_times_heads / c.hds % 2 ^ 16;
      heads = c.hds % 2 ^ 8;
      sectors_per_track = c.spt % 2 ^ 8;
    }

-- What a candidate is good for: its sizes fit their fields, and it counts the tracks.
pub record IsGood (total : ℕ) (c : Candidate) : Type 0 where
  pub heads_lo : 4 ≤ c.hds
  pub heads_hi : c.hds ≤ 16
  pub spt_lo : 17 ≤ c.spt
  pub spt_hi : c.spt ≤ 255
  pub tracks : c.cyl_times_heads ≡ total / c.spt
  pub fits : c.cyl_times_heads < 65536 * c.hds

candidate-IsGood : (total : ℕ) → total ≤ max_sectors → IsGood total (candidate total)
unfolding candidate
candidate-IsGood total h = ground arith

mul_mono : (a b s : ℕ) → a ≤ b → a * s ≤ b * s
mul_mono a b s h = grind arith

div_bounds : (a b : ℕ) → 0 < b → (a / b * b ≤ a) × (a < (a / b + 1) * b)
div_bounds a b h = (grind arith, grind arith)

cylinders_fit : (c h : ℕ) → 0 < h → c < 65536 * h → c / h < 65536
cylinders_fit c h p q = grind arith

-- Whole cylinders of whole tracks: less than one cylinder of the total is left over.
cylinder_bounds :
    (t h s : ℕ) → 0 < h → 0 < s → (t / s / h * (h * s) ≤ t) × (t < (t / s / h + 1) * (h * s))
cylinder_bounds t h s p q =
    let c = t / s in
    let (lo, hi) = div_bounds t s q in
    let (lo', hi') = div_bounds c h p in
    let k = c / h in
    (
      omega (arith, mul_mono (k * h) c s lo', lo),
      omega (arith, mul_mono (c + 1) ((k + 1) * h) s (omega (arith, hi')), hi),
    )

capped-le : (total : ℕ) → capped total ≤ max_sectors
capped-le total = ground arith

-- For every number of sectors, capped at the format's greatest: the numbers of the geometry fit
-- their fields, the disk that they describe is no larger, and less than one cylinder is left out.
pub vhd_chs_geometry_bounds :
    (total : ℕ)
    → let g = vhd_chs_geometry total in
      (4 ≤ g.heads)
      × (g.heads ≤ 16)
      × (17 ≤ g.sectors_per_track)
      × (g.sectors_per_track ≤ 255)
      × (g.cylinders ≤ 65535)
      × (g.cylinders * (g.heads * g.sectors_per_track) ≤ capped total)
      × (capped total < (g.cylinders + 1) * (g.heads * g.sectors_per_track))
unfolding vhd_chs_geometry
vhd_chs_geometry_bounds total =
    let t = capped total in
    let c = candidate t in
    let good = candidate-IsGood t (capped-le total) in
    let h16 : c.hds % 2 ^ 8 ≡ c.hds = omega arith in
    let s255 : c.spt % 2 ^ 8 ≡ c.spt = omega arith in
    let fits = cylinders_fit c.cyl_times_heads c.hds (omega arith) good.fits in
    let c65 : c.cyl_times_heads / c.hds % 2 ^ 16 ≡ c.cyl_times_heads / c.hds = omega arith in
    let (lo, hi) = cylinder_bounds t c.hds c.spt (omega arith) (omega arith) in
    rw (h16, s255, c65, good.tracks)
      (
        good.heads_lo,
        good.heads_hi,
        good.spt_lo,
        good.spt_hi,
        omega (arith, rw good.tracks at fits),
        lo,
        hi,
      )

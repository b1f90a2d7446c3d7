-- ===== src/Vhd/Footer.antt =====
-- `vhdFooter` and `writeFixedVHD` of cmd/cnimbus/run_vhd.go.
use cnimbus.Common.{
  Option, Result, [], ap, arith, err, if◌then◌else◌, length, none, not, ok, refl, replicate, some,
  sym, ℕ, ◌%◌, ◌++◌, ◌+◌, ◌-◌, ◌/◌, ◌<◌, ◌==◌, ◌>>=◌, ◌^◌, ◌||◌, ◌∙◌, ◌∷◌, ◌≡◌, ◌≢◌,
}
use cnimbus.Common.Bytes.{
  Bytes, be16, be32, be64, be_uint32, be_uint32-splice, length-splice, splice, splice-splice,
}
use cnimbus.Common.Text.{codes}
use cnimbus.Vhd.Geometry.{vhd_chs_geometry}

pub data Failure : Type 0 where
  bad_size no_unique_id unreadable : Failure

-- The fields but the checksum, written into a footer of zeros. The clock gives `seconds` since the
-- start of the year 2000, and `id` are the 16 bytes of the unique identifier.
unfoldable pub footer_fields : ℕ → ℕ → Bytes → Bytes
unfolding splice
footer_fields size seconds id =
    let g = vhd_chs_geometry (size / 512) in
    splice 68 id (
      splice 60 (be32 2) (
        splice 59 (g.sectors_per_track ∷ []) (
          splice 58 (g.heads ∷ []) (
            splice 56 (be16 g.cylinders) (
              splice 48 (be64 size) (
                splice 40 (be64 size) (
                  splice 36 (codes "Wi2k") (
                    splice 32 (be32 0x00010000) (
                      splice 28 (codes "cnim") (
                        splice 24 (be32 (seconds % 2 ^ 32)) (
                          splice 16 (be64 0xFFFFFFFFFFFFFFFF) (
                            splice 12 (be32 0x00010000) (
                              splice 8 (be32 0x00000002)
                                (splice 0 (codes "conectix") (replicate 512 0)))))))))))))))

-- `sum += uint32(b)` over the bytes
unfoldable pub sum32 : ℕ → Bytes → ℕ
sum32 acc [] = acc
sum32 acc (b ∷ bs) = sum32 ((acc + b) % 2 ^ 32) bs

-- `^sum` on 32 bits
abbrev pub not32 : ℕ → ℕ
not32 v = 2 ^ 32 - 1 - v

abbrev pub with_checksum : Bytes → Bytes
with_checksum footer = splice 64 (be32 (not32 (sum32 0 footer))) footer

abbrev finish : ℕ → ℕ → Option Bytes → Result Failure Bytes
finish size seconds none = err no_unique_id
finish size seconds (some id) = ok (with_checksum (footer_fields size seconds id))

-- `vhdFooter`; `id` is what the generator of identifiers returns.
unfoldable pub vhd_footer : ℕ → ℕ → Option Bytes → Result Failure Bytes
vhd_footer size seconds id =
    if size == 0 || not (size % 512 == 0) then err bad_size else finish size seconds id

-- `writeFixedVHD`: the bytes of the raw image, `none` if it cannot be read, and the new file.
unfoldable pub write_fixed_vhd : Option Bytes → ℕ → Option Bytes → Result Failure Bytes
unfolding vhd_footer
write_fixed_vhd none seconds id = err unreadable
write_fixed_vhd (some raw) seconds id = do
  footer ← vhd_footer (length raw) seconds id
  ok (raw ++ footer)

-- What the VHD format asks of a checksum: its field, at offset 64, is the complement of the sum of
-- the bytes of the footer with the field cleared.
abbrev pub HasGoodChecksum : Bytes → Type 0
HasGoodChecksum footer = be_uint32 64 footer ≡ not32 (sum32 0 (splice 64 (be32 0) footer))

length-footer_fields :
    (size seconds : ℕ) (id : Bytes) → length (footer_fields size seconds id) ≡ 512
unfolding footer_fields
length-footer_fields size seconds id = simp length-splice refl

sum32-lt : (acc : ℕ) (bs : Bytes) → acc < 2 ^ 32 → sum32 acc bs < 2 ^ 32
unfolding sum32
sum32-lt acc [] h = h
sum32-lt acc (b ∷ bs) h = sum32-lt ((acc + b) % 2 ^ 32) bs (omega arith)

-- The bytes of the field are still clear before the checksum is written.
footer_fields-clear :
    (size seconds : ℕ) (id : Bytes)
    → splice 64 (be32 0) (footer_fields size seconds id) ≡ footer_fields size seconds id
unfolding footer_fields
footer_fields-clear size seconds id = refl

-- For any bytes in which the field is clear.
with_checksum-HasGoodChecksum :
    (footer : Bytes)
    → length footer ≡ 512
    → splice 64 (be32 0) footer ≡ footer
    → HasGoodChecksum (with_checksum footer)
with_checksum-HasGoodChecksum footer n clear =
    let sum = sum32 0 footer in
    be_uint32-splice 64 (not32 sum) footer (omega arith) (omega arith)
    ∙ ap (λ (x : Bytes). not32 (sum32 0 x))
        (sym (splice-splice 64 (be32 (not32 sum)) (be32 0) footer refl ∙ clear))

-- A valid size gives a footer of 512 bytes whose checksum a reader accepts.
pub vhd_footer-HasGoodChecksum :
    (size seconds : ℕ) (id : Bytes)
    → size ≢ 0
    → size % 512 ≡ 0
    → (footer : Bytes) × (vhd_footer size seconds (some id) ≡ ok footer)
      × (length footer ≡ 512)
      × HasGoodChecksum footer
unfolding vhd_footer
vhd_footer-HasGoodChecksum size seconds id n m =
    let fields = footer_fields size seconds id in
    (
      with_checksum fields,
      ground arith,
      length-splice 64 (be32 (not32 (sum32 0 fields))) fields
          ∙ length-footer_fields size seconds id,
      with_checksum-HasGoodChecksum fields (length-footer_fields size seconds id)
          (footer_fields-clear size seconds id),
    )

-- From a raw image that is not empty and has whole sectors, the new file is the image's bytes and
-- then a footer of 512 bytes, with the checksum that the format asks for.
pub write_fixed_vhd-append :
    (raw : Bytes) (seconds : ℕ) (id : Bytes)
    → length raw ≢ 0
    → length raw % 512 ≡ 0
    → (footer : Bytes) × (write_fixed_vhd (some raw) seconds (some id) ≡ ok (raw ++ footer))
      × (length footer ≡ 512)
      × HasGoodChecksum footer
unfolding write_fixed_vhd
write_fixed_vhd-append raw seconds id n m =
    let (footer, e, l, c) = vhd_footer-HasGoodChecksum (length raw) seconds id n m in
    (footer, rw e refl, l, c)

-- ===== src/Examples/Signing.antt =====
-- Runs on a PE image of 512 bytes, with one section and room for more.
use cnimbus.Common.{
  Holds, Holds-ok, [], arith, drop, err, length, ok, refl, replicate, take, true, ℕ, ◌%◌, ◌+◌, ◌<◌,
  ◌^◌, ◌↔◌, ◌∷◌, ◌≡◌, ◌≢◌, ◌≤◌,
}
use cnimbus.Common.Bytes.{Bytes, le16, le32, le_uint16, le_uint32, splice}
use cnimbus.Common.Text.{codes}
use cnimbus.Pecoff.Checksum.{
  IsFresh, pe_checksum, pe_checksum-plain_sum, plain_sum, recompute_checksum,
  recompute_checksum-IsFresh,
}
use cnimbus.Pecoff.Digest.{authenticode_digest, embed_win_certificate, padded, win_certificate}
use cnimbus.Pecoff.Layout.{
  Inside, PeLayout, bytes_at, headers, magic_fields, nt_headers, optional_fields, panicked,
  parse_pe_layout, parse_pe_layout-Inside, security_off,
}
use cnimbus.Pecoff.Panics.{
  EndsInOptionalHeader, authenticode_digest-panicked, parse_pe_layout-panicked,
}
use cnimbus.Pecoff.Placement.{append_section-placement}
use cnimbus.Pecoff.Section.{append_section, new_header_end}
use cnimbus.Pecoff.Signature.{embed_win_certificate-digest}

abbrev small_pe : Bytes
small_pe = splice 148 (le32 512) (
    splice 88 (le16 0x20B) (
      splice 84 (le16 240) (
        splice 70 (le16 1) (
          splice 64 (codes "PE") (splice 60 (le32 64) (splice 0 (codes "MZ") (replicate 512 0)))))))

abbrev small_pe_layout : PeLayout
small_pe_layout = record {
  nt_header_offset = 64;
  file_header_offset = 68;
  optional_header_offset = 88;
  section_header_offset = 328;
  number_of_sections = 1;
  size_of_optional_header = 240;
  is_pe32_plus = true;
  section_alignment = 0;
  file_alignment = 512;
  size_of_image_off = 144;
  size_of_headers_off = 148;
  checksum_off = 152;
  data_dir_off = 200;
  num_rva_sizes_off = 196;
}

small_pe_parses : parse_pe_layout small_pe ≡ ok small_pe_layout
unfolding parse_pe_layout nt_headers headers magic_fields optional_fields bytes_at splice le_uint16
    le_uint32
small_pe_parses = refl

parse_pe_layout-Inside_example : Holds (Inside small_pe) (parse_pe_layout small_pe)
parse_pe_layout-Inside_example = parse_pe_layout-Inside small_pe

small_pe-Inside : Inside small_pe small_pe_layout
small_pe-Inside = Holds-ok (Inside small_pe) (parse_pe_layout-Inside small_pe) small_pe_parses

length-small_pe : length small_pe ≡ 512
unfolding splice
length-small_pe = refl

small_pe_short : length small_pe < 2 ^ 32
small_pe_short = rw length-small_pe (omega arith)

small_pe_field : 152 + 4 ≤ length small_pe
small_pe_field = rw length-small_pe (omega arith)

-- A hash that only counts.
abbrev count_bytes : Bytes → Bytes
count_bytes b = length b ∷ []

small_digest : authenticode_digest count_bytes small_pe small_pe_layout ≡ ok (500 ∷ [])
unfolding authenticode_digest splice le_uint32
small_digest = refl

embed_win_certificate-digest_example :
    (out : Bytes) × (embed_win_certificate small_pe small_pe_layout (1 ∷ 2 ∷ 3 ∷ []) ≡ ok out)
    × (authenticode_digest count_bytes out small_pe_layout ≡ ok (500 ∷ []))
    × (drop (le_uint32 (security_off small_pe_layout) out) out
        ≡ padded (win_certificate (1 ∷ 2 ∷ 3 ∷ [])))
embed_win_certificate-digest_example =
    embed_win_certificate-digest count_bytes small_pe small_pe_layout (1 ∷ 2 ∷ 3 ∷ []) (500 ∷ [])
      small_pe-Inside small_pe_short small_digest

recompute_checksum-IsFresh_example :
    (out : Bytes) × (recompute_checksum small_pe_layout small_pe ≡ ok out)
    × (length out ≡ length small_pe)
    × IsFresh small_pe_layout out
    × (recompute_checksum small_pe_layout out ≡ ok out)
recompute_checksum-IsFresh_example =
    recompute_checksum-IsFresh small_pe_layout small_pe refl small_pe_field

pe_checksum-plain_sum_example :
    (s : ℕ) × (pe_checksum (1 ∷ 2 ∷ 3 ∷ []) 8 ≡ s + 3)
    × (s < 2 ^ 16)
    × (s % 65535 ≡ plain_sum 8 0 (1 ∷ 2 ∷ 3 ∷ []) % 65535)
pe_checksum-plain_sum_example =
    pe_checksum-plain_sum (1 ∷ 2 ∷ 3 ∷ []) 8 (omega arith, (omega arith, (omega arith, tt)))
      (omega arith)

-- The image cut off in its optional header.
abbrev cut_pe : Bytes
cut_pe = take 100 (splice 84 (le16 8) small_pe)

cut_pe-panicked : parse_pe_layout cut_pe ≡ err panicked
unfolding parse_pe_layout nt_headers headers magic_fields optional_fields bytes_at splice le_uint16
    le_uint32
cut_pe-panicked = refl

parse_pe_layout-panicked_example : EndsInOptionalHeader cut_pe
parse_pe_layout-panicked_example = parse_pe_layout-panicked cut_pe cut_pe-panicked

-- The image with a security directory that names its tenth byte.
abbrev bad_directory : Bytes
bad_directory = splice 232 (le32 10) small_pe

bad_directory_parses : parse_pe_layout bad_directory ≡ ok small_pe_layout
unfolding parse_pe_layout nt_headers headers magic_fields optional_fields bytes_at splice le_uint16
    le_uint32
bad_directory_parses = refl

bad_directory-Inside : Inside bad_directory small_pe_layout
bad_directory-Inside =
    Holds-ok (Inside bad_directory) (parse_pe_layout-Inside bad_directory) bad_directory_parses

authenticode_digest-panicked_example :
    (authenticode_digest count_bytes bad_directory small_pe_layout ≡ err panicked)
    ↔ ((le_uint32 232 bad_directory ≢ 0) × (le_uint32 232 bad_directory < 240))
authenticode_digest-panicked_example =
    authenticode_digest-panicked count_bytes bad_directory small_pe_layout bad_directory-Inside

small_pe_pointer : 64 ≤ le_uint32 0x3C small_pe
unfolding splice le_uint32
small_pe_pointer = omega arith

small_pe_room : new_header_end small_pe_layout ≤ length small_pe
small_pe_room = rw length-small_pe (omega arith)

append_section-placement_example :
    Holds
      (λ (out : Bytes). take 3 (drop (length small_pe) out) ≡ 1 ∷ 2 ∷ 3 ∷ [])
      (append_section 0 small_pe (codes ".cmdline") (1 ∷ 2 ∷ 3 ∷ []) 0x1000000)
append_section-placement_example =
    append_section-placement 0 small_pe (codes ".cmdline") (1 ∷ 2 ∷ 3 ∷ []) 0x1000000
      small_pe_layout small_pe_parses small_pe_pointer small_pe_room

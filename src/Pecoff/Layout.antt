-- ===== src/Pecoff/Layout.antt =====
-- `parsePELayout`, `align` and the security directory of internal/secureboot/pecoff.go.
use mathlib.Core.Path.{subst}
use cnimbus.Common.{
  Bool, Holds, Holds-any, Holds-bind, Holds-branch, Result, [], arith, err, false, if◌then◌else◌,
  length, ltb, not, ok, refl, suc, sym, true, zero, ℕ, ◌*◌, ◌+◌, ◌/◌, ◌==◌, ◌>>=◌, ◌||◌, ◌∷◌, ◌≡◌,
  ◌≢◌, ◌≤◌,
}
use cnimbus.Common.Bytes.{Bytes, le32, le_uint16, le_uint32, splice}

-- `panicked` is Go's panic on an index outside the slice.
pub data Failure : Type 0 where
  not_pe name_too_long no_room panicked : Failure

pub record PeLayout : Type 0 where
  pub nt_header_offset : ℕ
  pub file_header_offset : ℕ
  pub optional_header_offset : ℕ
  pub section_header_offset : ℕ
  pub number_of_sections : ℕ
  pub size_of_optional_header : ℕ
  pub is_pe32_plus : Bool
  pub section_alignment : ℕ
  pub file_alignment : ℕ
  pub size_of_image_off : ℕ
  pub size_of_headers_off : ℕ
  pub checksum_off : ℕ
  pub data_dir_off : ℕ
  pub num_rva_sizes_off : ℕ

-- `data[k]`, and 0 outside the file, where `read8` panics.
abbrev pub byte_at : ℕ → Bytes → ℕ
byte_at zero (x ∷ xs) = x
byte_at (suc k) (x ∷ xs) = byte_at k xs
byte_at k [] = 0

abbrev pub read8 : ℕ → Bytes → Result Failure ℕ
read8 k pe = if ltb (length pe) (k + 1) then err Failure.panicked else ok (byte_at k pe)

-- `binary.LittleEndian.Uint16(data[k:])`
abbrev pub read16 : ℕ → Bytes → Result Failure ℕ
read16 k pe = if ltb (length pe) (k + 2) then err Failure.panicked else ok (le_uint16 k pe)

-- `binary.LittleEndian.Uint32(data[k:])`
abbrev pub read32 : ℕ → Bytes → Result Failure ℕ
read32 k pe = if ltb (length pe) (k + 4) then err Failure.panicked else ok (le_uint32 k pe)

-- `binary.LittleEndian.PutUint32(data[k:], v)`
abbrev pub put32 : ℕ → ℕ → Bytes → Result Failure Bytes
put32 k v pe = if ltb (length pe) (k + 4) then err Failure.panicked else ok (splice k (le32 v) pe)

-- The magic number of the optional header.
abbrev pub pe_kind : ℕ → Result Failure Bool
pe_kind magic =
    if magic == 0x20B then ok true else if magic == 0x10B then ok false else err Failure.not_pe

abbrev pub post_image_base : Bool → ℕ
post_image_base true = 24 + 8
post_image_base false = 28 + 4

-- Whether the bytes from `k` on are the given ones; the first that differs ends the reading.
unfoldable pub bytes_at : ℕ → Bytes → Bytes → Result Failure Bool
bytes_at k [] pe = ok true
bytes_at k (c ∷ cs) pe =
    let rest = bytes_at (k + 1) cs pe in read8 k pe >>= λ b. if b == c then rest else ok false

abbrev pub file_alignment_or_default : ℕ → ℕ
file_alignment_or_default a = if a == 0 then 0x200 else a

-- The fields after the magic number, from which the data directories must lie in the file.
unfoldable pub optional_fields : Bytes → ℕ → ℕ → ℕ → Bool → Result Failure PeLayout
optional_fields pe nt sections optional_size plus = do
  let fh = nt + 4
  let oh = fh + 20
  let base = post_image_base plus
  section_align ← read32 (oh + base + 4) pe
  file_align ← read32 (oh + base + 8) pe
  let checksum = oh + base + 32
  let rva_sizes = checksum + 4 + 2 + 2 + 4 * 8 + 4
  if ltb (length pe) (rva_sizes + 4 + 8 * (4 + 1))
      then err Failure.not_pe
      else ok (record {
        nt_header_offset = nt;
        file_header_offset = fh;
        optional_header_offset = oh;
        section_header_offset = oh + optional_size;
        number_of_sections = sections;
        size_of_optional_header = optional_size;
        is_pe32_plus = plus;
        section_alignment = section_align;
        file_alignment = file_alignment_or_default file_align;
        size_of_image_off = oh + base + 24;
        size_of_headers_off = oh + base + 28;
        checksum_off = checksum;
        data_dir_off = rva_sizes + 4;
        num_rva_sizes_off = rva_sizes;
      })

unfoldable pub magic_fields : Bytes → ℕ → ℕ → ℕ → Result Failure PeLayout
unfolding optional_fields
magic_fields pe nt sections optional_size = do
  magic ← read16 (nt + 4 + 20) pe
  plus ← pe_kind magic
  optional_fields pe nt sections optional_size plus

unfoldable pub headers : Bytes → ℕ → Result Failure PeLayout
unfolding magic_fields
headers pe nt = do
  sections ← read16 (nt + 4 + 2) pe
  optional_size ← read16 (nt + 4 + 16) pe
  if ltb (length pe) (nt + 4 + 20 + optional_size) || ltb (length pe) (nt + 4 + 20 + 2)
      then err Failure.not_pe
      else magic_fields pe nt sections optional_size

-- What follows the magic number MZ.
unfoldable pub nt_headers : Bytes → Result Failure PeLayout
unfolding bytes_at headers
nt_headers pe = do
  nt ← read32 0x3C pe
  if nt == 0 || ltb (length pe) (nt + 4 + 20) then err Failure.not_pe else do
    is_pe ← bytes_at nt (80 ∷ 69 ∷ 0 ∷ 0 ∷ []) pe
    if not is_pe then err Failure.not_pe else headers pe nt

unfoldable pub parse_pe_layout : Bytes → Result Failure PeLayout
unfolding bytes_at nt_headers
parse_pe_layout pe = if ltb (length pe) 0x40 then err Failure.not_pe else do
  is_mz ← bytes_at 0 (77 ∷ 90 ∷ []) pe
  if not is_mz then err Failure.not_pe else nt_headers pe

unfoldable pub align : ℕ → ℕ → ℕ
align n zero = n
align n (suc a) = (n + a) / suc a * suc a

-- `data[secOff:]` of the attribute certificate table: its offset in the file and its size.
abbrev pub security_off : PeLayout → ℕ
security_off l = l.data_dir_off + 4 * 8

abbrev pub security_data_directory : PeLayout → Bytes → Result Failure (ℕ × ℕ)
security_data_directory l pe = do
  offset ← read32 (security_off l) pe
  size ← read32 (security_off l + 4) pe
  ok (offset, size)

abbrev pub set_security_data_directory : PeLayout → Bytes → ℕ → ℕ → Result Failure Bytes
set_security_data_directory l pe offset size = do
  first ← put32 (security_off l) offset pe
  put32 (security_off l + 4) size first

-- The fields that are read or written lie in the file, in the order in which the digest skips them.
pub record Inside (pe : Bytes) (l : PeLayout) : Type 0 where
  pub headers_first : l.file_header_offset + 20 ≡ l.optional_header_offset
  pub sections_in : l.section_header_offset ≤ length pe
  pub headers_apart : l.optional_header_offset + 64 ≡ l.checksum_off
  pub image_field : l.size_of_image_off + 8 ≡ l.checksum_off
  pub headers_field : l.size_of_headers_off + 4 ≡ l.checksum_off
  pub directory_apart : l.checksum_off + 48 ≡ l.data_dir_off
  pub directory_in : l.data_dir_off + 40 ≤ length pe
  pub aligned : l.file_alignment ≢ 0

optional_fields-Inside :
    (pe : Bytes) (nt sections optional_size : ℕ) (plus : Bool)
    → nt + 24 + optional_size ≤ length pe
    → Holds (Inside pe) (optional_fields pe nt sections optional_size plus)
unfolding optional_fields
optional_fields-Inside pe nt sections optional_size plus h = ground arith

magic_fields-Inside :
    (pe : Bytes) (nt sections optional_size : ℕ)
    → nt + 24 + optional_size ≤ length pe
    → Holds (Inside pe) (magic_fields pe nt sections optional_size)
unfolding magic_fields
magic_fields-Inside pe nt sections optional_size h =
    Holds-any _ (read16 (nt + 4 + 20) pe) _ (λ magic.
      Holds-any _ (pe_kind magic) _
        (λ plus. optional_fields-Inside pe nt sections optional_size plus h))

headers-Inside : (pe : Bytes) (nt : ℕ) → Holds (Inside pe) (headers pe nt)
unfolding headers
headers-Inside pe nt = Holds-any _ (read16 (nt + 4 + 2) pe) _ (λ sections.
    Holds-any _ (read16 (nt + 4 + 16) pe) _ (λ optional_size.
      Holds-branch (Inside pe)
        (ltb (length pe) (nt + 4 + 20 + optional_size) || ltb (length pe) (nt + 4 + 20 + 2)) _ _
        (λ h. magic_fields-Inside pe nt sections optional_size (ground arith))))

-- What holds of a layout that `headers` gives, at whatever offset, holds of one that is accepted.
pub parse_pe_layout-Holds :
    (P : PeLayout → Type 0) (pe : Bytes)
    → Holds P (headers pe (le_uint32 0x3C pe))
    → Holds P (parse_pe_layout pe)
unfolding parse_pe_layout nt_headers
parse_pe_layout-Holds P pe h = Holds-branch P (ltb (length pe) 0x40) _ _ (λ long.
    Holds-any P (bytes_at 0 (77 ∷ 90 ∷ []) pe) _ (λ is_mz. Holds-branch P (not is_mz) _ _ (λ mz.
      Holds-bind (λ nt. nt ≡ le_uint32 0x3C pe) P (read32 0x3C pe) _
        (Holds-branch _ (ltb (length pe) (0x3C + 4)) _ _ (λ inside. refl))
        (λ nt e. Holds-branch P (nt == 0 || ltb (length pe) (nt + 4 + 20)) _ _ (λ there.
          Holds-any P (bytes_at nt (80 ∷ 69 ∷ 0 ∷ 0 ∷ []) pe) _ (λ is_pe.
            Holds-branch P (not is_pe) _ _
              (λ signed. subst (λ at. Holds P (headers pe at)) (sym e) h)))))))

-- A layout of any file that is accepted has its fields in order and inside the file, and a file
-- alignment that is not zero.
pub parse_pe_layout-Inside : (pe : Bytes) → Holds (Inside pe) (parse_pe_layout pe)
parse_pe_layout-Inside pe =
    parse_pe_layout-Holds (Inside pe) pe (headers-Inside pe (le_uint32 0x3C pe))

-- ===== src/Pecoff/Section.antt =====
-- `appendSection` of internal/secureboot/pecoff.go. A name is its bytes.
use cnimbus.Common.{
  Holds, Holds-any, Holds-bind, Holds-branch, Holds-ok, Result, arith, err, if◌then◌else◌, length,
  length-append, length-replicate, ltb, ok, refl, replicate, suc, zero, ℕ, ◌*◌, ◌++◌, ◌+◌, ◌-◌, ◌<◌,
  ◌>>=◌, ◌≡◌, ◌≢◌, ◌≤◌,
}
use cnimbus.Common.Bytes.{Bytes, lay, le16, le32, length-lay, length-splice, splice}
use cnimbus.Nimbus.Agent.{with_header}
use cnimbus.Pecoff.Checksum.{pe_checksum, recompute_checksum}
use cnimbus.Pecoff.Layout.{
  Failure, Inside, PeLayout, align, parse_pe_layout, parse_pe_layout-Inside, put32, read32,
}
use cnimbus.Rootfs.Cpio.{header}

abbrev pub put16 : ℕ → ℕ → Bytes → Result Failure Bytes
put16 k v pe = if ltb (length pe) (k + 2) then err Failure.panicked else ok (splice k (le16 v) pe)

-- `hdr`, the 40 bytes of an IMAGE_SECTION_HEADER
unfoldable pub section_header : Bytes → ℕ → ℕ → ℕ → ℕ → Bytes
unfolding splice
section_header name size vma raw_size raw_offset = splice 36 (le32 0x40000040) (
    splice 20 (le32 raw_offset) (
      splice 16 (le32 raw_size)
        (splice 12 (le32 vma) (splice 8 (le32 size) (splice 0 name (replicate 40 0))))))

-- `newHeaderEnd`
abbrev pub new_header_end : PeLayout → ℕ
new_header_end l = l.section_header_offset + (l.number_of_sections + 1) * 40

abbrev pub insert_at : PeLayout → ℕ
insert_at l = l.section_header_offset + l.number_of_sections * 40

-- `padded`, the bytes that the file grows by
unfoldable pub section_area : PeLayout → ℕ → Bytes → Bytes
unfolding lay align
section_area l size section =
    let fill = align size l.file_alignment - size in
    lay section (replicate (fill + align (length section) l.file_alignment) 0)

-- `copy(out[insertAt:insertAt+sectionHeaderSize], hdr)`: the bounds of a slice of a slice are those
-- of its capacity, of which `append` leaves `spare` bytes.
abbrev pub put_header : ℕ → ℕ → Bytes → Bytes → Result Failure Bytes
put_header spare at header out =
    if ltb (length out + spare) (at + 40) then err Failure.panicked else ok (splice at header out)

abbrev pub new_size_of_image : ℕ → ℕ → ℕ
new_size_of_image current size = if ltb size current then current else size

-- The writes into the grown file, and the checksum under the layout read again from it.
unfoldable pub fill_headers : ℕ → PeLayout → Bytes → ℕ → Bytes → Result Failure Bytes
unfolding align parse_pe_layout recompute_checksum
fill_headers spare l header section_end out = do
  with_header ← put_header spare (insert_at l) header out
  counted ← put16 (l.file_header_offset + 2) (l.number_of_sections + 1) with_header
  current ← read32 l.size_of_image_off counted
  let image_size = new_size_of_image current (align section_end l.section_alignment)
  sized ← put32 l.size_of_image_off image_size counted
  again ← parse_pe_layout sized
  recompute_checksum again sized

unfoldable pub append_section : ℕ → Bytes → Bytes → Bytes → ℕ → Result Failure Bytes
unfolding parse_pe_layout align section_header section_area fill_headers
append_section spare pe name section vma =
    if ltb 8 (length name) then err Failure.name_too_long else do
      l ← parse_pe_layout pe
      size_of_headers ← read32 l.size_of_headers_off pe
      let raw_size = align (length section) l.file_alignment
      let raw_offset = align (length pe) l.file_alignment
      let header = section_header name (length section) vma raw_size raw_offset
      if ltb size_of_headers (new_header_end l)
          then err Failure.no_room
          else fill_headers spare l header (vma + length section)
              (pe ++ section_area l (length pe) section)

-- Rounding up to a positive alignment.
pub align-bounds : (n a : ℕ) → a ≢ 0 → (n ≤ align n a) × (align n a < n + a)
unfolding align
align-bounds n zero h = absurd (h refl)
align-bounds n (suc a) h = (omega arith, omega arith)

abbrev HasLength : ℕ → Bytes → Type 0
HasLength n pe = length pe ≡ n

put32-length : (k v n : ℕ) (pe : Bytes) → HasLength n pe → Holds (HasLength n) (put32 k v pe)
put32-length k v n pe h = ground (arith, length-splice k (le32 v) pe)

put16-length : (k v n : ℕ) (pe : Bytes) → HasLength n pe → Holds (HasLength n) (put16 k v pe)
put16-length k v n pe h = ground (arith, length-splice k (le16 v) pe)

put_header-length :
    (spare at n : ℕ) (header pe : Bytes)
    → HasLength n pe
    → Holds (HasLength n) (put_header spare at header pe)
put_header-length spare at n header pe h = ground (arith, length-splice at header pe)

recompute_checksum-length :
    (l : PeLayout) (n : ℕ) (pe : Bytes)
    → HasLength n pe
    → Holds (HasLength n) (recompute_checksum l pe)
unfolding recompute_checksum
recompute_checksum-length l n pe h =
    Holds-bind (HasLength n) (HasLength n) (put32 l.checksum_off 0 pe) _
      (put32-length l.checksum_off 0 n pe h)
      (λ cleared k. put32-length l.checksum_off (pe_checksum cleared l.checksum_off) n cleared k)

-- No write makes the file longer.
fill_headers-length :
    (spare : ℕ) (l : PeLayout) (header : Bytes) (section_end n : ℕ) (out : Bytes)
    → HasLength n out
    → Holds (HasLength n) (fill_headers spare l header section_end out)
unfolding fill_headers
fill_headers-length spare l header section_end n out h =
    Holds-bind (HasLength n) (HasLength n) (put_header spare (insert_at l) header out) _
      (put_header-length spare (insert_at l) n header out h)
      (λ a ha.
        Holds-bind (HasLength n) (HasLength n)
          (put16 (l.file_header_offset + 2) (l.number_of_sections + 1) a) _
          (put16-length (l.file_header_offset + 2) (l.number_of_sections + 1) n a ha)
          (λ b hb. Holds-any (HasLength n) (read32 l.size_of_image_off b) _ (λ current.
            let size = new_size_of_image current (align section_end l.section_alignment) in
            Holds-bind (HasLength n) (HasLength n) (put32 l.size_of_image_off size b) _
              (put32-length l.size_of_image_off size n b hb)
              (λ c hc.
                Holds-any (HasLength n) (parse_pe_layout c) _
                  (λ again. recompute_checksum-length again n c hc)))))

length-section_area :
    (l : PeLayout) (size : ℕ) (section : Bytes)
    → l.file_alignment ≢ 0
    → size + length (section_area l size section)
      ≡ align size l.file_alignment + align (length section) l.file_alignment
unfolding section_area
length-section_area l size section h =
    let fill = align size l.file_alignment - size in
    let raw_size = align (length section) l.file_alignment in
    omega (
      arith,
      length-lay section (replicate (fill + raw_size) 0),
      length-replicate {A = ℕ} (fill + raw_size) 0,
      (align-bounds size l.file_alignment h).0,
    )

-- Of a file that is returned, for whatever capacity: its length is that of the old file and of the
-- section, each rounded up to the file alignment of the image.
append_section-length :
    (spare : ℕ) (pe name section : Bytes) (vma : ℕ) (l : PeLayout)
    → parse_pe_layout pe ≡ ok l
    → Holds
        (λ (out : Bytes).
          length out ≡ align (length pe) l.file_alignment + align (length section) l.file_alignment)
        (append_section spare pe name section vma)
unfolding append_section
append_section-length spare pe name section vma l e =
    let n = align (length pe) l.file_alignment + align (length section) l.file_alignment in
    let inside = Holds-ok (Inside pe) (parse_pe_layout-Inside pe) e in
    let area = section_area l (length pe) section in
    let grown : length (pe ++ area) ≡ n =
      omega
        (arith, length-append pe area, length-section_area l (length pe) section inside.aligned) in
    Holds-branch (HasLength n) (ltb 8 (length name)) _ _ (λ short. rw e (
      Holds-any (HasLength n) (read32 l.size_of_headers_off pe) _ (λ size_of_headers.
        Holds-branch (HasLength n) (ltb size_of_headers (new_header_end l)) _ _
          (λ room. fill_headers-length spare l _ (vma + length section) n (pe ++ area) grown))))

-- ===== src/Pecoff/Placement.antt =====
-- Where `appendSection` of internal/secureboot/pecoff.go puts the bytes of the section.
use mathlib.Core.Path.{subst}
use cnimbus.Common.{
  Bool, Holds, Holds-any, Holds-bind, Holds-branch, Holds-ok, Holds-weaken, ap, arith, drop, length,
  length-replicate, ltb, ok, refl, replicate, sym, take, ℕ, ◌++◌, ◌+◌, ◌-◌, ◌||◌, ◌∙◌, ◌≡◌, ◌≢◌,
  ◌≤◌,
}
use cnimbus.Common.Bytes.{Bytes, le16, le32, le_uint32, length-splice, splice}
use cnimbus.Common.Windows.{
  drop-append, drop-splice, le_uint32-append, le_uint32-splice_before, take-lay_over,
}
use cnimbus.Pecoff.Checksum.{pe_checksum, recompute_checksum}
use cnimbus.Pecoff.Layout.{
  Inside, PeLayout, align, headers, magic_fields, optional_fields, parse_pe_layout,
  parse_pe_layout-Holds, parse_pe_layout-Inside, pe_kind, put32, read16, read32,
}
use cnimbus.Pecoff.Section.{
  align-bounds, append_section, fill_headers, insert_at, new_header_end, new_size_of_image, put16,
  put_header, section_area, section_header,
}
use cnimbus.Rootfs.Cpio.{header}

-- The bytes from `n` on, and the pointer to the PE header, are those of `base`.
record Kept (n : ℕ) (base x : Bytes) : Type 0 where
  behind : drop n x ≡ drop n base
  pointer : le_uint32 0x3C x ≡ le_uint32 0x3C base

splice-Kept :
    (n k : ℕ) (ys base x : Bytes)
    → 64 ≤ k
    → k + length ys ≤ n
    → Kept n base x
    → Kept n base (splice k ys x)
splice-Kept n k ys base x lo hi h = record {
  behind = drop-splice k n ys x hi ∙ h.behind;
  pointer = le_uint32-splice_before k 0x3C ys x (omega arith) ∙ h.pointer;
}

put32-Kept :
    (n k v : ℕ) (base x : Bytes)
    → 64 ≤ k
    → k + 4 ≤ n
    → Kept n base x
    → Holds (Kept n base) (put32 k v x)
put32-Kept n k v base x lo hi h =
    Holds-branch (Kept n base) (ltb (length x) (k + 4)) _ _
      (λ inside. splice-Kept n k (le32 v) base x lo hi h)

put16-Kept :
    (n k v : ℕ) (base x : Bytes)
    → 64 ≤ k
    → k + 2 ≤ n
    → Kept n base x
    → Holds (Kept n base) (put16 k v x)
put16-Kept n k v base x lo hi h =
    Holds-branch (Kept n base) (ltb (length x) (k + 2)) _ _
      (λ inside. splice-Kept n k (le16 v) base x lo hi h)

put_header-Kept :
    (n spare k : ℕ) (header base x : Bytes)
    → 64 ≤ k
    → k + length header ≤ n
    → Kept n base x
    → Holds (Kept n base) (put_header spare k header x)
put_header-Kept n spare k header base x lo hi h =
    Holds-branch (Kept n base) (ltb (length x + spare) (k + 40)) _ _
      (λ inside. splice-Kept n k header base x lo hi h)

recompute_checksum-Kept :
    (n : ℕ) (l : PeLayout) (base x : Bytes)
    → 64 ≤ l.checksum_off
    → l.checksum_off + 4 ≤ n
    → Kept n base x
    → Holds (Kept n base) (recompute_checksum l x)
unfolding recompute_checksum
recompute_checksum-Kept n l base x lo hi h =
    Holds-bind (Kept n base) (Kept n base) (put32 l.checksum_off 0 x) _
      (put32-Kept n l.checksum_off 0 base x lo hi h)
      (λ cleared k.
        put32-Kept n l.checksum_off (pe_checksum cleared l.checksum_off) base cleared lo hi k)

-- The offsets that a layout has from the pointer alone.
record Fixed (nt : ℕ) (l : PeLayout) : Type 0 where
  file_header : l.file_header_offset ≡ nt + 4
  image_size : l.size_of_image_off ≡ nt + 80
  checksum : l.checksum_off ≡ nt + 88
  sections : nt + 24 ≤ l.section_header_offset

optional_fields-Fixed :
    (pe : Bytes) (nt sections optional_size : ℕ) (plus : Bool)
    → Holds (Fixed nt) (optional_fields pe nt sections optional_size plus)
unfolding optional_fields
optional_fields-Fixed pe nt sections optional_size plus = ground arith

headers-Fixed : (pe : Bytes) (nt : ℕ) → Holds (Fixed nt) (headers pe nt)
unfolding headers magic_fields
headers-Fixed pe nt = Holds-any _ (read16 (nt + 4 + 2) pe) _ (λ sections.
    Holds-any _ (read16 (nt + 4 + 16) pe) _ (λ optional_size.
      Holds-branch (Fixed nt)
        (ltb (length pe) (nt + 4 + 20 + optional_size) || ltb (length pe) (nt + 4 + 20 + 2)) _ _
        (λ inside. Holds-any _ (read16 (nt + 4 + 20) pe) _ (λ magic.
          Holds-any _ (pe_kind magic) _
            (λ plus. optional_fields-Fixed pe nt sections optional_size plus)))))

parse_pe_layout-Fixed : (pe : Bytes) → Holds (Fixed (le_uint32 0x3C pe)) (parse_pe_layout pe)
parse_pe_layout-Fixed pe =
    parse_pe_layout-Holds (Fixed (le_uint32 0x3C pe)) pe (headers-Fixed pe (le_uint32 0x3C pe))

fill_headers-Kept :
    (n spare : ℕ) (l : PeLayout) (header : Bytes) (section_end : ℕ) (out : Bytes)
    → 64 ≤ le_uint32 0x3C out
    → Fixed (le_uint32 0x3C out) l
    → insert_at l + length header ≤ n
    → le_uint32 0x3C out + 92 ≤ n
    → Holds (Kept n out) (fill_headers spare l header section_end out)
unfolding fill_headers
fill_headers-Kept n spare l header section_end out nt fixed room small =
    let kept : Kept n out out = record { behind = refl; pointer = refl } in
    let at : 64 ≤ insert_at l = omega (arith, fixed.sections) in
    let counter = l.file_header_offset + 2 in
    let size_off = l.size_of_image_off in
    Holds-bind (Kept n out) (Kept n out) (put_header spare (insert_at l) header out) _
      (put_header-Kept n spare (insert_at l) header out out at room kept)
      (λ a ha.
        Holds-bind (Kept n out) (Kept n out) (put16 counter (l.number_of_sections + 1) a) _
          (put16-Kept n counter (l.number_of_sections + 1) out a (omega (arith, fixed.file_header))
            (omega (arith, fixed.file_header)) ha)
          (λ b hb. Holds-any (Kept n out) (read32 size_off b) _ (λ current.
            let size = new_size_of_image current (align section_end l.section_alignment) in
            Holds-bind (Kept n out) (Kept n out) (put32 size_off size b) _
              (put32-Kept n size_off size out b (omega (arith, fixed.image_size))
                (omega (arith, fixed.image_size)) hb)
              (λ c hc.
                Holds-bind (Fixed (le_uint32 0x3C c)) (Kept n out) (parse_pe_layout c) _
                  (parse_pe_layout-Fixed c)
                  (λ again f.
                    recompute_checksum-Kept n again out c (omega (arith, f.checksum, hc.pointer))
                      (omega (arith, f.checksum, hc.pointer)) hc)))))

length-section_header :
    (name : Bytes) (size vma raw_size raw_offset : ℕ)
    → length (section_header name size vma raw_size raw_offset) ≡ 40
unfolding section_header
length-section_header name size vma raw_size raw_offset = simp length-splice refl

take-section_area :
    (l : PeLayout) (size : ℕ) (section : Bytes)
    → l.file_alignment ≢ 0
    → take (length section) (section_area l size section) ≡ section
unfolding section_area
take-section_area l size section h =
    let fill = align size l.file_alignment - size in
    let raw_size = align (length section) l.file_alignment in
    take-lay_over section (replicate (fill + raw_size) 0) (
      omega (
        arith,
        length-replicate {A = ℕ} (fill + raw_size) 0,
        (align-bounds (length section) l.file_alignment h).0,
      ))

-- For an image whose PE header does not overlap the DOS header, and whose new section header lies
-- in the file: the bytes of the section stand where the old file ended, in every file that
-- appendSection returns.
pub append_section-placement :
    (spare : ℕ) (pe name section : Bytes) (vma : ℕ) (l : PeLayout)
    → parse_pe_layout pe ≡ ok l
    → 64 ≤ le_uint32 0x3C pe
    → new_header_end l ≤ length pe
    → Holds
        (λ (out : Bytes). take (length section) (drop (length pe) out) ≡ section)
        (append_section spare pe name section vma)
unfolding append_section
append_section-placement spare pe name section vma l e nt room =
    let inside = Holds-ok (Inside pe) (parse_pe_layout-Inside pe) e in
    let fixed = Holds-ok (Fixed (le_uint32 0x3C pe)) (parse_pe_layout-Fixed pe) e in
    let area = section_area l (length pe) section in
    let out = pe ++ area in
    let raw_size = align (length section) l.file_alignment in
    let raw_offset = align (length pe) l.file_alignment in
    let header = section_header name (length section) vma raw_size raw_offset in
    let same : le_uint32 0x3C out ≡ le_uint32 0x3C pe =
      le_uint32-append 0x3C pe area
        (omega (arith, inside.directory_in, inside.directory_apart, fixed.checksum)) in
    Holds-branch _ (ltb 8 (length name)) _ _ (λ short. rw e (
      Holds-any _ (read32 l.size_of_headers_off pe) _ (λ size_of_headers.
        Holds-branch _ (ltb size_of_headers (new_header_end l)) _ _ (λ enough.
          Holds-weaken (Kept (length pe) out) _
            (fill_headers spare l header (vma + length section) out)
            (λ x kept.
              ap (take (length section)) (kept.behind ∙ drop-append pe area)
              ∙ take-section_area l (length pe) section inside.aligned)
            (fill_headers-Kept (length pe) spare l header (vma + length section) out
              (omega (arith, same)) (subst (λ (n : ℕ). Fixed n l) (sym same) fixed)
              (omega (arith, length-section_header name (length section) vma raw_size raw_offset))
              (omega
                (arith, same, inside.directory_in, inside.directory_apart, fixed.checksum)))))))

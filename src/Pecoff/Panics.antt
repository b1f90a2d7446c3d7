-- ===== src/Pecoff/Panics.antt =====
-- Where `parsePELayout` and `authenticodeDigest` of internal/secureboot/pecoff.go index outside the file.
use cnimbus.Common.{
  Bool, Result, [], ap, arith, err, false, if◌then◌else◌, length, ltb, not, ok, refl, true, ℕ, ◌+◌,
  ◌<◌, ◌==◌, ◌>>=◌, ◌||◌, ◌↔◌, ◌∷◌, ◌≡◌, ◌≢◌, ◌≤◌,
}
use cnimbus.Common.Bytes.{Bytes, le_uint32}
use cnimbus.Pecoff.Digest.{authenticode_digest}
use cnimbus.Pecoff.Layout.{
  Failure, Inside, PeLayout, bytes_at, headers, magic_fields, not_pe, nt_headers, optional_fields,
  panicked, parse_pe_layout, pe_kind, read16, read32, security_off,
}

-- What holds if a step panics.
Panics : {A : Type 0} → Type 0 → Result Failure A → Type 0
Panics P r = r ≡ err panicked → P

-- A step that does not panic in the case at hand.
Panics-bind :
    {A B : Type 0} (P : Type 0) (m : Result Failure A) (f : A → Result Failure B)
    → Panics P m
    → ((a : A) → m ≡ ok a → Panics P (f a))
    → Panics P (m >>= f)
unfolding Panics
Panics-bind P (ok a) f h k e = k a refl e
Panics-bind P (err x) f h k e = let same : x ≡ panicked = cc in h (ap err same)

Panics-branch :
    {A : Type 0} (P : Type 0) (b : Bool) (m : Result Failure A)
    → (b ≡ false → Panics P m)
    → Panics P (if b then err not_pe else m)
unfolding Panics
Panics-branch P true m h e = cc
Panics-branch P false m h e = h refl e

bytes_at-panicked :
    (k : ℕ) (cs pe : Bytes) → bytes_at k cs pe ≡ err panicked → length pe < k + length cs
unfolding bytes_at
bytes_at-panicked k [] pe h = cc
bytes_at-panicked k (c ∷ cs) pe h = ground (arith, bytes_at-panicked (k + 1) cs pe)

optional_fields-panicked :
    (pe : Bytes) (nt sections optional_size : ℕ) (plus : Bool)
    → optional_fields pe nt sections optional_size plus ≡ err panicked
    → length pe < nt + 68
unfolding optional_fields
optional_fields-panicked pe nt sections optional_size plus h = ground arith

-- Where a file ends that makes `parsePELayout` panic.
pub record EndsInOptionalHeader (pe : Bytes) : Type 0 where
  pub dos_header : 0x40 ≤ length pe
  pub pointer : le_uint32 0x3C pe ≢ 0
  pub magic_number : le_uint32 0x3C pe + 26 ≤ length pe
  pub ends : length pe < le_uint32 0x3C pe + 68

abbrev LateEnd : Bytes → ℕ → Type 0
LateEnd pe nt = (nt + 26 ≤ length pe) × (length pe < nt + 68)

headers-panicked :
    (pe : Bytes) (nt : ℕ) → nt + 24 ≤ length pe → Panics (LateEnd pe nt) (headers pe nt)
unfolding headers magic_fields Panics
headers-panicked pe nt inside =
    Panics-bind (LateEnd pe nt) (read16 (nt + 4 + 2) pe) _ (λ e. ground arith)
      (λ sections e1.
        Panics-bind (LateEnd pe nt) (read16 (nt + 4 + 16) pe) _ (λ e. ground arith)
          (λ optional_size e2.
            Panics-branch (LateEnd pe nt)
              (ltb (length pe) (nt + 4 + 20 + optional_size) || ltb (length pe) (nt + 4 + 20 + 2)) _
              (λ there.
                Panics-bind (LateEnd pe nt) (read16 (nt + 4 + 20) pe) _ (λ e. ground arith)
                  (λ magic e3.
                    Panics-bind (LateEnd pe nt) (pe_kind magic) _ (λ e. ground arith)
                      (λ plus e4 e. (
                        ground arith,
                        optional_fields-panicked pe nt sections optional_size plus e,
                      ))))))

nt_headers-panicked :
    (pe : Bytes) → 0x40 ≤ length pe → Panics (EndsInOptionalHeader pe) (nt_headers pe)
unfolding nt_headers Panics
nt_headers-panicked pe long =
    Panics-bind (EndsInOptionalHeader pe) (read32 0x3C pe) _ (λ e. ground arith)
      (λ nt e.
        let same : nt ≡ le_uint32 0x3C pe = ground arith in
        Panics-branch (EndsInOptionalHeader pe) (nt == 0 || ltb (length pe) (nt + 4 + 20)) _
          (λ there.
            Panics-bind (EndsInOptionalHeader pe) (bytes_at nt (80 ∷ 69 ∷ 0 ∷ 0 ∷ []) pe) _
              (λ e. ground (arith, bytes_at-panicked nt (80 ∷ 69 ∷ 0 ∷ 0 ∷ []) pe e))
              (λ is_pe e1. Panics-branch (EndsInOptionalHeader pe) (not is_pe) _ (λ signed e.
                let both = headers-panicked pe nt (ground arith) e in
                record {
                  dos_header = long;
                  pointer = ground arith;
                  magic_number = omega (arith, same, both.0);
                  ends = omega (arith, same, both.1);
                }))))

-- parsePELayout panics only on a file that holds the DOS header, the PE header that its pointer
-- names and the magic number of the optional header, and ends inside the first 44 bytes of the
-- optional header: on no shorter file, and on none whose pointer leads outside it.
pub parse_pe_layout-panicked :
    (pe : Bytes) → parse_pe_layout pe ≡ err panicked → EndsInOptionalHeader pe
unfolding parse_pe_layout Panics
parse_pe_layout-panicked pe =
    Panics-branch (EndsInOptionalHeader pe) (ltb (length pe) 0x40) _ (λ long.
      let enough : 0x40 ≤ length pe = ground arith in
      Panics-bind (EndsInOptionalHeader pe) (bytes_at 0 (77 ∷ 90 ∷ []) pe) _
        (λ e. ground (arith, bytes_at-panicked 0 (77 ∷ 90 ∷ []) pe e))
        (λ is_mz e1.
          Panics-branch (EndsInOptionalHeader pe) (not is_mz) _
            (λ mz. nt_headers-panicked pe enough)))

-- For a layout of the file, the digest panics exactly if the security directory names an offset
-- that is not zero and lies before the end of its own entry.
pub authenticode_digest-panicked :
    (hash : Bytes → Bytes) (pe : Bytes) (l : PeLayout)
    → Inside pe l
    → (authenticode_digest hash pe l ≡ err panicked)
      ↔ ((le_uint32 (security_off l) pe ≢ 0) × (le_uint32 (security_off l) pe < security_off l + 8))
unfolding authenticode_digest
authenticode_digest-panicked hash pe l inside = ground arith

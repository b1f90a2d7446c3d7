-- ===== src/Pecoff/Digest.antt =====
-- `authenticodeDigest` of internal/secureboot/pecoff.go and `embedWinCertificate` of
-- internal/secureboot/authenticode.go. The hash function is a parameter, as in the code.
use cnimbus.Common.{
  Bool-cases, Holds, Holds-ok, Result, Result-cases, arith, drop, err, if◌then◌else◌, inl, inr,
  length, length-take, ltb, not, ok, refl, replicate, take, ℕ, ◌&&◌, ◌++◌, ◌+◌, ◌-◌, ◌==◌, ◌>>=◌,
  ◌≡◌, ◌≤◌,
}
use cnimbus.Common.Bytes.{Bytes, le16, le32, splice}
use cnimbus.Common.Windows.{drop-splice, take-append, take-splice, take-splice_in, take-take}
use cnimbus.Pecoff.Checksum.{recompute_checksum}
use cnimbus.Pecoff.Layout.{
  Failure, PeLayout, align, security_data_directory, security_off, set_security_data_directory,
}

-- `data[:end]` without a certificate table that lies in the file.
unfoldable pub image_end : PeLayout → Bytes → Result Failure ℕ
image_end l pe = do
  directory ← security_data_directory l pe
  let offset = directory.0
  ok (if not (offset == 0) && ltb offset (length pe) then offset else length pe)

-- `data[from:to]`, for `to` inside the slice
abbrev pub slice : ℕ → ℕ → Bytes → Result Failure Bytes
slice from to pe = if ltb to from then err Failure.panicked else ok (drop from (take to pe))

-- What is hashed: three slices around the checksum and the security directory.
abbrev pub digest_input : PeLayout → Bytes → ℕ → Result Failure Bytes
digest_input l pe end = do
  first ← slice 0 l.checksum_off pe
  second ← slice (l.checksum_off + 4) (security_off l) pe
  third ← slice (security_off l + 8) end pe
  ok (first ++ second ++ third)

unfoldable pub authenticode_digest : (Bytes → Bytes) → Bytes → PeLayout → Result Failure Bytes
unfolding image_end
authenticode_digest hash pe l = do
  end ← image_end l pe
  input ← digest_input l pe end
  ok (hash input)

-- The entry of the certificate table, with its header and its padding to 8 bytes.
abbrev pub win_certificate : Bytes → Bytes
win_certificate certificate =
    le32 (8 + length certificate) ++ le16 0x0200 ++ le16 0x0002 ++ certificate

unfoldable pub padded : Bytes → Bytes
unfolding align
padded entry = entry ++ replicate (align (length entry) 8 - length entry) 0

unfoldable pub embed_win_certificate : Bytes → PeLayout → Bytes → Result Failure Bytes
unfolding image_end padded recompute_checksum
embed_win_certificate pe l certificate = do
  end ← image_end l pe
  let base = take end pe
  let entry = padded (win_certificate certificate)
  signed ← set_security_data_directory l (base ++ entry) (length base) (length entry)
  recompute_checksum l signed

-- A slice depends only on the bytes that it takes.
slice-before :
    (from to k : ℕ) (ys pe : Bytes) → to ≤ k → slice from to (splice k ys pe) ≡ slice from to pe
slice-before from to k ys pe h = rw (take-splice k to ys pe h) refl

slice-after :
    (from to k : ℕ) (ys pe : Bytes)
    → k + length ys ≤ from
    → slice from to (splice k ys pe) ≡ slice from to pe
slice-after from to k ys pe h = elim (Bool-cases (ltb to from)) [
  | inl t ↦ rw t refl
  | inr f ↦
      let le : k + length ys ≤ to = ground arith in
      rw (take-splice_in k to ys pe le, drop-splice k from ys (take to pe) h) refl
]

slice-prefix :
    (from to end : ℕ) (pe : Bytes) (rest : Bytes)
    → to ≤ end
    → end ≤ length pe
    → slice from to (take end pe ++ rest) ≡ slice from to pe
slice-prefix from to end pe rest h k =
    rw
      (take-append to (take end pe) rest (omega (arith, length-take end pe)), take-take to end pe h)
      refl

-- The checksum is not hashed, nor is the security directory.
pub digest_input-checksum :
    (l : PeLayout) (pe : Bytes) (end v : ℕ)
    → l.checksum_off + 48 ≡ l.data_dir_off
    → digest_input l (splice l.checksum_off (le32 v) pe) end ≡ digest_input l pe end
digest_input-checksum l pe end v h =
    let off = l.checksum_off in
    rw
      (
        slice-before 0 off off (le32 v) pe (omega arith),
        slice-after (off + 4) (security_off l) off (le32 v) pe (omega arith),
        slice-after (security_off l + 8) end off (le32 v) pe (omega arith),
      )
      refl

pub digest_input-directory :
    (l : PeLayout) (pe : Bytes) (end k v : ℕ)
    → l.checksum_off + 48 ≡ l.data_dir_off
    → security_off l ≤ k
    → k ≤ security_off l + 4
    → digest_input l (splice k (le32 v) pe) end ≡ digest_input l pe end
digest_input-directory l pe end k v h lo hi =
    let off = l.checksum_off in
    rw
      (
        slice-before 0 off k (le32 v) pe (omega arith),
        slice-before (off + 4) (security_off l) k (le32 v) pe lo,
        slice-after (security_off l + 8) end k (le32 v) pe (omega arith),
      )
      refl

pub digest_input-prefix :
    (l : PeLayout) (pe : Bytes) (end : ℕ) (rest : Bytes)
    → l.checksum_off + 48 ≡ l.data_dir_off
    → security_off l + 8 ≤ end
    → end ≤ length pe
    → digest_input l (take end pe ++ rest) end ≡ digest_input l pe end
digest_input-prefix l pe end rest h lo hi =
    let off = l.checksum_off in
    rw
      (
        slice-prefix 0 off end pe rest (omega arith) hi,
        slice-prefix (off + 4) (security_off l) end pe rest (omega arith) hi,
        slice-prefix (security_off l + 8) end end pe rest (omega arith) hi,
      )
      refl

image_end-le : (l : PeLayout) (pe : Bytes) → Holds (λ (e : ℕ). e ≤ length pe) (image_end l pe)
unfolding image_end
image_end-le l pe = ground arith

-- A digest is computed only of an image that reaches past its security directory.
pub authenticode_digest-end :
    (hash : Bytes → Bytes) (pe : Bytes) (l : PeLayout) (d : Bytes)
    → authenticode_digest hash pe l ≡ ok d
    → (end : ℕ) × (image_end l pe ≡ ok end)
      × (security_off l + 8 ≤ end)
      × (end ≤ length pe)
      × ((digest_input l pe end >>= λ (b : Bytes). ok (hash b)) ≡ ok d)
unfolding authenticode_digest
authenticode_digest-end hash pe l d h = elim (Result-cases (image_end l pe)) [
  | inl (end, e) ↦ (
    end,
    e,
    ground arith,
    Holds-ok (λ (e : ℕ). e ≤ length pe) (image_end-le l pe) e,
    ground (arith, e),
  )
  | inr (f, e) ↦ absurd (ground (arith, e))
]

-- ===== src/Pecoff/Signature.antt =====
-- A signature put into a PE image by `embedWinCertificate` leaves its Authenticode digest.
use mathlib.Core.Path.{subst}
use cnimbus.Common.{
  ap, arith, drop, length, length-append, length-take, ok, refl, replicate, take, ℕ, ◌++◌, ◌+◌, ◌-◌,
  ◌<◌, ◌>>=◌, ◌^◌, ◌∙◌, ◌≡◌, ◌≤◌,
}
use cnimbus.Common.Bytes.{Bytes, le32, le_uint32, le_uint32-splice, length-splice, splice}
use cnimbus.Common.Windows.{
  drop-append, drop-splice, le_uint32-splice_after, le_uint32-splice_before,
}
use cnimbus.Pecoff.Checksum.{put32-ok, recompute_checksum, recompute_checksum-splice}
use cnimbus.Pecoff.Digest.{
  authenticode_digest, authenticode_digest-end, digest_input, digest_input-checksum,
  digest_input-directory, digest_input-prefix, embed_win_certificate, image_end, padded,
  win_certificate,
}
use cnimbus.Pecoff.Layout.{Inside, PeLayout, align, security_off, set_security_data_directory}

-- The directory entry and the checksum over the bytes of a file.
abbrev patched : PeLayout → ℕ → ℕ → ℕ → Bytes → Bytes
patched l offset size sum pe =
    splice l.checksum_off (le32 sum)
      (splice (security_off l + 4) (le32 size) (splice (security_off l) (le32 offset) pe))

length-patched :
    (l : PeLayout) (offset size sum : ℕ) (pe : Bytes)
    → length (patched l offset size sum pe) ≡ length pe
length-patched l offset size sum pe = simp length-splice refl

patched-offset :
    (l : PeLayout) (offset size sum : ℕ) (pe : Bytes)
    → l.checksum_off + 48 ≡ l.data_dir_off
    → security_off l + 4 ≤ length pe
    → offset < 2 ^ 32
    → le_uint32 (security_off l) (patched l offset size sum pe) ≡ offset
patched-offset l offset size sum pe h k lt =
    let so = security_off l in
    let one = splice so (le32 offset) pe in
    le_uint32-splice_after l.checksum_off so (le32 sum) (splice (so + 4) (le32 size) one)
      (omega arith)
    ∙ le_uint32-splice_before (so + 4) so (le32 size) one (omega arith)
    ∙ le_uint32-splice so offset pe k lt

digest_input-patched :
    (l : PeLayout) (offset size sum end : ℕ) (pe : Bytes)
    → l.checksum_off + 48 ≡ l.data_dir_off
    → digest_input l (patched l offset size sum pe) end ≡ digest_input l pe end
digest_input-patched l offset size sum end pe h =
    let so = security_off l in
    let one = splice so (le32 offset) pe in
    digest_input-checksum l (splice (so + 4) (le32 size) one) end sum h
    ∙ digest_input-directory l one end (so + 4) size h (omega arith) (omega arith)
    ∙ digest_input-directory l pe end so offset h (omega arith) (omega arith)

drop-patched :
    (l : PeLayout) (offset size sum end : ℕ) (pe : Bytes)
    → l.checksum_off + 48 ≡ l.data_dir_off
    → security_off l + 8 ≤ end
    → drop end (patched l offset size sum pe) ≡ drop end pe
drop-patched l offset size sum end pe h k =
    let so = security_off l in
    let one = splice so (le32 offset) pe in
    drop-splice l.checksum_off end (le32 sum) (splice (so + 4) (le32 size) one) (omega arith)
    ∙ drop-splice (so + 4) end (le32 size) one (omega arith)
    ∙ drop-splice so end (le32 offset) pe (omega arith)

image_end-directory :
    (l : PeLayout) (pe : Bytes) (end : ℕ)
    → security_off l + 8 ≤ end
    → end < length pe
    → le_uint32 (security_off l) pe ≡ end
    → image_end l pe ≡ ok end
unfolding image_end
image_end-directory l pe end h k e = ground arith

-- The two writes of the code after the certificate is appended.
signed-patched :
    (l : PeLayout) (offset size : ℕ) (pe : Bytes)
    → l.checksum_off + 48 ≡ l.data_dir_off
    → security_off l + 8 ≤ length pe
    → (sum : ℕ) × ((set_security_data_directory l pe offset size >>= recompute_checksum l)
        ≡ ok (patched l offset size sum pe))
signed-patched l offset size pe h k =
    let so = security_off l in
    let one = splice so (le32 offset) pe in
    let two = splice (so + 4) (le32 size) one in
    let len1 = length-splice so (le32 offset) pe in
    let len2 = length-splice (so + 4) (le32 size) one in
    let (sum, r) = recompute_checksum-splice l two (omega arith) in
    (sum, rw (put32-ok so offset pe (omega arith), put32-ok (so + 4) size one (omega arith)) r)

embed_win_certificate-patched :
    (pe : Bytes) (l : PeLayout) (certificate : Bytes) (end : ℕ)
    → l.checksum_off + 48 ≡ l.data_dir_off
    → image_end l pe ≡ ok end
    → security_off l + 8 ≤ end
    → end ≤ length pe
    → (sum : ℕ) × (embed_win_certificate pe l certificate
        ≡ ok (
            patched l end
              (length (padded (win_certificate certificate)))
              sum
              (take end pe ++ padded (win_certificate certificate))))
unfolding embed_win_certificate
embed_win_certificate-patched pe l certificate end h e lo hi =
    let entry = padded (win_certificate certificate) in
    let raw = take end pe ++ entry in
    let len : length (take end pe) ≡ end = omega (arith, length-take end pe) in
    let total = length-append (take end pe) entry in
    let (sum, r) = signed-patched l (length (take end pe)) (length entry) raw h (omega arith) in
    (sum, rw e (r ∙ ap (λ (n : ℕ). ok (patched l n (length entry) sum raw)) len))

length-padded : (certificate : Bytes) → 8 ≤ length (padded (win_certificate certificate))
unfolding padded
length-padded certificate = omega (
  arith,
  length-append (win_certificate certificate) (
      replicate
        (align (length (win_certificate certificate)) 8 - length (win_certificate certificate)) 0),
)

-- For a layout of the file, below 4 GiB, whose digest can be computed: the certificate can be
-- embedded, the signed file has the same digest under the same layout, and from the offset that
-- the directory names on, it consists of the certificate's entry.
pub embed_win_certificate-digest :
    (hash : Bytes → Bytes) (pe : Bytes) (l : PeLayout) (certificate d : Bytes)
    → Inside pe l
    → length pe < 2 ^ 32
    → authenticode_digest hash pe l ≡ ok d
    → (out : Bytes) × (embed_win_certificate pe l certificate ≡ ok out)
      × (authenticode_digest hash out l ≡ ok d)
      × (drop (le_uint32 (security_off l) out) out ≡ padded (win_certificate certificate))
unfolding authenticode_digest
embed_win_certificate-digest hash pe l certificate d inside small digest =
    let (end, e, lo, hi, input) = authenticode_digest-end hash pe l d digest in
    let h = inside.directory_apart in
    let entry = padded (win_certificate certificate) in
    let raw = take end pe ++ entry in
    let (sum, embedded) = embed_win_certificate-patched pe l certificate end h e lo hi in
    let out = patched l end (length entry) sum raw in
    let len : length (take end pe) ≡ end = omega (arith, length-take end pe) in
    let total = length-append (take end pe) entry in
    let at = patched-offset l end (length entry) sum raw h (omega arith) (omega arith) in
    let out_length = length-patched l end (length entry) sum raw in
    let same_end = image_end-directory l out end lo (omega (arith, length-padded certificate)) at in
    let same =
      digest_input-patched l end (length entry) sum end raw h
      ∙ digest_input-prefix l pe end entry h lo hi in
    (
      out,
      embedded,
      rw (same_end, same) input,
      rw (at, drop-patched l end (length entry) sum end raw h lo)
          (subst (λ (n : ℕ). drop n raw ≡ entry) len (drop-append (take end pe) entry)),
    )

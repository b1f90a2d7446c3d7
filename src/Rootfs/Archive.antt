-- ===== src/Rootfs/Archive.antt =====
-- The kernel's reader on the archives of `buildCPIO`.
use mathlib.Core.List.{append-nil, append_assoc, map}
use cnimbus.Common.{
  All, List, [], ap, arith, false, length, ok, refl, suc, sym, true, zero, ℕ, ◌++◌, ◌+◌, ◌<◌, ◌∙◌,
  ◌∷◌, ◌≡◌,
}
use cnimbus.Common.Bytes.{Bytes}
use cnimbus.Common.Text.{codes, eqt, has_prefix}
use cnimbus.Rootfs.Cpio.{
  build_cpio, entry_content, entry_mode, header, header_fields, hex_fields, next_ino, pad,
  write_entries, write_entry,
}
use cnimbus.Rootfs.Types.{TreeEntry}
use cnimbus.Rootfs.Unpack.{
  Member, Small, length-header, member_of-entry, read_archive, read_fields-hex_fields, read_member,
}

write_entry-parts :
    (ino : ℕ) (name : Bytes) (mode : ℕ) (content rest : Bytes)
    → write_entry ino name mode content ++ rest
      ≡ codes "070701"
        ++ (hex_fields (header_fields ino mode (length content) (length name + 1))
            ++ (name
                ++ (0
                    ∷ (pad (length (header ino name mode content) + length name + 1)
                        ++ (content ++ (pad (length content) ++ rest))))))
unfolding write_entry header
write_entry-parts ino name mode content rest = simp append_assoc refl

-- Numbers that fit into the fields of a header.
abbrev pub Fits : ℕ → Bytes → ℕ → Bytes → Type 0
Fits ino name mode content =
    Small ino × Small mode × Small (length content) × Small (length name + 1)

read_member-write_entry :
    (ino : ℕ) (name : Bytes) (mode : ℕ) (content rest : Bytes)
    → Fits ino name mode content
    → read_member (write_entry ino name mode content ++ rest)
      ≡ ok (record { name = name; mode = mode; body = content }, rest)
unfolding read_member has_prefix
read_member-write_entry ino name mode content rest h =
    let fields = header_fields ino mode (length content) (length name + 1) in
    let (ino_small, moded, size, named) = h in
    let z : Small 0 = omega arith in
    let small : All Small fields =
      (h.0, (moded, (z, (z, (omega arith, (z, (size, (z, (z, (z, (z, (named, (z, tt))))))))))))) in
    let n = length-header ino name mode content small in
    rw
      (
        write_entry-parts ino name mode content rest,
        read_fields-hex_fields fields
            (name
              ++ (0
                  ∷ (pad (length (header ino name mode content) + length name + 1)
                      ++ (content ++ (pad (length content) ++ rest)))))
            small,
      )
      (member_of-entry mode name content rest
        (length (header ino name mode content) + length name + 1) (omega (arith, n)))

-- What a member of the archive says of an entry of the tree.
abbrev pub member : TreeEntry → Member
member e = record { name = e.path; mode = entry_mode e; body = entry_content e }

-- Nothing of the entry overflows its field, and it is not taken for the trailer.
abbrev pub IsWritable : TreeEntry → Type 0
IsWritable e =
    Small (entry_mode e)
    × Small (length (entry_content e))
    × Small (length e.path + 1)
    × (eqt e.path (codes "TRAILER!!!") ≡ false)

trailer_is_trailer : eqt (codes "TRAILER!!!") (codes "TRAILER!!!") ≡ true
unfolding eqt
trailer_is_trailer = refl

read_member-trailer :
    (ino : ℕ)
    → Small ino
    → read_member (write_entry ino (codes "TRAILER!!!") 0 [])
      ≡ ok (record { name = codes "TRAILER!!!"; mode = 0; body = [] }, [])
read_member-trailer ino h =
    let entry = write_entry ino (codes "TRAILER!!!") 0 [] in
    ap read_member (sym (append-nil entry))
    ∙ read_member-write_entry ino (codes "TRAILER!!!") 0 [] []
        (h, omega arith, omega arith, omega arith)

-- One round of the reader, at the trailer and at another member.
read_archive-stop :
    (fuel : ℕ) (bs rest : Bytes) (m : Member)
    → read_member bs ≡ ok (m, rest)
    → eqt m.name (codes "TRAILER!!!") ≡ true
    → read_archive (suc fuel) bs ≡ ok []
unfolding read_archive
read_archive-stop fuel bs rest m e t = rw (e, t) refl

read_archive-step :
    (fuel : ℕ) (bs rest : Bytes) (m : Member) (ms : List Member)
    → read_member bs ≡ ok (m, rest)
    → eqt m.name (codes "TRAILER!!!") ≡ false
    → read_archive fuel rest ≡ ok ms
    → read_archive (suc fuel) bs ≡ ok (m ∷ ms)
unfolding read_archive
read_archive-step fuel bs rest m ms e t r = rw (e, t, r) refl

read_archive-write_entries :
    (fuel ino : ℕ) (es : List TreeEntry)
    → length es < fuel
    → All IsWritable es
    → read_archive fuel (write_entries ino es) ≡ ok (map member es)
unfolding write_entries
read_archive-write_entries zero ino es h w = absurd (omega arith)
read_archive-write_entries (suc fuel) ino [] h w =
    let trailer : Member = record { name = codes "TRAILER!!!"; mode = 0; body = [] } in
    read_archive-stop fuel (write_entry (next_ino ino) (codes "TRAILER!!!") 0 []) [] trailer
      (read_member-trailer (next_ino ino) (omega arith)) trailer_is_trailer
read_archive-write_entries (suc fuel) ino (e ∷ es) h w =
    let (mode, size, name, other) = w.0 in
    let next = next_ino ino in
    let rest = write_entries next es in
    read_archive-step fuel (write_entry next e.path (entry_mode e) (entry_content e) ++ rest) rest
      (member e) (map member es)
      (read_member-write_entry next e.path (entry_mode e) (entry_content e) rest
        (omega arith, mode, size, name))
      other (read_archive-write_entries fuel next es (omega arith) w.1)

-- For entries whose numbers fit their fields and that are not named like the trailer, and fuel
-- above their number: the reader gets from the archive, in order, each entry's path, mode and
-- content or link target, and stops at the trailer.
pub read_archive-build_cpio :
    (fuel : ℕ) (entries : List TreeEntry)
    → length entries < fuel
    → All IsWritable entries
    → read_archive fuel (build_cpio entries) ≡ ok (map member entries)
unfolding build_cpio
read_archive-build_cpio fuel entries h w = read_archive-write_entries fuel 1 entries h w

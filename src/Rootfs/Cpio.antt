-- ===== src/Rootfs/Cpio.antt =====
-- internal/rootfs/cpio.go: an archive in the "newc" format. The only writer of the program is a
-- buffer in memory, which takes every write: a write is its bytes.
use Prim.Native.Nat.{bit_or}
use cnimbus.Common.{
  List, [], if◌then◌else◌, length, ltb, replicate, ℕ, ◌%◌, ◌++◌, ◌+◌, ◌-◌, ◌/◌, ◌==◌, ◌^◌, ◌∷◌,
}
use cnimbus.Common.Bytes.{Bytes}
use cnimbus.Common.Text.{codes}
use cnimbus.Rootfs.Types.{TreeEntry, entry_dir, entry_file, entry_symlink}

abbrev pub hex_digit : ℕ → ℕ
hex_digit d = if ltb d 10 then 48 + d else 87 + d

-- The eight low digits of `%x`.
unfoldable pub hex8 : ℕ → Bytes
hex8 v =
    hex_digit (v / 2 ^ 28 % 16)
    ∷ hex_digit (v / 2 ^ 24 % 16)
    ∷ hex_digit (v / 2 ^ 20 % 16)
    ∷ hex_digit (v / 2 ^ 16 % 16)
    ∷ hex_digit (v / 2 ^ 12 % 16)
    ∷ hex_digit (v / 2 ^ 8 % 16)
    ∷ hex_digit (v / 2 ^ 4 % 16)
    ∷ hex_digit (v % 16)
    ∷ []

abbrev pub drop_zeros : Bytes → Bytes
drop_zeros [] = []
drop_zeros (c ∷ cs) = if c == 48 then drop_zeros cs else c ∷ cs

-- `%08x` of a number of up to 64 bits; more than eight digits are all written.
unfoldable pub hex08 : ℕ → Bytes
unfolding hex8
hex08 v = if ltb v (2 ^ 32) then hex8 v else drop_zeros (hex8 (v / 2 ^ 32)) ++ hex8 v

abbrev pub hex_fields : List ℕ → Bytes
hex_fields [] = []
hex_fields (v ∷ vs) = hex08 v ++ hex_fields vs

-- The operands of the format of `header`.
abbrev pub header_fields : ℕ → ℕ → ℕ → ℕ → List ℕ
header_fields ino mode size name_size =
    ino ∷ mode ∷ 0 ∷ 0 ∷ 1 ∷ 0 ∷ size ∷ 0 ∷ 0 ∷ 0 ∷ 0 ∷ name_size ∷ 0 ∷ []

unfoldable pub pad : ℕ → Bytes
pad n = let rem = n % 4 in if rem == 0 then [] else replicate (4 - rem) 0

unfoldable pub header : ℕ → Bytes → ℕ → Bytes → Bytes
unfolding hex08
header ino name mode content =
    codes "070701" ++ hex_fields (header_fields ino mode (length content) (length name + 1))

-- `writeEntry`, with the inode number that `c.ino++` leaves
unfoldable pub write_entry : ℕ → Bytes → ℕ → Bytes → Bytes
unfolding pad header
write_entry ino name mode content =
    let head = header ino name mode content in
    head
    ++ (name ++ (0 ∷ (pad (length head + length name + 1) ++ (content ++ pad (length content)))))

abbrev pub next_ino : ℕ → ℕ
next_ino ino = (ino + 1) % 2 ^ 32

abbrev pub entry_mode : TreeEntry → ℕ
entry_mode e = elim e.kind [
  | entry_dir ↦ bit_or 0o040000 0o755
  | entry_file ↦ bit_or 0o100000 e.perm
  | entry_symlink ↦ bit_or 0o120000 0o777
]

abbrev pub entry_content : TreeEntry → Bytes
entry_content e = elim e.kind [ entry_symlink ↦ e.link_target | _ ↦ e.content ]

-- The loop of `buildCPIO` and the trailer, from the inode number of the writer.
unfoldable pub write_entries : ℕ → List TreeEntry → Bytes
unfolding write_entry
write_entries ino [] = write_entry (next_ino ino) (codes "TRAILER!!!") 0 []
write_entries ino (e ∷ es) =
    write_entry (next_ino ino) e.path (entry_mode e) (entry_content e)
    ++ write_entries (next_ino ino) es

unfoldable pub build_cpio : List TreeEntry → Bytes
unfolding write_entries
build_cpio entries = write_entries 1 entries

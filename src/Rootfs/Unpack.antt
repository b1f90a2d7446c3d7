-- ===== src/Rootfs/Unpack.antt =====
-- How the kernel reads a "newc" archive, and that it reads back what internal/rootfs/cpio.go writes.
use mathlib.Core.List.{append_assoc}
use cnimbus.Common.{
  All, List, Result, [], ap, arith, drop, err, false, if◌then◌else◌, leb, length, length-append,
  length-replicate, ltb, not, ok, refl, suc, sym, take, zero, ℕ, ◌%◌, ◌&&◌, ◌*◌, ◌++◌, ◌+◌, ◌-◌,
  ◌/◌, ◌<◌, ◌==◌, ◌>>=◌, ◌^◌, ◌||◌, ◌∙◌, ◌∷◌, ◌≡◌,
}
use cnimbus.Common.Bytes.{Bytes}
use cnimbus.Common.Text.{codes, eqt, fields, has_prefix}
use cnimbus.Nimbus.Checks.{member}
use cnimbus.Rootfs.Cpio.{header, header_fields, hex08, hex8, hex_digit, hex_fields, pad}

pub data Malformed : Type 0 where
  malformed : Malformed

pub record Member : Type 0 where
  pub name : Bytes
  pub mode : ℕ
  pub body : Bytes

abbrev hex_value : ℕ → Result Malformed ℕ
hex_value c =
    if leb 48 c && leb c 57
    then ok (c - 48)
    else if leb 97 c && leb c 102
    then ok (c - 87)
    else err malformed

-- A number of `n` hexadecimal digits.
unfoldable pub read_hex : ℕ → ℕ → Bytes → Result Malformed (ℕ × Bytes)
read_hex zero acc bs = ok (acc, bs)
read_hex (suc n) acc [] = err malformed
read_hex (suc n) acc (c ∷ cs) = hex_value c >>= λ (d : ℕ). read_hex n (acc * 16 + d) cs

unfoldable pub read_fields : ℕ → Bytes → Result Malformed (List ℕ × Bytes)
unfolding read_hex
read_fields zero bs = ok ([], bs)
read_fields (suc n) bs = do
  field ← read_hex 8 0 bs
  others ← read_fields n field.1
  ok (field.0 ∷ others.0, others.1)

-- The bytes up to the next multiple of four.
abbrev gap : ℕ → ℕ
gap n = (4 - n % 4) % 4

abbrev body_of : ℕ → ℕ → Bytes → Bytes → Result Malformed (Member × Bytes)
body_of mode size name bs =
    if ltb (length bs) (size + gap size)
    then err malformed
    else ok (record { name = name; mode = mode; body = take size bs }, drop (size + gap size) bs)

abbrev member_of : ℕ → ℕ → ℕ → Bytes → Result Malformed (Member × Bytes)
member_of mode size name_size bs =
    let skipped = name_size + gap (110 + name_size) in
    if name_size == 0 || ltb (length bs) skipped
    then err malformed
    else body_of mode size (take (name_size - 1) bs) (drop skipped bs)

-- Mode, file size and name size are the second, seventh and twelfth field.
abbrev fields_member : List ℕ → Bytes → Result Malformed (Member × Bytes)
fields_member
      (ino ∷ mode ∷ uid ∷ gid ∷ nlink ∷ mtime ∷ size ∷ dmaj ∷ dmin ∷ rmaj ∷ rmin ∷ name_size ∷ check
        ∷ [])
      bs =
    member_of mode size name_size bs
fields_member _ bs = err malformed

unfoldable pub read_member : Bytes → Result Malformed (Member × Bytes)
unfolding read_fields has_prefix
read_member bs =
    if not (has_prefix bs (codes "070701"))
    then err malformed
    else do fields ← read_fields 13 (drop 6 bs); fields_member fields.0 fields.1

-- Up to the trailer; each member takes one unit of fuel.
unfoldable pub read_archive : ℕ → Bytes → Result Malformed (List Member)
unfolding read_member eqt
read_archive zero bs = err malformed
read_archive (suc fuel) bs = do
  member ← read_member bs
  if eqt member.0.name (codes "TRAILER!!!")
      then ok []
      else do members ← read_archive fuel member.1; ok (member.0 ∷ members)

abbrev pub Small : ℕ → Type 0
Small v = v < 2 ^ 32

hex_value-hex_digit : (d : ℕ) → d < 16 → hex_value (hex_digit d) ≡ ok d
hex_value-hex_digit d h = ground arith

read_hex-hex8 : (v : ℕ) (rest : Bytes) → Small v → read_hex 8 0 (hex8 v ++ rest) ≡ ok (v, rest)
unfolding read_hex hex8
read_hex-hex8 v rest h =
    rw
      (
        hex_value-hex_digit (v / 2 ^ 28 % 16) (omega arith),
        hex_value-hex_digit (v / 2 ^ 24 % 16) (omega arith),
        hex_value-hex_digit (v / 2 ^ 20 % 16) (omega arith),
        hex_value-hex_digit (v / 2 ^ 16 % 16) (omega arith),
        hex_value-hex_digit (v / 2 ^ 12 % 16) (omega arith),
        hex_value-hex_digit (v / 2 ^ 8 % 16) (omega arith),
        hex_value-hex_digit (v / 2 ^ 4 % 16) (omega arith),
        hex_value-hex_digit (v % 16) (omega arith),
      )
      (ap (λ (n : ℕ). ok (n, rest)) (omega arith))

hex08-Small : (v : ℕ) → Small v → hex08 v ≡ hex8 v
unfolding hex08
hex08-Small v h = ground arith

pub read_fields-hex_fields :
    (vs : List ℕ) (rest : Bytes)
    → All Small vs
    → read_fields (length vs) (hex_fields vs ++ rest) ≡ ok (vs, rest)
unfolding read_fields
read_fields-hex_fields [] rest h = refl
read_fields-hex_fields (v ∷ vs) rest h =
    rw
      (
        append_assoc (hex08 v) (hex_fields vs) rest,
        hex08-Small v h.0,
        read_hex-hex8 v (hex_fields vs ++ rest) h.0,
        read_fields-hex_fields vs rest h.1,
      )
      refl

length-hex_fields : (vs : List ℕ) → All Small vs → length (hex_fields vs) ≡ 8 * length vs
unfolding hex8
length-hex_fields [] h = refl
length-hex_fields (v ∷ vs) h =
    let n : length (hex8 v) ≡ 8 = refl in
    rw (hex08-Small v h.0)
      (omega (arith, length-append (hex8 v) (hex_fields vs), n, length-hex_fields vs h.1))

pub length-header :
    (ino : ℕ) (name : Bytes) (mode : ℕ) (content : Bytes)
    → All Small (header_fields ino mode (length content) (length name + 1))
    → length (header ino name mode content) ≡ 110
unfolding header
length-header ino name mode content h =
    omega (arith, length-hex_fields (header_fields ino mode (length content) (length name + 1)) h)

length-pad : (n : ℕ) → length (pad n) ≡ gap n
unfolding pad
length-pad n = ground (arith, length-replicate {A = ℕ} (4 - n % 4) 0)

take-here : (n : ℕ) (xs ys : Bytes) → n ≡ length xs → take n (xs ++ ys) ≡ xs
take-here zero [] ys h = refl
take-here zero (x ∷ xs) ys h = absurd (omega arith)
take-here (suc n) [] ys h = absurd (omega arith)
take-here (suc n) (x ∷ xs) ys h = ap (◌∷◌ x) (take-here n xs ys (omega arith))

drop-here : (n : ℕ) (xs ys : Bytes) → n ≡ length xs → drop n (xs ++ ys) ≡ ys
drop-here zero [] ys h = refl
drop-here zero (x ∷ xs) ys h = absurd (omega arith)
drop-here (suc n) [] ys h = absurd (omega arith)
drop-here (suc n) (x ∷ xs) ys h = drop-here n xs ys (omega arith)

body_of-content :
    (mode : ℕ) (name content rest : Bytes)
    → body_of mode (length content) name (content ++ (pad (length content) ++ rest))
      ≡ ok (record { name = name; mode = mode; body = content }, rest)
body_of-content mode name content rest =
    let size = length content in
    let bs = content ++ (pad size ++ rest) in
    let area : size + gap size ≡ length (content ++ pad size) =
      omega (arith, length-append content (pad size), length-pad size) in
    let same : bs ≡ (content ++ pad size) ++ rest = sym (append_assoc content (pad size) rest) in
    let total : length bs ≡ size + gap size + length rest =
      ap length same ∙ omega (arith, length-append (content ++ pad size) rest, area) in
    let room : ltb (length bs) (size + gap size) ≡ false = ground (arith, total) in
    let skip : drop (size + gap size) bs ≡ rest =
      ap (drop (size + gap size)) same
      ∙ drop-here (size + gap size) (content ++ pad size) rest area in
    rw (room, take-here size content (pad size ++ rest) refl, skip) refl

pub member_of-entry :
    (mode : ℕ) (name content rest : Bytes) (padding : ℕ)
    → padding ≡ 110 + length name + 1
    → member_of mode
        (length content)
        (length name + 1)
        (name ++ (0 ∷ (pad padding ++ (content ++ (pad (length content) ++ rest)))))
      ≡ ok (record { name = name; mode = mode; body = content }, rest)
member_of-entry mode name content rest padding e =
    let tail = content ++ (pad (length content) ++ rest) in
    let zeros = pad padding in
    let bs = name ++ (0 ∷ (zeros ++ tail)) in
    let skipped = length name + 1 + gap (110 + (length name + 1)) in
    let sum : padding ≡ 110 + (length name + 1) = omega arith in
    let gaps : length zeros ≡ gap (110 + (length name + 1)) = length-pad padding ∙ ap gap sum in
    let area : skipped ≡ length (name ++ (0 ∷ zeros)) =
      omega (arith, length-append name (0 ∷ zeros), gaps) in
    let same : bs ≡ (name ++ (0 ∷ zeros)) ++ tail = sym (append_assoc name (0 ∷ zeros) tail) in
    let total : length bs ≡ skipped + length tail =
      ap length same ∙ omega (arith, length-append (name ++ (0 ∷ zeros)) tail, area) in
    let room : ((length name + 1 == 0) || ltb (length bs) skipped) ≡ false =
      ground (arith, total) in
    let here : take (length name + 1 - 1) bs ≡ name =
      take-here (length name + 1 - 1) name (0 ∷ (zeros ++ tail)) (omega arith) in
    let skip : drop skipped bs ≡ tail =
      ap (drop skipped) same ∙ drop-here skipped (name ++ (0 ∷ zeros)) tail area in
    rw (room, here, skip) (body_of-content mode name content rest)

-- ===== src/Common/Bytes.antt =====
-- Byte slices: fixed-width integers and writes at an offset, like those of `encoding/binary` and `copy`.
use Prim.Native.Nat.{suc, zero, ℕ, ◌%◌, ◌/◌, ◌^◌}
use mathlib.Core.List.{List, [], ◌++◌, ◌∷◌}
use mathlib.Core.Path.{ap, refl, ◌≡◌}
use cnimbus.Common.{arith, drop, ◌*◌, ◌+◌, ◌<◌, ◌≤◌}
use cnimbus.Common.Lists.{length}

abbrev pub Bytes : Type 0
Bytes = List ℕ

-- `binary.BigEndian.PutUint16`, 32 and 64: the bytes of a value, the high ones first
abbrev pub be16 : ℕ → Bytes
be16 v = v / 2 ^ 8 % 256 ∷ v % 256 ∷ []

abbrev pub be32 : ℕ → Bytes
be32 v = v / 2 ^ 24 % 256 ∷ v / 2 ^ 16 % 256 ∷ v / 2 ^ 8 % 256 ∷ v % 256 ∷ []

abbrev pub be64 : ℕ → Bytes
be64 v = be32 (v / 2 ^ 32) ++ be32 v

-- `binary.LittleEndian.PutUint16`, 32
abbrev pub le16 : ℕ → Bytes
le16 v = v % 256 ∷ v / 2 ^ 8 % 256 ∷ []

abbrev pub le32 : ℕ → Bytes
le32 v = v % 256 ∷ v / 2 ^ 8 % 256 ∷ v / 2 ^ 16 % 256 ∷ v / 2 ^ 24 % 256 ∷ []

-- The bytes `ys` over the first bytes of `xs`; nothing grows.
unfoldable pub lay : Bytes → Bytes → Bytes
lay [] xs = xs
lay (y ∷ ys) [] = []
lay (y ∷ ys) (x ∷ xs) = y ∷ lay ys xs

-- `copy(xs[off:], ys)`
unfoldable pub splice : ℕ → Bytes → Bytes → Bytes
unfolding lay
splice zero ys xs = lay ys xs
splice (suc n) ys [] = []
splice (suc n) ys (x ∷ xs) = x ∷ splice n ys xs

pub length-lay : (ys xs : Bytes) → length (lay ys xs) ≡ length xs
unfolding lay
length-lay [] xs = refl
length-lay (y ∷ ys) [] = refl
length-lay (y ∷ ys) (x ∷ xs) = ap suc (length-lay ys xs)

pub length-splice : (n : ℕ) (ys xs : Bytes) → length (splice n ys xs) ≡ length xs
unfolding splice
length-splice zero ys xs = length-lay ys xs
length-splice (suc n) ys [] = refl
length-splice (suc n) ys (x ∷ xs) = ap suc (length-splice n ys xs)

-- `binary.LittleEndian.Uint32(xs[n:])`, Uint16, and `BigEndian.Uint32`; 0 where Go would panic
abbrev le_word : Bytes → ℕ
le_word (a ∷ b ∷ c ∷ d ∷ xs) = a + b * 2 ^ 8 + c * 2 ^ 16 + d * 2 ^ 24
le_word _ = 0

abbrev le_half : Bytes → ℕ
le_half (a ∷ b ∷ xs) = a + b * 2 ^ 8
le_half _ = 0

abbrev be_word : Bytes → ℕ
be_word (a ∷ b ∷ c ∷ d ∷ xs) = a * 2 ^ 24 + b * 2 ^ 16 + c * 2 ^ 8 + d
be_word _ = 0

unfoldable pub le_uint32 : ℕ → Bytes → ℕ
le_uint32 n xs = le_word (drop n xs)

unfoldable pub le_uint16 : ℕ → Bytes → ℕ
le_uint16 n xs = le_half (drop n xs)

unfoldable pub be_uint32 : ℕ → Bytes → ℕ
be_uint32 n xs = be_word (drop n xs)

-- A second write of the same size covers the first.
lay-lay : (ps qs xs : Bytes) → length ps ≡ length qs → lay qs (lay ps xs) ≡ lay qs xs
unfolding lay
lay-lay [] [] xs h = refl
lay-lay [] (b ∷ qs) xs h = absurd (omega arith)
lay-lay (a ∷ ps) [] xs h = absurd (omega arith)
lay-lay (a ∷ ps) (b ∷ qs) [] h = refl
lay-lay (a ∷ ps) (b ∷ qs) (x ∷ xs) h = ap (◌∷◌ b) (lay-lay ps qs xs (omega arith))

pub splice-splice :
    (n : ℕ) (ps qs xs : Bytes)
    → length ps ≡ length qs
    → splice n qs (splice n ps xs) ≡ splice n qs xs
unfolding splice
splice-splice zero ps qs xs h = lay-lay ps qs xs h
splice-splice (suc n) ps qs [] h = refl
splice-splice (suc n) ps qs (x ∷ xs) h = ap (◌∷◌ x) (splice-splice n ps qs xs h)

-- What was written is read back.
pub be_uint32-splice :
    (n v : ℕ) (xs : Bytes) → n + 4 ≤ length xs → v < 2 ^ 32 → be_uint32 n (splice n (be32 v) xs) ≡ v
unfolding be_uint32 splice
be_uint32-splice zero v (a ∷ b ∷ c ∷ d ∷ xs) h k = omega arith
be_uint32-splice zero v [] h k = absurd (omega arith)
be_uint32-splice zero v (a ∷ []) h k = absurd (omega arith)
be_uint32-splice zero v (a ∷ b ∷ []) h k = absurd (omega arith)
be_uint32-splice zero v (a ∷ b ∷ c ∷ []) h k = absurd (omega arith)
be_uint32-splice (suc n) v [] h k = absurd (omega arith)
be_uint32-splice (suc n) v (x ∷ xs) h k = be_uint32-splice n v xs (omega arith) k

pub le_uint32-splice :
    (n v : ℕ) (xs : Bytes) → n + 4 ≤ length xs → v < 2 ^ 32 → le_uint32 n (splice n (le32 v) xs) ≡ v
unfolding le_uint32 splice
le_uint32-splice zero v (a ∷ b ∷ c ∷ d ∷ xs) h k = omega arith
le_uint32-splice zero v [] h k = absurd (omega arith)
le_uint32-splice zero v (a ∷ []) h k = absurd (omega arith)
le_uint32-splice zero v (a ∷ b ∷ []) h k = absurd (omega arith)
le_uint32-splice zero v (a ∷ b ∷ c ∷ []) h k = absurd (omega arith)
le_uint32-splice (suc n) v [] h k = absurd (omega arith)
le_uint32-splice (suc n) v (x ∷ xs) h k = le_uint32-splice n v xs (omega arith) k

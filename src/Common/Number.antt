-- ===== src/Common/Number.antt =====
-- The functions of Go's `strconv` and `encoding/hex` that the program uses.
use Prim.Native.Nat.{suc, zero, ℕ, ◌%◌, ◌*◌, ◌+◌, ◌-◌, ◌/◌, ◌^◌}
use mathlib.Core.Bool.{Bool, false, true, ◌&&◌, ◌||◌}
use mathlib.Core.List.{[], ◌∷◌}
use mathlib.Core.Option.{Option, none, some}
use cnimbus.Common.Lists.{length}
use cnimbus.Common.Tests.{if◌then◌else◌, leb, ltb, ◌==◌}
use cnimbus.Common.Text.{Text, codes, eqt}

-- `negsuc n` is -(n + 1).
pub data ℤ : Type 0 where
  pos : ℕ → ℤ
  negsuc : ℕ → ℤ

-- the value of a digit in base `base`, at most 10
unfoldable pub digit : ℕ → ℕ → Option ℕ
digit base c = if leb b'0' c && ltb c (b'0' + base) then some (c - b'0') else none

unfoldable pub digits_loop : ℕ → ℕ → Text → Option ℕ
unfolding digit
digits_loop base n [] = some n
digits_loop base n (c ∷ s) = elim (digit base c) [
  | none ↦ none
  | some d ↦ digits_loop base (n * base + d) s
]

-- The digits of a number; at least one.
unfoldable pub magnitude : ℕ → Text → Option ℕ
unfolding digits_loop
magnitude base [] = none
magnitude base (c ∷ s) = digits_loop base 0 (c ∷ s)

abbrev at_most : ℕ → Option ℕ → Option ℕ
at_most top none = none
at_most top (some n) = if leb n top then some n else none

abbrev negative : Option ℕ → Option ℤ
negative none = none
negative (some zero) = some (pos 0)
negative (some (suc n)) = some (negsuc n)

abbrev positive : Option ℕ → Option ℤ
positive none = none
positive (some n) = some (pos n)

-- strconv.Atoi, `int` of 64 bits
unfoldable pub atoi : Text → Option ℤ
unfolding magnitude
atoi [] = none
atoi (c ∷ s) =
    if c == b'-'
    then negative (at_most (2 ^ 63) (magnitude 10 s))
    else positive (at_most (2 ^ 63 - 1) (magnitude 10 (if c == b'+' then s else c ∷ s)))

-- strconv.ParseUint(s, base, bits), for a base from 2 to 10
unfoldable pub parse_uint : ℕ → ℕ → Text → Option ℕ
unfolding magnitude
parse_uint base bits s = at_most (2 ^ bits - 1) (magnitude base s)

-- strconv.ParseBool
unfoldable pub parse_bool : Text → Option Bool
unfolding eqt
parse_bool s =
    if eqt s (codes "1")
      || eqt s (codes "t")
      || eqt s (codes "T")
      || eqt s (codes "TRUE")
      || eqt s (codes "true")
      || eqt s (codes "True")
    then some true
    else if eqt s (codes "0")
        || eqt s (codes "f")
        || eqt s (codes "F")
        || eqt s (codes "FALSE")
        || eqt s (codes "false")
        || eqt s (codes "False")
    then some false
    else none

unfoldable pub is_hex : ℕ → Bool
is_hex c = leb b'0' c && leb c b'9' || leb b'a' c && leb c b'f' || leb b'A' c && leb c b'F'

unfoldable pub all_chars : (ℕ → Bool) → Text → Bool
all_chars p [] = true
all_chars p (c ∷ s) = p c && all_chars p s

-- hex.DecodeString, of which the program reads the error and the number of bytes
unfoldable pub hex_bytes : Text → Option ℕ
unfolding is_hex all_chars
hex_bytes s = if all_chars is_hex s && length s % 2 == 0 then some (length s / 2) else none

-- strconv.FormatUint in a base from 2 to 10; a number has at most as many digits as its value.
unfoldable pub format_loop : ℕ → ℕ → ℕ → Text → Text
format_loop base zero n acc = acc
format_loop base (suc fuel) n acc = elim (n / base) [
  | zero ↦ (b'0' + n % base) ∷ acc
  | suc m ↦ format_loop base fuel (suc m) ((b'0' + n % base) ∷ acc)
]

unfoldable pub format_uint : ℕ → ℕ → Text
unfolding format_loop
format_uint base n = format_loop base (suc n) n []

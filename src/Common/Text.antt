-- ===== src/Common/Text.antt =====
-- The functions of Go's `strings` package that the program uses, over lists of code points.
use Prim.Native.Char.{code}
use Prim.Native.Nat.{ℕ, ◌+◌, ◌-◌}
use Prim.Native.String.{String}
use mathlib.Core.Bool.{Bool, false, true, ◌&&◌, ◌||◌}
use mathlib.Core.List.{List, [], reverse, reverse-append, ◌∷◌}
use mathlib.Core.Logic.{◌↔◌}
use mathlib.Core.Path.{◌≡◌}
use cnimbus.Common.{ap, length-append, refl, ◌%◌, ◌++◌, ◌/◌, ◌∙◌, ◌≤◌}
use cnimbus.Common.Lists.{drop, length}
use cnimbus.Common.Tests.{if◌then◌else◌, leb, ltb, ◌==◌}
use native.Mathlib.Omega.{arith}

abbrev pub Text : Type 0
Text = List ℕ

-- A literal of the source; each one is ASCII, so that code points and bytes agree.
abbrev pub codes : String → Text
codes String.[] = []
codes (String.◌∷◌ c s) = code c ∷ codes s

unfoldable pub eqt : Text → Text → Bool
eqt [] [] = true
eqt (x ∷ xs) (y ∷ ys) = x == y && eqt xs ys
eqt _ _ = false

pub eqt_iff : (a b : Text) → (eqt a b ≡ true) ↔ (a ≡ b)
unfolding eqt
eqt_iff (x ∷ a) (y ∷ b) = ground (arith, eqt_iff a b)
eqt_iff _ _ = ground arith

pub length-reverse_text : (s : Text) → length (reverse s) ≡ length s
length-reverse_text [] = refl
length-reverse_text (c ∷ s) =
    ap length (reverse-append (c ∷ []) s)
    ∙ omega (arith, length-append (reverse s) (c ∷ []), length-reverse_text s)

-- unicode.IsSpace
unfoldable pub is_space : ℕ → Bool
is_space c =
    leb 9 c && leb c 13
    || c == 32
    || c == 0x85
    || c == 0xa0
    || c == 0x1680
    || leb 0x2000 c && leb c 0x200a
    || c == 0x2028
    || c == 0x2029
    || c == 0x202f
    || c == 0x205f
    || c == 0x3000

-- strings.TrimLeftFunc
unfoldable pub trim_left : (ℕ → Bool) → Text → Text
trim_left p [] = []
trim_left p (c ∷ s) = let rest = trim_left p s in if p c then rest else c ∷ s

pub length-trim_left : (p : ℕ → Bool) (s : Text) → length (trim_left p s) ≤ length s
unfolding trim_left
length-trim_left p [] = omega arith
length-trim_left p (c ∷ s) = ground (arith, length-trim_left p s)

-- strings.TrimRightFunc
unfoldable pub trim_right : (ℕ → Bool) → Text → Text
unfolding trim_left
trim_right p s = reverse (trim_left p (reverse s))

-- strings.TrimSpace
unfoldable pub trim_space : Text → Text
unfolding trim_right is_space
trim_space s = trim_right is_space (trim_left is_space s)

-- strings.Cut by a separator of one character: before, after, found
pub record Cut : Type 0 where
  pub before : Text
  pub after : Text
  pub found : Bool

unfoldable pub cut : ℕ → Text → Cut
cut sep [] = record { before = []; after = []; found = false }
cut sep (c ∷ s) =
    let rest = cut sep s in
    if c == sep
    then record { before = []; after = s; found = true }
    else record { before = c ∷ rest.before; after = rest.after; found = rest.found }

-- strings.Split by one character
unfoldable pub split_loop : ℕ → Text → Text → List Text
split_loop sep acc [] = reverse acc ∷ []
split_loop sep acc (c ∷ s) =
    let here = split_loop sep [] s in
    let on = split_loop sep (c ∷ acc) s in if c == sep then reverse acc ∷ here else on

unfoldable pub split : ℕ → Text → List Text
unfolding split_loop
split sep = split_loop sep []

-- strings.Fields; `word` is the field being read, backwards
unfoldable pub push_field : Text → List Text → List Text
push_field [] fs = fs
push_field (c ∷ w) fs = reverse (c ∷ w) ∷ fs

unfoldable pub fields_loop : Text → Text → List Text
unfolding push_field is_space
fields_loop word [] = push_field word []
fields_loop word (c ∷ s) =
    let here = fields_loop [] s in
    let on = fields_loop (c ∷ word) s in if is_space c then push_field word here else on

unfoldable pub fields : Text → List Text
unfolding fields_loop
fields = fields_loop []

-- strings.HasPrefix
unfoldable pub has_prefix : Text → Text → Bool
has_prefix s [] = true
has_prefix [] (p ∷ ps) = false
has_prefix (c ∷ s) (p ∷ ps) = c == p && has_prefix s ps

-- strings.TrimPrefix
unfoldable pub trim_prefix : Text → Text → Text
unfolding has_prefix
trim_prefix s p = if has_prefix s p then drop (length p) s else s

-- strings.ContainsRune
unfoldable pub contains : Text → ℕ → Bool
contains [] a = false
contains (c ∷ s) a = c == a || contains s a

-- strings.ContainsAny
unfoldable pub contains_any : Text → Text → Bool
unfolding contains
contains_any [] chars = false
contains_any (c ∷ s) chars = contains chars c || contains_any s chars

-- strings.Contains
unfoldable pub contains_text : Text → Text → Bool
unfolding has_prefix
contains_text [] sub = has_prefix [] sub
contains_text (c ∷ s) sub = has_prefix (c ∷ s) sub || contains_text s sub

-- strings.ReplaceAll(s, "\r\n", "\n")
unfoldable pub unix_newlines : Text → Text
unix_newlines [] = []
unix_newlines (c ∷ []) = c ∷ []
unix_newlines (c ∷ d ∷ s) =
    let rest = unix_newlines (d ∷ s) in if c == b'\r' && d == b'\n' then rest else c ∷ rest

-- Letters outside ASCII are mapped only where their image is ASCII: ı and ſ upwards, İ and the
-- Kelvin sign downwards. The program compares the results with ASCII words.
unfoldable pub upper : ℕ → ℕ
upper c =
    if leb b'a' c && leb c b'z'
    then c - 32
    else if c == 0x131
    then b'I'
    else if c == 0x17f
    then b'S'
    else c

unfoldable pub lower : ℕ → ℕ
lower c =
    if leb b'A' c && leb c b'Z'
    then c + 32
    else if c == 0x130
    then b'i'
    else if c == 0x212a
    then b'k'
    else c

-- len(s) of Go: the bytes of the UTF-8 encoding
unfoldable pub utf8_len : Text → ℕ
utf8_len [] = 0
utf8_len (c ∷ s) =
    (if ltb c 0x80 then 1 else if ltb c 0x800 then 2 else if ltb c 0x10000 then 3 else 4)
    + utf8_len s

-- []byte(s) of Go: the UTF-8 encoding of a code point, and of a text
abbrev utf8_char : ℕ → Text
utf8_char c =
    if ltb c 0x80
    then c ∷ []
    else if ltb c 0x800
    then (0xc0 + c / 0x40) ∷ (0x80 + c % 0x40) ∷ []
    else if ltb c 0x10000
    then (0xe0 + c / 0x1000) ∷ (0x80 + c / 0x40 % 0x40) ∷ (0x80 + c % 0x40) ∷ []
    else (0xf0 + c / 0x40000)
      ∷ (0x80 + c / 0x1000 % 0x40)
      ∷ (0x80 + c / 0x40 % 0x40)
      ∷ (0x80 + c % 0x40)
      ∷ []

unfoldable pub utf8 : Text → Text
utf8 [] = []
utf8 (c ∷ s) = utf8_char c ++ utf8 s

-- ===== src/Scripts/Numerals.antt =====
-- A number in a script is a word that needs no quoting.
use cnimbus.Common.{[], arith, false, refl, suc, true, zero, ℕ, ◌%◌, ◌+◌, ◌/◌, ◌==◌, ◌∷◌, ◌≡◌}
use cnimbus.Common.Number.{all_chars, format_loop, format_uint}
use cnimbus.Common.Text.{Text, contains}
use cnimbus.Scripts.Environment.{is_word, plain_parts}
use cnimbus.Scripts.LineBreaks.{OneLine}
use cnimbus.Scripts.Reader.{is_plain}

digit-plain : (n : ℕ) → is_plain (48 + n % 8) ≡ true
unfolding is_plain contains
digit-plain n = ground arith

digit-word : (n : ℕ) (acc : Text) → is_word acc ≡ true → is_word ((48 + n % 8) ∷ acc) ≡ true
unfolding all_chars
digit-word n [] h = absurd (ground arith)
digit-word n (c ∷ acc) h = rw (digit-plain n) h

-- What a round of the loop gives for the quotient `q`.
abbrev next_digits : ℕ → ℕ → Text → ℕ → Text
next_digits fuel n acc q = elim q [
  | zero ↦ (48 + n % 8) ∷ acc
  | suc m ↦ format_loop 8 fuel (suc m) ((48 + n % 8) ∷ acc)
]

format_loop-word :
    (fuel n : ℕ) (acc : Text) → is_word acc ≡ true → is_word (format_loop 8 fuel n acc) ≡ true
unfolding format_loop
format_loop-word zero n acc h = h
format_loop-word (suc fuel) n acc h =
    elim (n / 8) as (λ q. is_word (next_digits fuel n acc q) ≡ true) [
      | zero ↦ digit-word n acc h
      | suc m ↦ format_loop-word fuel (suc m) ((48 + n % 8) ∷ acc) (digit-word n acc h)
    ]

first_digit-word : (n : ℕ) → is_word ((48 + n % 8) ∷ []) ≡ true
unfolding all_chars
first_digit-word n = rw (digit-plain n) refl

pub format_uint-word : (n : ℕ) → is_word (format_uint 8 n) ≡ true
unfolding format_uint format_loop
format_uint-word n = elim (n / 8) as (λ q. is_word (next_digits n n [] q) ≡ true) [
  | zero ↦ first_digit-word n
  | suc m ↦ format_loop-word n (suc m) ((48 + n % 8) ∷ []) (first_digit-word n)
]

plain-newline : (c : ℕ) → is_plain c ≡ true → (c == 10) ≡ false
unfolding is_plain contains
plain-newline c h = ground arith

plain-OneLine : (s : Text) → all_chars is_plain s ≡ true → OneLine s
unfolding contains
plain-OneLine [] h = refl
plain-OneLine (c ∷ s) h =
    let both = plain_parts c s h in rw (plain-newline c both.0) (plain-OneLine s both.1)

pub is_word-OneLine : (s : Text) → is_word s ≡ true → OneLine s
is_word-OneLine [] h = absurd (ground arith)
is_word-OneLine (c ∷ s) h = plain-OneLine (c ∷ s) h

-- ===== src/Pecoff/Checksum.antt =====
-- `peChecksum` and `recomputeChecksum` of internal/secureboot/pecoff.go.
use mathlib.Core.Path.{subst}
use cnimbus.Common.{
  All, Result, [], ap, arith, if◌then◌else◌, length, ok, refl, suc, sym, zero, ℕ, ◌%◌, ◌*◌, ◌+◌,
  ◌/◌, ◌<◌, ◌==◌, ◌>>=◌, ◌^◌, ◌||◌, ◌∙◌, ◌∷◌, ◌≡◌, ◌≤◌,
}
use cnimbus.Common.Bytes.{
  Bytes, le32, le_uint32, le_uint32-splice, length-splice, splice, splice-splice,
}
use cnimbus.Pecoff.Layout.{Failure, PeLayout, put32}

-- `(sum & 0xffff) + (sum >> 16)`
abbrev pub fold_carry : ℕ → ℕ
fold_carry sum = sum % 2 ^ 16 + sum / 2 ^ 16

-- The two words of the checksum field count as absent.
abbrev pub add_word : ℕ → ℕ → ℕ → ℕ → ℕ
add_word off i word sum = if i == off || i == off + 2 then sum else fold_carry (sum + word)

-- The loop of `peChecksum`, at index `i`; a last odd byte is a word.
unfoldable pub sum_words : ℕ → ℕ → ℕ → Bytes → ℕ
sum_words off i sum [] = sum
sum_words off i sum (a ∷ []) = add_word off i a sum
sum_words off i sum (a ∷ b ∷ xs) = sum_words off (i + 2) (add_word off i (a + b * 2 ^ 8) sum) xs

unfoldable pub pe_checksum : Bytes → ℕ → ℕ
unfolding sum_words
pe_checksum pe off = (fold_carry (fold_carry (sum_words off 0 0 pe)) + length pe) % 2 ^ 32

unfoldable pub recompute_checksum : PeLayout → Bytes → Result Failure Bytes
unfolding pe_checksum
recompute_checksum l pe = do
  cleared ← put32 l.checksum_off 0 pe
  put32 l.checksum_off (pe_checksum cleared l.checksum_off) cleared

-- An independent description: the plain sum of the words outside the field.
abbrev pub plain_word : ℕ → ℕ → ℕ → ℕ
plain_word off i word = if i == off || i == off + 2 then 0 else word

abbrev pub plain_sum : ℕ → ℕ → Bytes → ℕ
plain_sum off i [] = 0
plain_sum off i (a ∷ []) = plain_word off i a
plain_sum off i (a ∷ b ∷ xs) = plain_word off i (a + b * 2 ^ 8) + plain_sum off (i + 2) xs

abbrev pub IsByte : ℕ → Type 0
IsByte b = b < 2 ^ 8

-- The folded carries keep the sum modulo 2 ^ 16 - 1, in 17 bits.
add_word-mod :
    (off i word sum rest : ℕ)
    → (add_word off i word sum + rest) % 65535 ≡ (sum + (plain_word off i word + rest)) % 65535
add_word-mod off i word sum rest = ground arith

add_word-bound :
    (off i word sum : ℕ) → word < 2 ^ 16 → sum < 2 ^ 17 → add_word off i word sum < 2 ^ 17
add_word-bound off i word sum h k = ground arith

sum_words-mod :
    (off i sum : ℕ) (pe : Bytes)
    → All IsByte pe
    → sum < 2 ^ 17
    → (sum_words off i sum pe % 65535 ≡ (sum + plain_sum off i pe) % 65535)
      × (sum_words off i sum pe < 2 ^ 17)
unfolding sum_words
sum_words-mod off i sum [] h k = (omega arith, k)
sum_words-mod off i sum (a ∷ []) h k =
    (ground (arith, add_word-mod off i a sum 0), add_word-bound off i a sum (omega (arith, h.0)) k)
sum_words-mod off i sum (a ∷ b ∷ xs) h k =
    let word = a + b * 2 ^ 8 in
    let next = add_word off i word sum in
    let small = add_word-bound off i word sum (omega (arith, h.0, h.1.0)) k in
    let (e, lt) = sum_words-mod off (i + 2) next xs h.1.1 small in
    (e ∙ add_word-mod off i word sum (plain_sum off (i + 2) xs), lt)

-- The checksum is the length of the file and a 16-bit sum that agrees with the plain sum of its
-- words modulo 2 ^ 16 - 1, for a file of bytes shorter than 2 ^ 31.
pub pe_checksum-plain_sum :
    (pe : Bytes) (off : ℕ)
    → All IsByte pe
    → length pe < 2 ^ 31
    → (s : ℕ) × (pe_checksum pe off ≡ s + length pe)
      × (s < 2 ^ 16)
      × (s % 65535 ≡ plain_sum off 0 pe % 65535)
unfolding pe_checksum
pe_checksum-plain_sum pe off h k =
    let (e, lt) = sum_words-mod off 0 0 pe h (omega arith) in
    (fold_carry (fold_carry (sum_words off 0 0 pe)), omega arith, omega arith, omega arith)

-- Words of an even field are skipped, whatever was written there.
sum_words-skip :
    (off i sum v : ℕ) (pe : Bytes)
    → 4 ≤ length pe
    → off ≡ i
    → sum_words off i sum (splice 0 (le32 v) pe) ≡ sum_words off i sum pe
unfolding sum_words splice
sum_words-skip off i sum v [] h e = absurd (omega arith)
sum_words-skip off i sum v (a ∷ []) h e = absurd (omega arith)
sum_words-skip off i sum v (a ∷ b ∷ []) h e = absurd (omega arith)
sum_words-skip off i sum v (a ∷ b ∷ c ∷ []) h e = absurd (omega arith)
sum_words-skip off i sum v (a ∷ b ∷ c ∷ d ∷ xs) h e = ground arith

abbrev pub twice : ℕ → ℕ
twice zero = 0
twice (suc n) = suc (suc (twice n))

sum_words-splice :
    (half off i sum v : ℕ) (pe : Bytes)
    → twice half + 4 ≤ length pe
    → off ≡ i + twice half
    → sum_words off i sum (splice (twice half) (le32 v) pe) ≡ sum_words off i sum pe
unfolding sum_words splice
sum_words-splice zero off i sum v pe h e = sum_words-skip off i sum v pe (omega arith) (omega arith)
sum_words-splice (suc half) off i sum v [] h e = absurd (omega arith)
sum_words-splice (suc half) off i sum v (a ∷ []) h e = absurd (omega arith)
sum_words-splice (suc half) off i sum v (a ∷ b ∷ xs) h e =
    sum_words-splice half off (i + 2) (add_word off i (a + b * 2 ^ 8) sum) v xs (omega arith)
      (omega arith)

-- What stands in an even field does not change the checksum.
pub pe_checksum-splice :
    (half v : ℕ) (pe : Bytes)
    → twice half + 4 ≤ length pe
    → pe_checksum (splice (twice half) (le32 v) pe) (twice half) ≡ pe_checksum pe (twice half)
unfolding pe_checksum
pe_checksum-splice half v pe h =
    rw
      (
        sum_words-splice half (twice half) 0 0 v pe h (omega arith),
        length-splice (twice half) (le32 v) pe,
      )
      refl

halve : (n : ℕ) → n % 2 ≡ 0 → twice (n / 2) ≡ n
halve zero h = refl
halve (suc zero) h = absurd (omega arith)
halve (suc (suc n)) h =
    let e : suc (suc n) / 2 ≡ suc (n / 2) = omega arith in rw (e, halve n (omega arith)) refl

-- `pe_checksum-splice` at an even offset.
even-splice :
    (off v : ℕ) (pe : Bytes)
    → off % 2 ≡ 0
    → off + 4 ≤ length pe
    → pe_checksum (splice off (le32 v) pe) off ≡ pe_checksum pe off
even-splice off v pe h k =
    subst (λ (o : ℕ). pe_checksum (splice o (le32 v) pe) o ≡ pe_checksum pe o) (halve off h)
      (pe_checksum-splice (off / 2) v pe (omega (arith, halve off h)))

pe_checksum-lt : (pe : Bytes) (off : ℕ) → pe_checksum pe off < 2 ^ 32
unfolding pe_checksum
pe_checksum-lt pe off = omega arith

pub put32-ok : (k v : ℕ) (pe : Bytes) → k + 4 ≤ length pe → put32 k v pe ≡ ok (splice k (le32 v) pe)
put32-ok k v pe h = ground arith

-- The file with the checksum that belongs to it.
abbrev pub fresh : PeLayout → Bytes → Bytes
fresh l pe = splice l.checksum_off (le32 (pe_checksum pe l.checksum_off)) pe

recompute_checksum-fresh :
    (l : PeLayout) (pe : Bytes)
    → l.checksum_off % 2 ≡ 0
    → l.checksum_off + 4 ≤ length pe
    → recompute_checksum l pe ≡ ok (fresh l pe)
unfolding recompute_checksum
recompute_checksum-fresh l pe e h =
    let off = l.checksum_off in
    let cleared = splice off (le32 0) pe in
    rw
      (
        put32-ok off 0 pe h,
        put32-ok off (pe_checksum cleared off) cleared
            (omega (arith, length-splice off (le32 0) pe)),
        even-splice off 0 pe e h,
        splice-splice off (le32 0) (le32 (pe_checksum pe off)) pe refl,
      )
      refl

-- At any offset in the file, only the field changes.
pub recompute_checksum-splice :
    (l : PeLayout) (pe : Bytes)
    → l.checksum_off + 4 ≤ length pe
    → (v : ℕ) × (recompute_checksum l pe ≡ ok (splice l.checksum_off (le32 v) pe))
unfolding recompute_checksum
recompute_checksum-splice l pe h =
    let off = l.checksum_off in
    let cleared = splice off (le32 0) pe in
    let v = pe_checksum cleared off in
    (
      v,
      rw
          (
            put32-ok off 0 pe h,
            put32-ok off v cleared (omega (arith, length-splice off (le32 0) pe)),
            splice-splice off (le32 0) (le32 v) pe refl,
          )
          refl,
    )

-- The checksum that the file carries is the one that belongs to it.
abbrev pub IsFresh : PeLayout → Bytes → Type 0
IsFresh l pe = le_uint32 l.checksum_off pe ≡ pe_checksum pe l.checksum_off

-- With the field at an even offset inside the file, the checksum that is stored is the checksum
-- of the new file, which is as long as the old one, and a second run changes nothing.
pub recompute_checksum-IsFresh :
    (l : PeLayout) (pe : Bytes)
    → l.checksum_off % 2 ≡ 0
    → l.checksum_off + 4 ≤ length pe
    → (out : Bytes) × (recompute_checksum l pe ≡ ok out)
      × (length out ≡ length pe)
      × IsFresh l out
      × (recompute_checksum l out ≡ ok out)
recompute_checksum-IsFresh l pe e h =
    let off = l.checksum_off in
    let sum = pe_checksum pe off in
    let out = fresh l pe in
    let len = length-splice off (le32 sum) pe in
    let same = even-splice off sum pe e h in
    (
      out,
      recompute_checksum-fresh l pe e h,
      len,
      le_uint32-splice off sum pe h (pe_checksum-lt pe off) ∙ sym same,
      recompute_checksum-fresh l out e (omega (arith, len))
          ∙ ap ok (
              ap (λ (c : ℕ). splice off (le32 c) out) same
              ∙ splice-splice off (le32 sum) (le32 sum) pe refl),
    )

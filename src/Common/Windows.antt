-- ===== src/Common/Windows.antt =====
-- Parts of a byte slice, and the writes outside them.
use cnimbus.Common.{
  [], ap, arith, drop, length, refl, suc, sym, take, zero, ℕ, ◌++◌, ◌+◌, ◌∙◌, ◌∷◌, ◌≡◌, ◌≤◌,
}
use cnimbus.Common.Bytes.{Bytes, lay, le_uint16, le_uint32, splice}

-- A write behind a prefix is not seen in it.
pub take-splice : (k n : ℕ) (ys xs : Bytes) → n ≤ k → take n (splice k ys xs) ≡ take n xs
unfolding splice
take-splice k zero ys xs h = refl
take-splice zero (suc n) ys xs h = absurd (omega arith)
take-splice (suc k) (suc n) ys [] h = refl
take-splice (suc k) (suc n) ys (x ∷ xs) h = ap (◌∷◌ x) (take-splice k n ys xs (omega arith))

drop-lay : (ys xs : Bytes) (n : ℕ) → length ys ≤ n → drop n (lay ys xs) ≡ drop n xs
unfolding lay
drop-lay [] xs n h = refl
drop-lay (y ∷ ys) [] zero h = absurd (omega arith)
drop-lay (y ∷ ys) [] (suc n) h = refl
drop-lay (y ∷ ys) (x ∷ xs) zero h = absurd (omega arith)
drop-lay (y ∷ ys) (x ∷ xs) (suc n) h = drop-lay ys xs n (omega arith)

-- Nor is a write before a suffix.
pub drop-splice :
    (k n : ℕ) (ys xs : Bytes) → k + length ys ≤ n → drop n (splice k ys xs) ≡ drop n xs
unfolding splice
drop-splice zero n ys xs h = drop-lay ys xs n (omega arith)
drop-splice (suc k) zero ys xs h = absurd (omega arith)
drop-splice (suc k) (suc n) ys [] h = refl
drop-splice (suc k) (suc n) ys (x ∷ xs) h = drop-splice k n ys xs (omega arith)

take-lay : (to : ℕ) (ys xs : Bytes) → length ys ≤ to → take to (lay ys xs) ≡ lay ys (take to xs)
unfolding lay
take-lay to [] xs h = refl
take-lay zero (y ∷ ys) xs h = absurd (omega arith)
take-lay (suc to) (y ∷ ys) [] h = refl
take-lay (suc to) (y ∷ ys) (x ∷ xs) h = ap (◌∷◌ y) (take-lay to ys xs (omega arith))

pub take-splice_in :
    (k to : ℕ) (ys xs : Bytes)
    → k + length ys ≤ to
    → take to (splice k ys xs) ≡ splice k ys (take to xs)
unfolding splice
take-splice_in zero to ys xs h = take-lay to ys xs (omega arith)
take-splice_in (suc k) zero ys xs h = absurd (omega arith)
take-splice_in (suc k) (suc to) ys [] h = refl
take-splice_in (suc k) (suc to) ys (x ∷ xs) h = ap (◌∷◌ x) (take-splice_in k to ys xs (omega arith))

pub take-append : (n : ℕ) (xs ys : Bytes) → n ≤ length xs → take n (xs ++ ys) ≡ take n xs
take-append zero xs ys h = refl
take-append (suc n) [] ys h = absurd (omega arith)
take-append (suc n) (x ∷ xs) ys h = ap (◌∷◌ x) (take-append n xs ys (omega arith))

pub drop-append : (xs ys : Bytes) → drop (length xs) (xs ++ ys) ≡ ys
drop-append [] ys = refl
drop-append (x ∷ xs) ys = drop-append xs ys

pub take-take : (n m : ℕ) (xs : Bytes) → n ≤ m → take n (take m xs) ≡ take n xs
take-take zero m xs h = refl
take-take (suc n) zero xs h = absurd (omega arith)
take-take (suc n) (suc m) [] h = refl
take-take (suc n) (suc m) (x ∷ xs) h = ap (◌∷◌ x) (take-take n m xs (omega arith))

-- A reader sees four bytes.
le_uint32-take : (k to : ℕ) (xs : Bytes) → k + 4 ≤ to → le_uint32 k (take to xs) ≡ le_uint32 k xs
unfolding le_uint32
le_uint32-take zero zero xs h = absurd (omega arith)
le_uint32-take zero (suc zero) xs h = absurd (omega arith)
le_uint32-take zero (suc (suc zero)) xs h = absurd (omega arith)
le_uint32-take zero (suc (suc (suc zero))) xs h = absurd (omega arith)
le_uint32-take zero (suc (suc (suc (suc to)))) [] h = refl
le_uint32-take zero (suc (suc (suc (suc to)))) (a ∷ []) h = refl
le_uint32-take zero (suc (suc (suc (suc to)))) (a ∷ b ∷ []) h = refl
le_uint32-take zero (suc (suc (suc (suc to)))) (a ∷ b ∷ c ∷ []) h = refl
le_uint32-take zero (suc (suc (suc (suc to)))) (a ∷ b ∷ c ∷ d ∷ xs) h = refl
le_uint32-take (suc k) zero xs h = absurd (omega arith)
le_uint32-take (suc k) (suc to) [] h = refl
le_uint32-take (suc k) (suc to) (x ∷ xs) h = le_uint32-take k to xs (omega arith)

-- What a write elsewhere leaves.
pub le_uint32-splice_after :
    (k n : ℕ) (ys xs : Bytes) → k + length ys ≤ n → le_uint32 n (splice k ys xs) ≡ le_uint32 n xs
unfolding le_uint32
le_uint32-splice_after k n ys xs h = rw (drop-splice k n ys xs h) refl

pub le_uint32-splice_before :
    (k n : ℕ) (ys xs : Bytes) → n + 4 ≤ k → le_uint32 n (splice k ys xs) ≡ le_uint32 n xs
le_uint32-splice_before k n ys xs h =
    sym (le_uint32-take n (n + 4) (splice k ys xs) (omega arith))
    ∙ ap (le_uint32 n) (take-splice k (n + 4) ys xs h)
    ∙ le_uint32-take n (n + 4) xs (omega arith)

pub le_uint16-splice_after :
    (k n : ℕ) (ys xs : Bytes) → k + length ys ≤ n → le_uint16 n (splice k ys xs) ≡ le_uint16 n xs
unfolding le_uint16
le_uint16-splice_after k n ys xs h = rw (drop-splice k n ys xs h) refl

pub le_uint32-append :
    (n : ℕ) (xs ys : Bytes) → n + 4 ≤ length xs → le_uint32 n (xs ++ ys) ≡ le_uint32 n xs
le_uint32-append n xs ys h =
    sym (le_uint32-take n (n + 4) (xs ++ ys) (omega arith))
    ∙ ap (le_uint32 n) (take-append (n + 4) xs ys h)
    ∙ le_uint32-take n (n + 4) xs (omega arith)

-- What was laid over longer bytes stands in front.
pub take-lay_over : (ys xs : Bytes) → length ys ≤ length xs → take (length ys) (lay ys xs) ≡ ys
unfolding lay
take-lay_over [] xs h = refl
take-lay_over (y ∷ ys) [] h = absurd (omega arith)
take-lay_over (y ∷ ys) (x ∷ xs) h = ap (◌∷◌ y) (take-lay_over ys xs (omega arith))

-- ===== src/Nimbus/Lines/Numbers.antt =====
-- The line numbers that `joinContinuations` gives to the logical lines.
use cnimbus.Common.{
  Bool-cases, List, [], arith, false, if◌then◌else◌, inl, inr, length, refl, true, ℕ, ◌++◌, ◌+◌,
  ◌<◌, ◌∷◌, ◌≡◌, ◌≤◌, ◌⊎◌,
}
use cnimbus.Common.Text.{Text}
use cnimbus.Nimbus.Lines.{
  LogicalLine, is_continued, is_empty, join_continuations, join_loop, physical_lines,
  without_backslash,
}

-- The numbers grow, and lie above `lo` and at most at `hi`.
pub data Numbered (hi : ℕ) : ℕ → List LogicalLine → Type 0 where
  done : {lo : ℕ} → Numbered hi lo []
  line :
      {lo : ℕ} {l : LogicalLine} {ls : List LogicalLine}
      → lo < l.line_no
      → l.line_no ≤ hi
      → Numbered hi l.line_no ls
      → Numbered hi lo (l ∷ ls)

Numbered-weaken :
    {hi lo lo' : ℕ} {ls : List LogicalLine} → lo' ≤ lo → Numbered hi lo ls → Numbered hi lo' ls
Numbered-weaken h done = done
Numbered-weaken h (line a b n) = line (omega arith) b n

is_empty-snoc : (s : Text) (c : ℕ) (t : Text) → is_empty (s ++ (t ++ c ∷ [])) ≡ false
is_empty-snoc [] c [] = refl
is_empty-snoc [] c (x ∷ t) = refl
is_empty-snoc (x ∷ s) c t = refl

-- Between two lines `start` is the number of a line already read, and it counts only while a block is open.
join_loop-Numbered :
    (ls : List Text) (i : ℕ) (acc : Text) (start lo hi : ℕ)
    → i + length ls ≡ hi
    → ((is_empty acc ≡ true) × (lo ≤ i)) ⊎ ((is_empty acc ≡ false) × (lo < start) × (start ≤ i))
    → Numbered hi lo (join_loop ls i acc start)
unfolding join_loop
join_loop-Numbered [] i acc start lo hi e (inl (a, h)) = rw a done
join_loop-Numbered [] i acc start lo hi e (inr (a, h, k)) = rw a (line h (omega arith) done)
join_loop-Numbered (l ∷ ls) i acc start lo hi e o =
    let start' : ℕ = if is_empty acc then i + 1 else start in
    let above : lo < start' = ground arith in
    let below : start' ≤ i + 1 = ground arith in
    elim (Bool-cases (is_continued l)) [
      | inl c ↦ rw c (
          join_loop-Numbered ls (i + 1) (acc ++ (without_backslash l ++ b' ' ∷ [])) start' lo hi
            (omega arith) (inr (is_empty-snoc acc b' ' (without_backslash l), above, below)))
      | inr c ↦ rw c (
          line above (omega arith)
            (join_loop-Numbered ls (i + 1) [] start' start' hi (omega arith) (inl (refl, below))))
    ]

-- The logical lines are numbered upwards, by numbers of physical lines, from 1 on.
pub join_continuations-Numbered :
    (src : Text) → Numbered (length (physical_lines src)) 0 (join_continuations src)
unfolding join_continuations
join_continuations-Numbered src =
    join_loop-Numbered (physical_lines src) 0 [] 0 0 _ (omega arith) (inl (refl, omega arith))

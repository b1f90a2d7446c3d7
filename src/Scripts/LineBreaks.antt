-- ===== src/Scripts/LineBreaks.antt =====
-- Texts without a newline, and reading the lines of a text that is made of them.
use mathlib.Core.List.{append_assoc}
use cnimbus.Common.{All, List, [], ap, arith, false, refl, sym, ℕ, ◌++◌, ◌||◌, ◌∙◌, ◌∷◌, ◌≡◌}
use cnimbus.Common.Text.{Text, contains}
use cnimbus.Scripts.Reader.{lines}
use cnimbus.Scripts.Shell.{concat, replace_quotes, sh_quote, unlines}

abbrev pub OneLine : Text → Type 0
OneLine t = contains t 10 ≡ false

pub contains-append : (a b : Text) (x : ℕ) → contains (a ++ b) x ≡ (contains a x || contains b x)
unfolding contains
contains-append [] b x = refl
contains-append (c ∷ a) b x = ground (arith, contains-append a b x)

pub contains-replace_quotes : (s : Text) → OneLine s → OneLine (replace_quotes s)
unfolding contains replace_quotes
contains-replace_quotes [] h = refl
contains-replace_quotes (c ∷ s) h = ground (arith, contains-replace_quotes s)

pub sh_quote-OneLine : (s : Text) → OneLine s → OneLine (sh_quote s)
unfolding contains sh_quote
sh_quote-OneLine s h =
    ground (arith, contains-append (replace_quotes s) (39 ∷ []) 10, contains-replace_quotes s h)

pub concat-OneLine : (ts : List Text) → All OneLine ts → OneLine (concat ts)
unfolding contains concat
concat-OneLine [] h = refl
concat-OneLine (t ∷ []) h = h.0
concat-OneLine (t ∷ u ∷ ts) h =
    ground (arith, contains-append t (concat (u ∷ ts)) 10, h.0, concat-OneLine (u ∷ ts) h.1)

pub lines-line : (l s : Text) → OneLine l → lines (l ++ 10 ∷ s) ≡ l ∷ lines s
unfolding contains lines
lines-line [] s h = refl
lines-line (c ∷ l) s h = ground (arith, lines-line l s)

pub lines-unlines : (ls : List Text) → All OneLine ls → lines (unlines ls) ≡ ls
unfolding lines unlines
lines-unlines [] h = refl
lines-unlines (l ∷ ls) h = rw (lines-line l (unlines ls) (h.0), lines-unlines ls (h.1)) refl

pub unlines-append : (ls ms : List Text) → unlines (ls ++ ms) ≡ unlines ls ++ unlines ms
unfolding unlines
unlines-append [] ms = refl
unlines-append (l ∷ ls) ms =
    ap (λ rest. l ++ 10 ∷ rest) (unlines-append ls ms)
    ∙ sym (append_assoc l (10 ∷ unlines ls) (unlines ms))

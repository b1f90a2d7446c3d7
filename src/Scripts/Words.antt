-- ===== src/Scripts/Words.antt =====
-- What a shell reads from the texts of Scripts/Shell.
use mathlib.Core.List.{append-nil, append_assoc, reverse, reverse-reverse, reverse_aux}
use cnimbus.Common.{List, [], ap, arith, refl, some, suc, sym, true, ℕ, ◌++◌, ◌∙◌, ◌∷◌, ◌≡◌}
use cnimbus.Common.Text.{Text, codes, contains}
use cnimbus.Scripts.Reader.{
  act, bare, between, is_plain, read_command, read_commands, scan, single_quoted, then_read,
}
use cnimbus.Scripts.Shell.{join, quote_all, replace_quotes, sh_join, sh_quote, unlines}

pub scan-replace_quotes :
    (s word : Text) (words : List Text) (rest : Text)
    → scan single_quoted word words (replace_quotes s ++ 39 ∷ rest)
      ≡ scan bare (reverse_aux s word) words rest
unfolding scan act replace_quotes
scan-replace_quotes [] word words rest = refl
scan-replace_quotes (c ∷ s) word words rest =
    ground (arith, scan-replace_quotes s (c ∷ word) words rest)

pub scan-sh_quote :
    (s : Text) (words : List Text) (rest : Text)
    → scan between [] words (sh_quote s ++ rest) ≡ scan bare (reverse s) words rest
unfolding scan sh_quote
scan-sh_quote s words rest =
    rw (append_assoc (replace_quotes s) (39 ∷ []) rest) (scan-replace_quotes s [] words rest)

-- A character that needs no quoting, outside quotes.
scan-plain :
    (c : ℕ) (word : Text) (words : List Text) (rest : Text)
    → is_plain c ≡ true
    → scan bare word words (c ∷ rest) ≡ scan bare (c ∷ word) words rest
unfolding scan act is_plain contains
scan-plain c word words rest h = ground arith

pub scan-quoted_words :
    (argv words : List Text) (rest : Text)
    → scan between [] words (join (codes " ") (quote_all argv) ++ 10 ∷ rest)
      ≡ some (reverse_aux words argv, rest)
unfolding scan join quote_all
scan-quoted_words [] words rest = refl
scan-quoted_words (a ∷ []) words rest =
    rw (scan-sh_quote a words (10 ∷ rest), reverse-reverse a) refl
scan-quoted_words (a ∷ b ∷ argv) words rest =
    let on = join (codes " ") (quote_all (b ∷ argv)) in
    rw
      (
        append_assoc (sh_quote a) (32 ∷ on) (10 ∷ rest),
        scan-sh_quote a words (32 ∷ on ++ 10 ∷ rest),
        reverse-reverse a,
      )
      (scan-quoted_words (b ∷ argv) (a ∷ words) rest)

-- A shell reads the line that shJoin writes for a list of words as one command, whose words are
-- those of the list: no character of a word is expanded or ends a word or the line. What follows
-- the line's newline is left.
pub read_command-sh_join :
    (argv : List Text) (rest : Text) → read_command (sh_join argv ++ 10 ∷ rest) ≡ some (argv, rest)
unfolding read_command sh_join
read_command-sh_join argv rest = scan-quoted_words argv [] rest

-- Reading one line, and then the others.
pub read_commands-line :
    (n : ℕ) (l : Text) (ls : List Text) (words : List Text) (commands : List (List Text))
    → ((rest : Text) → read_command (l ++ 10 ∷ rest) ≡ some (words, rest))
    → read_commands n (unlines ls) ≡ some (commands, [])
    → read_commands (suc n) (unlines (l ∷ ls)) ≡ some (words ∷ commands, [])
unfolding read_commands unlines
read_commands-line n l ls words commands first on =
    ap (then_read (read_commands n)) (first (unlines ls))
    ∙ ap (λ r. then_read (λ s. r) (some (words, unlines ls))) on

pub read_command-sh_quote : (s : Text) → read_command (sh_quote s) ≡ some (s ∷ [], [])
unfolding read_command scan
read_command-sh_quote s =
    ap (scan between [] []) (sym (append-nil (sh_quote s)))
    ∙ scan-sh_quote s [] []
    ∙ ap (λ (w : Text). some (w ∷ [], [])) (reverse-reverse s)

-- The same at the end of a text.
pub scan-last_words :
    (a : Text) (argv words : List Text)
    → scan between [] words (join (codes " ") (quote_all (a ∷ argv)))
      ≡ some (reverse_aux words (a ∷ argv), [])
unfolding scan join quote_all
scan-last_words a [] words =
    ap (scan between [] words) (sym (append-nil (sh_quote a)))
    ∙ scan-sh_quote a words []
    ∙ ap (λ (w : Text). some (reverse (w ∷ words), [])) (reverse-reverse a)
scan-last_words a (b ∷ argv) words =
    let on = join (codes " ") (quote_all (b ∷ argv)) in
    scan-sh_quote a words (32 ∷ on)
    ∙ ap (λ (w : Text). scan between [] (w ∷ words) on) (reverse-reverse a)
    ∙ scan-last_words b argv (a ∷ words)

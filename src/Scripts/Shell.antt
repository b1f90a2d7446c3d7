-- ===== src/Scripts/Shell.antt =====
-- The quoting of internal/rootfs/build.go, and a text made of lines.
use cnimbus.Common.{List, [], if◌then◌else◌, ◌++◌, ◌==◌, ◌∷◌}
use cnimbus.Common.Text.{Text, codes}

-- strings.ReplaceAll(s, "'", `'\''`)
unfoldable pub replace_quotes : Text → Text
replace_quotes [] = []
replace_quotes (c ∷ s) =
    let rest = replace_quotes s in if c == 39 then 39 ∷ 92 ∷ 39 ∷ 39 ∷ rest else c ∷ rest

unfoldable pub sh_quote : Text → Text
unfolding replace_quotes
sh_quote s = 39 ∷ (replace_quotes s ++ 39 ∷ [])

-- strings.Join
unfoldable pub join : Text → List Text → Text
join sep [] = []
join sep (t ∷ []) = t
join sep (t ∷ u ∷ ts) = t ++ (sep ++ join sep (u ∷ ts))

unfoldable pub quote_all : List Text → List Text
unfolding sh_quote
quote_all [] = []
quote_all (a ∷ argv) = sh_quote a ∷ quote_all argv

unfoldable pub sh_join : List Text → Text
unfolding quote_all join
sh_join argv = join (codes " ") (quote_all argv)

-- The lines as the builder holds them: each is written with its newline.
unfoldable pub unlines : List Text → Text
unlines [] = []
unlines (l ∷ ls) = l ++ 10 ∷ unlines ls

-- The pieces of a format string and its arguments, one after the other.
unfoldable pub concat : List Text → Text
concat [] = []
concat (t ∷ []) = t
concat (t ∷ u ∷ ts) = t ++ concat (u ∷ ts)

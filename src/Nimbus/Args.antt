-- ===== src/Nimbus/Args.antt =====
-- `substituteArgs` and the ARG values. The values are an association list, of which the first
-- entry of a name counts.
pub mod Template
use cnimbus.Common.{
  ℕ, zero, suc, ◌+◌, Bool, ◌&&◌, ◌||◌, not, Option, none, some, List, [], ◌∷◌, ◌++◌, leb, ◌==◌,
  if◌then◌else◌, Result, ok, err, ◌>>=◌, length, take, map_err,
}
use cnimbus.Common.Text.{Text, eqt, contains}
use cnimbus.Nimbus.Types.{Reason, undefined_arg, unterminated_reference}

abbrev pub Values : Type 0
Values = List (Text × Text)

unfoldable pub lookup : Text → Values → Option Text
lookup name [] = none
lookup name ((key, value) ∷ rest) = if eqt key name then some value else lookup name rest

unfoldable pub is_arg_name_start : ℕ → Bool
is_arg_name_start b = b == b'_' || leb b'a' b && leb b b'z' || leb b'A' b && leb b b'Z'

unfoldable pub is_arg_name : ℕ → Bool
is_arg_name b =
    b == b'_' || leb b'a' b && leb b b'z' || leb b'A' b && leb b b'Z' || leb b'0' b && leb b b'9'

-- `strings.IndexByte`
unfoldable pub index_of : ℕ → Text → Option ℕ
index_of a [] = none
index_of a (c ∷ s) =
    let rest = index_of a s in
    if c == a then some 0 else elim rest [ none ↦ none | some i ↦ some (suc i) ]

-- `for j < len(rest) && isArgNameByte(rest[j])`
unfoldable pub arg_name : Text → Text
unfolding is_arg_name
arg_name [] = []
arg_name (c ∷ s) = let rest = arg_name s in if is_arg_name c then c ∷ rest else []

-- What one round of the loop does: how many characters after this one it skips, and the output.
pub record Round : Type 0 where
  pub skip : ℕ
  pub out : Text

abbrev pub expand : Values → Text → ℕ → Text → Result Reason Round
expand values name skip out = elim (lookup name values) [
  | none ↦ err undefined_arg
  | some value ↦ ok (record { skip = skip; out = out ++ value })
]

abbrev braced : Values → Text → Text → Option ℕ → Result Reason Round
braced values s out none = err unterminated_reference
braced values s out (some end) = expand values (take end s) (end + 2) out

-- One round at `c`, with `s` behind it.
unfoldable pub subst_round : Values → ℕ → Text → Text → Result Reason Round
unfolding index_of is_arg_name_start arg_name
subst_round values c [] out = ok (record { skip = 0; out = out ++ c ∷ [] })
subst_round values c (d ∷ s) out =
    if not (c == b'$')
    then ok (record { skip = 0; out = out ++ c ∷ [] })
    else if d == b'$'
    then ok (record { skip = 1; out = out ++ b'$' ∷ [] })
    else if d == b'{'
    then braced values s out (index_of b'}' s)
    else if not (is_arg_name_start d)
    then ok (record { skip = 0; out = out ++ c ∷ [] })
    else expand values (arg_name (d ∷ s)) (length (arg_name (d ∷ s))) out

-- The loop over `i`: a round that moves `i` by more than one leaves characters to skip.
unfoldable pub subst_loop : Values → Text → ℕ → Text → Result Reason Text
unfolding subst_round
subst_loop values [] skip out = ok out
subst_loop values (c ∷ s) (suc skip) out = subst_loop values s skip out
subst_loop values (c ∷ s) zero out = do
  r ← subst_round values c s out
  subst_loop values s r.skip r.out

unfoldable pub substitute_args : Text → Values → Result Reason Text
unfolding subst_loop
substitute_args rest values =
    if not (contains rest b'$') then ok rest else subst_loop values rest 0 []

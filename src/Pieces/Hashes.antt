-- ===== src/Pieces/Hashes.antt =====
-- `parseHashes`, `checkHash` and `parseManifest` of internal/pieces/pieces.go. The contents of a
-- file are its code points; SHA-256 in hexadecimal is an argument.
use mathlib.Core.List.{map}
use cnimbus.Common.{
  Bool-cases, Holds, List, Option, Option-cases, Result, [], ap, err, if◌then◌else◌, inl, inr, none,
  ok, some, sym, ℕ, ◌==◌, ◌>>=◌, ◌∷◌, ◌≡◌,
}
use cnimbus.Common.Text.{Cut, Text, cut, eqt, eqt_iff, fields, lower, split, trim_right, trim_space}
use cnimbus.Nimbus.Lines.{is_empty}

pub data Failure : Type 0 where
  insecure_http fetch_failed missing_piece bad_hashes no_hashes signature_invalid : Failure
  bad_manifest bad_provenance hash_mismatch stale : Failure

-- The map from names to hashes, the later lines first: a later line of a name wins.
abbrev pub Hashes : Type 0
Hashes = List (Text × Text)

unfoldable pub hash_of : Text → Hashes → Option Text
unfolding eqt
hash_of name [] = none
hash_of name ((key, hash) ∷ rest) = if eqt key name then some hash else hash_of name rest

abbrev hash_fields : List Text → Result Failure (Text × Text)
hash_fields (hash ∷ name ∷ []) = ok (name, map lower hash)
hash_fields _ = err bad_hashes

unfoldable pub parse_hash_lines : Hashes → List Text → Result Failure Hashes
unfolding trim_space fields lower
parse_hash_lines hashes [] = ok hashes
parse_hash_lines hashes (l ∷ ls) =
    let line = trim_space l in
    let skipped = parse_hash_lines hashes ls in
    if is_empty line
    then skipped
    else hash_fields (fields line) >>= λ (entry : Text × Text). parse_hash_lines (entry ∷ hashes) ls

unfoldable pub parse_hashes : Text → Result Failure Hashes
unfolding parse_hash_lines split trim_space
parse_hashes content = parse_hash_lines [] (split 10 (trim_space content))

abbrev check_against : Option Text → Text → Result Failure (Unit {0})
check_against none got = err hash_mismatch
check_against (some want) got = if eqt got want then ok tt else err hash_mismatch

unfoldable pub check_hash : (Text → Text) → Hashes → Text → Text → Result Failure (Unit {0})
unfolding hash_of eqt
check_hash sha256 hashes name content = check_against (hash_of name hashes) (sha256 content)

pub record Applet : Type 0 where
  pub path : Text
  pub target : Text

abbrev applet_of : Cut → Result Failure Applet
applet_of c =
    if c.found then ok (record { path = c.before; target = c.after }) else err bad_manifest

unfoldable pub parse_manifest_lines : List Text → Result Failure (List Applet)
unfolding trim_right cut
parse_manifest_lines [] = ok []
parse_manifest_lines (l ∷ ls) =
    let line = trim_right (λ (c : ℕ). c == 13) l in
    let rest = parse_manifest_lines ls in
    if is_empty line
    then rest
    else do applet ← applet_of (cut 9 line); applets ← rest; ok (applet ∷ applets)

unfoldable pub parse_manifest : Text → Result Failure (List Applet)
unfolding parse_manifest_lines split
parse_manifest content = parse_manifest_lines (split 10 content)

-- The file `name` has the content that the list of hashes names.
abbrev pub Listed : (Text → Text) → Hashes → Text → Text → Type 0
Listed sha256 hashes name content = hash_of name hashes ≡ some (sha256 content)

pub check_hash-Listed :
    (sha256 : Text → Text) (hashes : Hashes) (name content : Text)
    → Holds
        (λ (u : Unit {0}). Listed sha256 hashes name content)
        (check_hash sha256 hashes name content)
unfolding check_hash
check_hash-Listed sha256 hashes name content = elim (Option-cases (hash_of name hashes)) [
  | inl e ↦ rw e tt
  | inr (want, e) ↦ elim (Bool-cases (eqt (sha256 content) want)) [
    | inl t ↦ rw (e, t) (ap some (sym ((eqt_iff (sha256 content) want).0 t)))
    | inr f ↦ rw (e, f) tt
  ]
]

-- ===== src/Guest/Headers.antt =====
-- `parseHeadersEnv` of cmd/cnimbusagent/main.go: the headers that the agent adds to its requests.
-- A map of strings is an association list without a repeated key.
use cnimbus.Common.{List, [], if◌then◌else◌, ◌∷◌}
use cnimbus.Common.Text.{Text, cut, eqt, split, trim_space}

unfoldable pub set_header : Text → Text → List (Text × Text) → List (Text × Text)
unfolding eqt
set_header name value [] = (name, value) ∷ []
set_header name value ((k, v) ∷ m) =
    let rest = set_header name value m in if eqt name k then (name, value) ∷ m else (k, v) ∷ rest

unfoldable pub add_header_line : List (Text × Text) → Text → List (Text × Text)
unfolding cut trim_space set_header
add_header_line m l =
    let parts = cut b':' l in
    if parts.found then set_header (trim_space parts.before) (trim_space parts.after) m else m

unfoldable pub add_header_lines : List (Text × Text) → List Text → List (Text × Text)
unfolding add_header_line
add_header_lines m [] = m
add_header_lines m (l ∷ ls) = add_header_lines (add_header_line m l) ls

unfoldable pub parse_headers_env : Text → List (Text × Text)
unfolding add_header_lines split
parse_headers_env [] = []
parse_headers_env (c ∷ raw) = add_header_lines [] (split 10 (c ∷ raw))

-- ===== src/Scripts/Environment.antt =====
-- What the shell reads from the exports of the scripts of Scripts/Supervisor.
use mathlib.Core.List.{append-nil, append_assoc, map, reverse-reverse, reverse_aux}
use cnimbus.Common.{
  All, Bool, List, Option, [], ap, arith, drop, false, length, refl, some, true, ℕ, ◌++◌, ◌∙◌, ◌∷◌,
  ◌≡◌,
}
use cnimbus.Common.Number.{all_chars}
use cnimbus.Common.Text.{Text, codes, contains}
use cnimbus.Nimbus.Types.{EnvVar, Healthcheck, Service}
use cnimbus.Scripts.Reader.{act, bare, between, is_plain, read_command, read_commands, scan}
use cnimbus.Scripts.Shell.{concat, replace_quotes, sh_quote, unlines}
use cnimbus.Scripts.Supervisor.{
  build_supervisor_script, export_line, supervisor_body, supervisor_head,
}
use cnimbus.Scripts.Words.{scan-replace_quotes}

reverse_aux-reverse_aux : (a b c : Text) → reverse_aux (reverse_aux a b) c ≡ reverse_aux b (a ++ c)
reverse_aux-reverse_aux [] b c = refl
reverse_aux-reverse_aux (x ∷ a) b c = reverse_aux-reverse_aux a (x ∷ b) c

pub plain_parts :
    (c : ℕ) (k : Text)
    → all_chars is_plain (c ∷ k) ≡ true
    → (is_plain c ≡ true) × (all_chars is_plain k ≡ true)
unfolding all_chars
plain_parts c k h = ground arith

scan-plain :
    (c : ℕ) (word : Text) (words : List Text) (rest : Text)
    → is_plain c ≡ true
    → scan bare word words (c ∷ rest) ≡ scan bare (c ∷ word) words rest
unfolding scan act is_plain contains
scan-plain c word words rest h = ground arith

scan-plain_word :
    (k word : Text) (words : List Text) (rest : Text)
    → all_chars is_plain k ≡ true
    → scan bare word words (k ++ rest) ≡ scan bare (reverse_aux k word) words rest
scan-plain_word [] word words rest h = refl
scan-plain_word (c ∷ k) word words rest h =
    let both = plain_parts c k h in
    scan-plain c word words (k ++ rest) both.0 ∙ scan-plain_word k (c ∷ word) words rest both.1

scan-first_plain :
    (c : ℕ) (words : List Text) (rest : Text)
    → is_plain c ≡ true
    → scan between [] words (c ∷ rest) ≡ scan bare [] words (c ∷ rest)
unfolding scan act is_plain contains
scan-first_plain c words rest h = ground arith

-- An assignment: a plain name, the sign, and a quoted value.
abbrev assignment : Text → Text → Text
assignment key value = key ++ 61 ∷ value

scan-start :
    (key : Text) (words : List Text) (rest : Text)
    → all_chars is_plain key ≡ true
    → scan between [] words (key ++ 61 ∷ rest) ≡ scan bare [] words (key ++ 61 ∷ rest)
unfolding all_chars is_plain contains
scan-start [] words rest h = scan-first_plain 61 words rest refl
scan-start (c ∷ key) words rest h =
    scan-first_plain c words (key ++ 61 ∷ rest) (plain_parts c key h).0

scan-bare_quote :
    (s word : Text) (words : List Text) (rest : Text)
    → scan bare word words (sh_quote s ++ rest) ≡ scan bare (reverse_aux s word) words rest
unfolding scan act sh_quote
scan-bare_quote s word words rest =
    rw (append_assoc (replace_quotes s) (39 ∷ []) rest) (scan-replace_quotes s word words rest)

-- A command whose last word is an assignment.
pub scan-assignment :
    (key value : Text) (words : List Text) (rest : Text)
    → all_chars is_plain key ≡ true
    → scan between [] words (key ++ 61 ∷ (sh_quote value ++ 10 ∷ rest))
      ≡ some (reverse_aux words (assignment key value ∷ []), rest)
unfolding scan act is_plain contains
scan-assignment key value words rest h =
    scan-start key words (sh_quote value ++ 10 ∷ rest) h
    ∙ scan-plain_word key [] words (61 ∷ (sh_quote value ++ 10 ∷ rest)) h
    ∙ scan-plain 61 (reverse_aux key []) words (sh_quote value ++ 10 ∷ rest) refl
    ∙ scan-bare_quote value (61 ∷ reverse_aux key []) words (10 ∷ rest)
    ∙ rw
        (
          reverse_aux-reverse_aux value (61 ∷ reverse_aux key []) [],
          reverse_aux-reverse_aux key [] (61 ∷ (value ++ [])),
          append-nil value,
        )
        refl

pub export_words : EnvVar → List Text
export_words e = codes "export" ∷ assignment e.key e.value ∷ []

read_command-export_line :
    (e : EnvVar) (rest : Text)
    → all_chars is_plain e.key ≡ true
    → read_command (export_line e ++ 10 ∷ rest) ≡ some (export_words e, rest)
unfolding read_command scan act export_line concat export_words is_plain contains
read_command-export_line e rest h =
    rw (append_assoc e.key (61 ∷ sh_quote e.value) (10 ∷ rest))
      (scan-assignment e.key e.value (codes "export" ∷ []) rest h)

-- The exports of a list of variables, before other lines.
pub read_commands-exports :
    (env : List EnvVar) (ls : List Text)
    → All (λ e. all_chars is_plain e.key ≡ true) env
    → read_commands (length env) (unlines (map export_line env ++ ls))
      ≡ some (map export_words env, unlines ls)
unfolding read_commands unlines
read_commands-exports [] ls h = refl
read_commands-exports (e ∷ env) ls h =
    rw
      (
        read_command-export_line e (unlines (map export_line env ++ ls)) h.0,
        read_commands-exports env ls h.1,
      )
      refl

-- Where every name is made of characters that need no quoting, the shell reads, after the first
-- two lines of a supervisor's script, one export for each ENV entry, in order, whose value is
-- the entry's to the character, and then the lines that run the service.
pub read_commands-build_supervisor_script :
    (svc : Service) (env : List EnvVar) (user workdir : Text) (hc : Option Healthcheck)
    → All (λ e. all_chars is_plain e.key ≡ true) env
    → read_commands
        (length env)
        (drop (length (unlines supervisor_head)) (build_supervisor_script svc env user workdir hc))
      ≡ some (map export_words env, unlines (supervisor_body svc user workdir hc))
unfolding build_supervisor_script unlines
read_commands-build_supervisor_script svc env user workdir hc h =
    read_commands-exports env (supervisor_body svc user workdir hc) h

-- A word of characters that need no quoting.
abbrev pub is_word : Text → Bool
is_word [] = false
is_word (c ∷ k) = all_chars is_plain (c ∷ k)

pub scan-word :
    (k : Text) (words : List Text) (rest : Text)
    → is_word k ≡ true
    → scan between [] words (k ++ 32 ∷ rest) ≡ scan between [] (k ∷ words) rest
unfolding scan act
scan-word [] words rest h = absurd (ground arith)
scan-word (c ∷ k) words rest h =
    scan-first_plain c words (k ++ 32 ∷ rest) (plain_parts c k h).0
    ∙ scan-plain_word (c ∷ k) [] words (32 ∷ rest) h
    ∙ ap (λ w. scan between [] (w ∷ words) rest) (reverse-reverse (c ∷ k))

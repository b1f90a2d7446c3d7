-- ===== src/Scripts/Accounts.antt =====
-- `buildHostsFile`, `buildPasswd` and `buildGroup` of internal/rootfs/build.go.
use mathlib.Core.List.{map, reverse, reverse-reverse, reverse_aux}
use cnimbus.Common.{List, [], ap, arith, false, if◌then◌else◌, refl, ◌++◌, ◌||◌, ◌∙◌, ◌∷◌, ◌≡◌, ◌≢◌}
use cnimbus.Common.Text.{Text, codes, contains, eqt, split, split_loop}
use cnimbus.Scripts.LineBreaks.{OneLine, contains-append, lines-unlines}
use cnimbus.Scripts.Reader.{lines}
use cnimbus.Scripts.Shell.{concat, unlines}

unfoldable pub build_hosts_file : Text → Text
unfolding concat eqt
build_hosts_file hostname = concat (
    codes "127.0.0.1\tlocalhost\n::1\tlocalhost ip6-localhost ip6-loopback\n"
    ∷ (if eqt hostname [] || eqt hostname (codes "localhost")
        then []
        else concat (codes "127.0.1.1\t" ∷ hostname ∷ codes "\n" ∷ []))
    ∷ [])

abbrev passwd_line : Text → Text
passwd_line name = concat (name ∷ codes ":x:1000:1000:" ∷ name ∷ codes ":/:/bin/false" ∷ [])

unfoldable pub build_passwd : Text → Text
unfolding concat unlines
build_passwd [] = unlines (codes "root:x:0:0:root:/:/bin/false" ∷ [])
build_passwd (c ∷ name) =
    unlines (codes "root:x:0:0:root:/:/bin/false" ∷ passwd_line (c ∷ name) ∷ [])

unfoldable pub build_group : Text → Text
unfolding unlines
build_group [] = unlines (codes "root:x:0:" ∷ [])
build_group (c ∷ name) = unlines (codes "root:x:0:" ∷ ((c ∷ name) ++ codes ":x:1000:") ∷ [])

-- The records of a table: the fields of each line.
unfoldable pub read_table : Text → List (List Text)
unfolding lines split
read_table s = map (split 58) (lines s)

split-field :
    (l acc s : Text)
    → contains l 58 ≡ false
    → split_loop 58 acc (l ++ 58 ∷ s) ≡ reverse (reverse_aux l acc) ∷ split_loop 58 [] s
unfolding split_loop contains
split-field [] acc s h = refl
split-field (c ∷ l) acc s h = ground (arith, split-field l (c ∷ acc) s)

abbrev root_record : List Text
root_record =
    codes "root"
    ∷ codes "x"
    ∷ codes "0"
    ∷ codes "0"
    ∷ codes "root"
    ∷ codes "/"
    ∷ codes "/bin/false"
    ∷ []

abbrev user_record : Text → List Text
user_record name =
    name ∷ codes "x" ∷ codes "1000" ∷ codes "1000" ∷ name ∷ codes "/" ∷ codes "/bin/false" ∷ []

passwd_line-OneLine : (name : Text) → OneLine name → OneLine (passwd_line name)
unfolding contains concat
passwd_line-OneLine name h = ground (
  arith,
  h,
  contains-append name (codes ":x:1000:1000:" ++ (name ++ codes ":/:/bin/false")) 10,
  contains-append name (codes ":/:/bin/false") 10,
)

split-passwd_line :
    (name : Text) → contains name 58 ≡ false → split 58 (passwd_line name) ≡ user_record name
unfolding split concat split_loop
split-passwd_line name h =
    rw
      (
        split-field name [] (codes "x:1000:1000:" ++ (name ++ codes ":/:/bin/false")) h,
        split-field name [] (codes "/:/bin/false") h,
        reverse-reverse name,
      )
      refl

group_line-OneLine : (name : Text) → OneLine name → OneLine (name ++ codes ":x:1000:")
unfolding contains
group_line-OneLine name h = ground (arith, h, contains-append name (codes ":x:1000:") 10)

split-group_line :
    (name : Text)
    → contains name 58 ≡ false
    → split 58 (name ++ codes ":x:1000:") ≡ name ∷ codes "x" ∷ codes "1000" ∷ [] ∷ []
unfolding split split_loop
split-group_line name h = rw (split-field name [] (codes "x:1000:") h, reverse-reverse name) refl

-- For a USER whose name is not empty and has no colon and no newline, the password table has
-- exactly two records, root's with the number 0 and the user's with 1000, neither with a shell,
-- and the group table has the two groups of the same numbers.
pub read_table-accounts :
    (name : Text)
    → name ≢ []
    → OneLine name
    → contains name 58 ≡ false
    → (read_table (build_passwd name) ≡ root_record ∷ user_record name ∷ [])
      × (read_table (build_group name)
          ≡ (codes "root" ∷ codes "x" ∷ codes "0" ∷ [] ∷ [])
            ∷ (name ∷ codes "x" ∷ codes "1000" ∷ [] ∷ [])
            ∷ [])
unfolding read_table build_passwd build_group contains split split_loop
read_table-accounts [] some_name one colon = absurd (some_name refl)
read_table-accounts (c ∷ name) some_name one colon = (
  ap (map (split 58)) (
        lines-unlines (codes "root:x:0:0:root:/:/bin/false" ∷ passwd_line (c ∷ name) ∷ [])
          (refl, (passwd_line-OneLine (c ∷ name) one, tt)))
      ∙ ap (λ r. root_record ∷ r ∷ []) (split-passwd_line (c ∷ name) colon),
  ap (map (split 58)) (
        lines-unlines (codes "root:x:0:" ∷ ((c ∷ name) ++ codes ":x:1000:") ∷ [])
          (refl, (group_line-OneLine (c ∷ name) one, tt)))
      ∙ ap (λ r. (codes "root" ∷ codes "x" ∷ codes "0" ∷ [] ∷ []) ∷ r ∷ [])
          (split-group_line (c ∷ name) colon),
)

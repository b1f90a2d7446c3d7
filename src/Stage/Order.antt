-- ===== src/Stage/Order.antt =====
-- Each file of the first stage is put in place, in order, before the image's root takes over.
use mathlib.Core.Path.{fun_ext}
use cnimbus.Common.{
  All, All-append, Bool, List, [], ap, arith, drop, length, refl, ◌++◌, ◌∙◌, ◌∷◌, ◌≡◌,
}
use cnimbus.Common.Number.{format_uint}
use cnimbus.Common.Text.{Text, codes, contains, has_prefix, trim_prefix}
use cnimbus.Common.Windows.{drop-append}
use cnimbus.Rootfs.Path.{dir}
use cnimbus.Scripts.Boot.Network.{uptime_checkpoint}
use cnimbus.Scripts.LineBreaks.{
  OneLine, contains-append, lines-unlines, sh_quote-OneLine, unlines-append,
}
use cnimbus.Scripts.Numerals.{format_uint-word, is_word-OneLine}
use cnimbus.Scripts.Reader.{act, is_plain, lines, read_command, scan}
use cnimbus.Scripts.Shell.{concat, sh_quote, unlines}
use cnimbus.Scripts.Spec.{ExtraFile}
use cnimbus.Stage.Init.{
  build_stage1_init, chmod_command, copy_command, file_checks, hand_over, stage1_head,
  staging_check,
}
use cnimbus.Stage.Shadow.{trim_leading_slash}
use cnimbus.Stage.Staged.{
  checked, move, outside, read_command-chmod, read_command-copy, run_checks, run_checks-check,
  run_commands_in_order, staging_commands,
}

rel-OneLine : (path : Text) → OneLine path → OneLine (trim_leading_slash path)
unfolding trim_leading_slash trim_prefix has_prefix contains
rel-OneLine [] h = refl
rel-OneLine (c ∷ path) h = ground arith

prefixed-OneLine : (path : Text) → OneLine path → (dir : Text) → OneLine dir → OneLine (dir ++ path)
prefixed-OneLine path h dir one = ground (arith, h, one, contains-append dir path 10)

staging_check-OneLine :
    (cmd path : Text) → OneLine cmd → OneLine path → All OneLine (staging_check cmd path)
unfolding staging_check contains concat
staging_check-OneLine cmd path one path_one = (
  ground (arith, one, contains-append cmd (codes "; then") 10),
  (
    sh_quote-OneLine
        (codes "cnimbus: FATAL: could not stage "
          ++ (path ++ codes " into its exec directory (tmpfs full? see TMPSIZE)"))
        (ground (
          arith,
          path_one,
          contains-append path (codes " into its exec directory (tmpfs full? see TMPSIZE)") 10,
        )),
    (refl, (refl, tt)),
  ),
)

command-OneLine :
    (f : ExtraFile) → OneLine f.path → OneLine (copy_command f) × OneLine (chmod_command f)
unfolding copy_command chmod_command contains concat
command-OneLine f h =
    let rel = rel-OneLine f.path h in
    let source = codes "/shadow/" ++ trim_leading_slash f.path in
    let target = codes "/mnt/root/" ++ trim_leading_slash f.path in
    let target_one = sh_quote-OneLine target rel in
    (
      ground (
        arith,
        target_one,
        sh_quote-OneLine source rel,
        contains-append (sh_quote source) (32 ∷ sh_quote target) 10,
      ),
      ground (
        arith,
        target_one,
        is_word-OneLine (format_uint 8 f.perm) (format_uint-word f.perm),
        contains-append (format_uint 8 f.perm) (32 ∷ sh_quote target) 10,
      ),
    )

file_checks-OneLine :
    (files : List ExtraFile)
    → All (λ f. OneLine f.path) files
    → All OneLine (file_checks files ++ hand_over)
unfolding file_checks uptime_checkpoint contains concat
file_checks-OneLine [] h = (refl, (refl, tt))
file_checks-OneLine (f ∷ files) h =
    let rel = trim_leading_slash f.path in
    let rel_one = rel-OneLine f.path h.0 in
    let both = command-OneLine f h.0 in
    let copy = staging_check (copy_command f) rel in
    let chmod = staging_check (chmod_command f) rel in
    let on = file_checks files ++ hand_over in
    All-append OneLine copy (chmod ++ on)
      (staging_check-OneLine (copy_command f) rel both.0 rel_one)
      (All-append OneLine chmod on (staging_check-OneLine (chmod_command f) rel both.1 rel_one)
        (file_checks-OneLine files h.1))

-- The lines behind the checks.
run_checks-hand_over :
    (runs : List Text → Bool) (ran : List (List Text))
    → run_checks runs hand_over ran outside ≡ run_commands_in_order runs ran []
unfolding run_checks move run_commands_in_order uptime_checkpoint has_prefix concat read_command
    scan act is_plain contains
run_checks-hand_over runs ran = refl

run_checks-file_checks :
    (runs : List Text → Bool) (ran : List (List Text)) (files : List ExtraFile)
    → run_checks runs (file_checks files ++ hand_over) ran outside
      ≡ run_commands_in_order runs ran (staging_commands files)
unfolding file_checks staging_check staging_commands run_commands_in_order
run_checks-file_checks runs ran [] = run_checks-hand_over runs ran
run_checks-file_checks runs ran (f ∷ files) =
    let rel = trim_leading_slash f.path in
    let target = codes "/mnt/root/" ++ rel in
    let copy_words = codes "cp" ∷ (codes "/shadow/" ++ rel) ∷ target ∷ [] in
    let chmod_words = codes "chmod" ∷ format_uint 8 f.perm ∷ target ∷ [] in
    let on = file_checks files ++ hand_over in
    run_checks-check runs ran (copy_command f) rel copy_words
      (staging_check (chmod_command f) rel ++ on) (read_command-copy f)
    ∙ ap (λ next. checked runs ran next copy_words)
        (fun_ext (λ now.
          run_checks-check runs now (chmod_command f) rel chmod_words on (read_command-chmod f)
          ∙ ap (λ next. checked runs now next chmod_words)
              (fun_ext (λ later. run_checks-file_checks runs later files))))

-- Where no path holds a newline, the part of the script after the root is found and the applets
-- are installed runs, for each file in order, the copy from the first stage to the file's own
-- path and then the change to its mode. At the first command that fails it exits with status 1;
-- only when all have succeeded does it hand over, by switch_root, to the init of the image's root.
pub run_checks-build_stage1_init :
    (runs : List Text → Bool) (shadowed : List ExtraFile) (size : Text)
    → All (λ f. OneLine f.path) shadowed
    → run_checks runs
        (lines (drop (length (unlines (stage1_head size))) (build_stage1_init shadowed size)))
        []
        outside
      ≡ run_commands_in_order runs [] (staging_commands shadowed)
unfolding build_stage1_init
run_checks-build_stage1_init runs shadowed size h =
    let checks = file_checks shadowed ++ hand_over in
    ap (λ s. run_checks runs (lines (drop (length (unlines (stage1_head size))) s)) [] outside)
      (unlines-append (stage1_head size) checks)
    ∙ ap (λ s. run_checks runs (lines s) [] outside)
        (drop-append (unlines (stage1_head size)) (unlines checks))
    ∙ ap (λ ls. run_checks runs ls [] outside)
        (lines-unlines checks (file_checks-OneLine shadowed h))
    ∙ run_checks-file_checks runs [] shadowed

-- ===== src/Stage/Shadow.antt =====
-- The four directories of programs that a tmpfs covers at boot, in internal/rootfs/frompieces.go:
-- a file that goes there travels in the first stage, any other in the read-only root.
use cnimbus.Common.{Bool, List, [], false, if◌then◌else◌, true, ◌++◌, ◌||◌, ◌∷◌}
use cnimbus.Common.Text.{Text, codes, has_prefix, trim_prefix}
use cnimbus.Scripts.Spec.{ExtraFile}

abbrev pub exec_dirs : List Text
exec_dirs = codes "bin" ∷ codes "sbin" ∷ codes "usr/bin" ∷ codes "usr/sbin" ∷ []

unfoldable pub trim_leading_slash : Text → Text
unfolding trim_prefix
trim_leading_slash p = trim_prefix p (codes "/")

unfoldable pub has_any_prefix : Text → List Text → Bool
unfolding has_prefix
has_any_prefix p [] = false
has_any_prefix p (d ∷ dirs) = has_prefix p (d ++ codes "/") || has_any_prefix p dirs

unfoldable pub is_shadowed_path : Text → Bool
unfolding has_any_prefix trim_leading_slash
is_shadowed_path p = has_any_prefix (trim_leading_slash p) exec_dirs

unfoldable pub first_dir : Text → List Text → Text
unfolding has_prefix
first_dir p [] = []
first_dir p (d ∷ dirs) =
    let rest = first_dir p dirs in if has_prefix p (d ++ codes "/") then d else rest

unfoldable pub exec_dir_of : Text → Text
unfolding first_dir trim_leading_slash
exec_dir_of p = first_dir (trim_leading_slash p) exec_dirs

pub record SplitFiles : Type 0 where
  pub shadowed : List ExtraFile
  pub normal : List ExtraFile

abbrev pub kept : Bool → ExtraFile → SplitFiles → SplitFiles
kept true f rest = record { shadowed = f ∷ rest.shadowed; normal = rest.normal }
kept false f rest = record { shadowed = rest.shadowed; normal = f ∷ rest.normal }

unfoldable pub split_shadowed_files : List ExtraFile → SplitFiles
unfolding is_shadowed_path
split_shadowed_files [] = record { shadowed = []; normal = [] }
split_shadowed_files (f ∷ files) = kept (is_shadowed_path f.path) f (split_shadowed_files files)

-- ===== src/Stage/Placed.antt =====
-- What the first stage puts into the directories of programs, told by the paths of the files: the
-- bytes below a directory are those of the files whose path starts with its name and a slash.
use mathlib.Core.List.{map}
use cnimbus.Common.{
  All, Bool, List, [], ap, arith, false, if◌then◌else◌, length, refl, true, ℕ, ◌++◌, ◌+◌, ◌||◌, ◌∷◌,
  ◌≡◌,
}
use cnimbus.Common.Bytes.{Bytes}
use cnimbus.Common.Text.{Text, codes, eqt, has_prefix}
use cnimbus.Rootfs.Path.{dir}
use cnimbus.Scripts.Spec.{ExtraFile}
use cnimbus.Stage.Shadow.{exec_dir_of, exec_dirs, first_dir, trim_leading_slash}
use cnimbus.Stage.Tmpfs.{charged, total_of}

-- The files, with their paths below the root: BusyBox and what travels in the first stage.
abbrev pub placed_files : Bytes → List ExtraFile → List (Text × Bytes)
placed_files busybox shadowed =
    (codes "bin/busybox", busybox) ∷ map (λ f. (trim_leading_slash f.path, f.data_bytes)) shadowed

unfoldable pub bytes_below : Text → List (Text × Bytes) → ℕ
unfolding has_prefix
bytes_below dir [] = 0
bytes_below dir ((path, content) ∷ files) =
    let rest = bytes_below dir files in
    if has_prefix path (dir ++ codes "/") then length content + rest else rest

-- Of two prefixes of a text, one is a prefix of the other.
prefixes_agree :
    (s p q : Text)
    → has_prefix s p ≡ true
    → has_prefix s q ≡ true
    → (has_prefix p q || has_prefix q p) ≡ true
unfolding has_prefix
prefixes_agree s [] [] h k = refl
prefixes_agree s [] (d ∷ q) h k = refl
prefixes_agree s (c ∷ p) [] h k = refl
prefixes_agree [] (c ∷ p) (d ∷ q) h k = cc
prefixes_agree (x ∷ s) (c ∷ p) (d ∷ q) h k = ground (arith, prefixes_agree s p q)

-- Which directories of programs a path is below.
abbrev below : Text → Text → Bool
below s dir = has_prefix s (dir ++ codes "/")

-- A path below one directory is below no other.
apart :
    (s dir other : Text)
    → (has_prefix (dir ++ codes "/") (other ++ codes "/")
        || has_prefix (other ++ codes "/") (dir ++ codes "/"))
      ≡ false
    → below s dir ≡ true
    → below s other ≡ false
apart s dir other differ h =
    ground (arith, prefixes_agree s (dir ++ codes "/") (other ++ codes "/") h)

module _ (s : Text) where
  first_dir-bin : eqt (first_dir s exec_dirs) (codes "bin") ≡ below s (codes "bin")
  unfolding first_dir eqt
  first_dir-bin = ground arith

  first_dir-sbin : eqt (first_dir s exec_dirs) (codes "sbin") ≡ below s (codes "sbin")
  unfolding first_dir eqt has_prefix
  first_dir-sbin = ground (arith, apart s (codes "bin") (codes "sbin") refl)

  first_dir-usr_bin : eqt (first_dir s exec_dirs) (codes "usr/bin") ≡ below s (codes "usr/bin")
  unfolding first_dir eqt has_prefix
  first_dir-usr_bin = ground (
    arith,
    apart s (codes "bin") (codes "usr/bin") refl,
    apart s (codes "sbin") (codes "usr/bin") refl,
  )

  first_dir-usr_sbin : eqt (first_dir s exec_dirs) (codes "usr/sbin") ≡ below s (codes "usr/sbin")
  unfolding first_dir eqt has_prefix
  first_dir-usr_sbin = ground (
    arith,
    apart s (codes "bin") (codes "usr/sbin") refl,
    apart s (codes "sbin") (codes "usr/sbin") refl,
    apart s (codes "usr/bin") (codes "usr/sbin") refl,
  )

-- The directory that a file is charged to is the one that its path is below.
IsCharged : Text → Type 0
IsCharged dir = (s : Text) → eqt (first_dir s exec_dirs) dir ≡ below s dir

charged-bytes_below :
    (dir : Text) (shadowed : List ExtraFile)
    → IsCharged dir
    → charged dir shadowed
      ≡ bytes_below dir (map (λ f. (trim_leading_slash f.path, f.data_bytes)) shadowed)
unfolding charged bytes_below exec_dir_of IsCharged
charged-bytes_below dir [] h = refl
charged-bytes_below dir (f ∷ files) h =
    rw (h (trim_leading_slash f.path), charged-bytes_below dir files h) refl

-- What the check adds up for a directory is what the first stage puts there.
pub total_of-bytes_below :
    (shadowed : List ExtraFile) (busybox : Bytes)
    → All
        (λ dir. total_of dir shadowed busybox ≡ bytes_below dir (placed_files busybox shadowed))
        exec_dirs
unfolding total_of bytes_below has_prefix eqt IsCharged
total_of-bytes_below shadowed busybox = (
  ap (λ n. length busybox + n) (charged-bytes_below (codes "bin") shadowed first_dir-bin),
  (
    omega (arith, charged-bytes_below (codes "sbin") shadowed first_dir-sbin),
    (
      omega (arith, charged-bytes_below (codes "usr/bin") shadowed first_dir-usr_bin),
      (omega (arith, charged-bytes_below (codes "usr/sbin") shadowed first_dir-usr_sbin), tt),
    ),
  ),
)

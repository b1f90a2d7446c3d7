-- ===== src/Stage/Tmpfs.antt =====
-- `parseTmpfsSizeBytes` and `checkShadowedFilesFitTmpfs` of internal/rootfs/frompieces.go.
use cnimbus.Common.{
  Bool, List, Option, Result, [], err, false, if◌then◌else◌, length, ltb, none, ok, some, suc, take,
  true, zero, ℕ, ◌%◌, ◌*◌, ◌+◌, ◌-◌, ◌==◌, ◌>>=◌, ◌^◌, ◌||◌, ◌∷◌,
}
use cnimbus.Common.Bytes.{Bytes}
use cnimbus.Common.Number.{atoi, negsuc, pos, ℤ}
use cnimbus.Common.Text.{Text, codes, eqt}
use cnimbus.Rootfs.Path.{dir}
use cnimbus.Scripts.Spec.{ExtraFile}
use cnimbus.Stage.Init.{size_or_default}
use cnimbus.Stage.Shadow.{exec_dir_of, exec_dirs}

-- The `int64` of 64 bits that holds a number, which wraps around.
unfoldable pub to_int64 : ℕ → ℤ
to_int64 n = let w = n % 2 ^ 64 in if ltb w (2 ^ 63) then pos w else negsuc (2 ^ 64 - 1 - w)

abbrev pub greater : ℤ → ℤ → Bool
greater (pos a) (pos b) = ltb b a
greater (pos a) (negsuc b) = true
greater (negsuc a) (pos b) = false
greater (negsuc a) (negsuc b) = ltb a b

abbrev last_of : ℕ → Text → ℕ
last_of c [] = c
last_of c (d ∷ s) = last_of d s

abbrev multiplier : ℕ → Option ℕ
multiplier c =
    if c == b'k' || c == b'K'
    then some 1024
    else if c == b'm' || c == b'M'
    then some (1024 * 1024)
    else if c == b'g' || c == b'G'
    then some (1024 * 1024 * 1024)
    else none

pub data SizeFailure : Type 0 where
  bad_size too_small : SizeFailure

-- A positive number and what it is multiplied by.
abbrev positive_only : Option ℤ → ℕ → Result SizeFailure (ℕ × ℕ)
positive_only (some (pos (suc n))) mult = ok (suc n, mult)
positive_only (some (pos zero)) mult = err bad_size
positive_only (some (negsuc n)) mult = err bad_size
positive_only none mult = err bad_size

abbrev with_multiplier : Option ℕ → Text → Result SizeFailure (ℕ × ℕ)
with_multiplier none size = positive_only (atoi size) 1
with_multiplier (some mult) size = positive_only (atoi (take (length size - 1) size)) mult

abbrev size_parts_of : Text → Result SizeFailure (ℕ × ℕ)
size_parts_of [] = err bad_size
size_parts_of (c ∷ s) = with_multiplier (multiplier (last_of c s)) (c ∷ s)

-- The two factors of a size; an empty one is the default, 32m.
unfoldable pub size_parts : Text → Result SizeFailure (ℕ × ℕ)
unfolding atoi
size_parts size = size_parts_of (size_or_default size)

unfoldable pub parse_tmpfs_size_bytes : Text → Result SizeFailure ℤ
unfolding size_parts to_int64
parse_tmpfs_size_bytes size = size_parts size >>= λ parts. ok (to_int64 (parts.0 * parts.1))

-- `totals[dir]`, before it wraps around: BusyBox stands in bin, and each file in its directory.
unfoldable pub charged : Text → List ExtraFile → ℕ
unfolding exec_dir_of eqt
charged dir [] = 0
charged dir (f ∷ files) =
    let rest = charged dir files in
    if eqt (exec_dir_of f.path) dir then length f.data_bytes + rest else rest

unfoldable pub total_of : Text → List ExtraFile → Bytes → ℕ
unfolding charged eqt
total_of dir shadowed busybox =
    (if eqt dir (codes "bin") then length busybox else 0) + charged dir shadowed

unfoldable pub check_dirs : List Text → List ExtraFile → Bytes → ℤ → Result SizeFailure (Unit {0})
unfolding total_of to_int64
check_dirs [] shadowed busybox limit = ok tt
check_dirs (dir ∷ dirs) shadowed busybox limit =
    let rest = check_dirs dirs shadowed busybox limit in
    if greater (to_int64 (total_of dir shadowed busybox)) limit then err too_small else rest

unfoldable pub check_shadowed_files_fit_tmpfs :
    List ExtraFile → Bytes → Text → Result SizeFailure (Unit {0})
unfolding parse_tmpfs_size_bytes check_dirs
check_shadowed_files_fit_tmpfs shadowed busybox tmpfs_size =
    parse_tmpfs_size_bytes tmpfs_size >>= λ limit. check_dirs exec_dirs shadowed busybox limit

-- ===== src/Build/Copies.antt =====
-- cmd/cnimbus/build.go: where the entries of an archive of ADD go in the image.
use mathlib.Core.List.{reverse}
use cnimbus.Common.{
  Bool, Option, [], if◌then◌else◌, length, none, not, some, take, ◌&&◌, ◌++◌, ◌-◌, ◌||◌, ◌∷◌,
}
use cnimbus.Common.Text.{Text, codes, eqt, has_prefix}
use cnimbus.Rootfs.Path.{dir_elements, is_rooted, render}
use cnimbus.Stage.Shadow.{trim_leading_slash}

-- `path.Clean`
unfoldable pub clean : Text → Text
unfolding dir_elements eqt
clean s = render (is_rooted s) (dir_elements (is_rooted s) [] [] (s ++ 47 ∷ []))

unfoldable pub safe_image_path : Text → Text → Option Text
unfolding clean eqt has_prefix
safe_image_path dest_prefix name =
    let joined = clean (dest_prefix ++ 47 ∷ name) in
    let prefix = clean dest_prefix in
    if not (eqt joined prefix) && not (has_prefix joined (prefix ++ 47 ∷ []))
    then none
    else some joined

-- strings.HasSuffix, on the backward texts
abbrev has_suffix : Text → Text → Bool
has_suffix s suffix = has_prefix (reverse s) (reverse suffix)

unfoldable pub is_tarball : Text → Bool
unfolding has_prefix
is_tarball name =
    has_suffix name (codes ".tar")
    || has_suffix name (codes ".tar.gz")
    || has_suffix name (codes ".tgz")

-- A dest of COPY or ADD, without one slash at each end, and whether it names a directory.
abbrev without_last_slash : Text → Text
without_last_slash s = if has_suffix s (codes "/") then take (length s - 1) s else s

unfoldable pub copy_dest : Text → Text × Bool
unfolding has_prefix trim_leading_slash
copy_dest dest = (without_last_slash (trim_leading_slash dest), has_suffix dest (codes "/"))

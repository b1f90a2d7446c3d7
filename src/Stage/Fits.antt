-- ===== src/Stage/Fits.antt =====
-- What a passed check of Stage/Tmpfs means, although its arithmetic wraps around.
use cnimbus.Common.{All, List, ℕ}
use cnimbus.Common.Bytes.{Bytes}
use cnimbus.Common.Text.{Text}
use cnimbus.Rootfs.Path.{dir}
use cnimbus.Scripts.Spec.{ExtraFile}
use cnimbus.Stage.Placed.{bytes_below, placed_files}
use cnimbus.Stage.Shadow.{exec_dirs}

-- The files that the first stage places, below each directory.
abbrev pub Below : List ExtraFile → Bytes → (ℕ → Type 0) → Type 0
Below shadowed busybox P =
    All (λ dir. P (bytes_below dir (placed_files busybox shadowed))) exec_dirs

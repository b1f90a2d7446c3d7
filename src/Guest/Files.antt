-- ===== src/Guest/Files.antt =====
-- The files that internal/agentruntime changes: what stands at each path, a file or a link. The
-- operations are those of Go's `os` package on one machine.
use cnimbus.Common.{List, Option, [], arith, false, if◌then◌else◌, none, refl, some, true, ◌∷◌, ◌≡◌}
use cnimbus.Common.Bytes.{Bytes}
use cnimbus.Common.Text.{Text, eqt, eqt_iff}

pub data Node : Type 0 where
  regular : Bytes → Node
  link_to : Text → Node

abbrev pub Files : Type 0
Files = List (Text × Node)

unfoldable pub node_at : Text → Files → Option Node
unfolding eqt
node_at p [] = none
node_at p ((q, n) ∷ fs) = let rest = node_at p fs in if eqt p q then some n else rest

unfoldable pub remove : Text → Files → Files
unfolding eqt
remove p [] = []
remove p ((q, n) ∷ fs) = let rest = remove p fs in if eqt p q then rest else (q, n) ∷ rest

unfoldable pub store : Text → Node → Files → Files
unfolding remove
store p n fs = (p, n) ∷ remove p fs

pub eqt-same_text : (p : Text) → eqt p p ≡ true
eqt-same_text p = (eqt_iff p p).1 refl

pub node_at-store : (p : Text) (n : Node) (fs : Files) → node_at p (store p n fs) ≡ some n
unfolding node_at store
node_at-store p n fs = rw (eqt-same_text p) refl

pub node_at-remove :
    (p q : Text) (fs : Files) → eqt p q ≡ false → node_at p (remove q fs) ≡ node_at p fs
unfolding node_at remove
node_at-remove p q [] h = refl
node_at-remove p q ((r, n) ∷ fs) h =
    ground (arith, node_at-remove p q fs h, eqt_iff p r, eqt_iff q r, eqt_iff p q)

pub node_at-store_other :
    (p q : Text) (n : Node) (fs : Files) → eqt p q ≡ false → node_at p (store q n fs) ≡ node_at p fs
unfolding node_at store
node_at-store_other p q n fs h = rw h (node_at-remove p q fs h)

-- ===== src/Guest/Atomic.antt =====
-- One round of the agent: what stands at its file after each system call.
use cnimbus.Common.{
  All, Bool, Bool-cases, List, Option, Result, [], ap, arith, err, false, inl, inr, length,
  length-append, none, ok, refl, some, take, true, ◌∙◌, ◌∷◌, ◌≡◌, ◌⊎◌,
}
use cnimbus.Common.Bytes.{Bytes}
use cnimbus.Common.Text.{Text, codes, eqt, eqt_iff}
use cnimbus.Guest.Files.{
  Files, Node, node_at, node_at-remove, node_at-store, node_at-store_other, regular, remove, store,
}
use cnimbus.Guest.Runtime.{
  Faults, OsError, Ran, after_write, moved, open_at, rename_after, tmp_path, write_exclusive,
  write_kv, write_open,
}

tmp-other : (path : Text) → eqt path (tmp_path path) ≡ false
tmp-other path = elim (Bool-cases (eqt path (tmp_path path))) [
  | inl e ↦ absurd (
      omega
        (arith, ap length ((eqt_iff path (tmp_path path)).0 e), length-append path (codes ".tmp")))
  | inr e ↦ e
]

abbrev pub Same : Text → Files → Files → Type 0
Same path a b = node_at path b ≡ node_at path a

-- What a run of calls on another path does to what stands at this one, and what a run that
-- succeeds leaves at its own.
record Quiet (path tmp : Text) (value : Bytes) (old : Files) (ran : Ran) : Type 0 where
  last : Same path old ran.now
  all : All (Same path old) ran.before
  written_whole : ran.outcome ≡ ok tt → node_at tmp ran.now ≡ some (regular value)

Same-store :
    (path tmp : Text) (n : Node) (old fs : Files)
    → eqt path tmp ≡ false
    → Same path old fs
    → Same path old (store tmp n fs)
Same-store path tmp n old fs other same = node_at-store_other path tmp n fs other ∙ same

after_write-Quiet :
    (path tmp : Text) (value part : Bytes) (old fs : Files) (earlier : List Files)
    (write close : Bool)
    → eqt path tmp ≡ false
    → Same path old fs
    → All (Same path old) earlier
    → Quiet path tmp value old (
        after_write write close
          (store tmp (regular part) fs)
          (store tmp (regular value) fs)
          earlier)
after_write-Quiet path tmp value part old fs earlier true close other same h = record {
  last = Same-store path tmp (regular part) old fs other same;
  all = h;
  written_whole = λ e. absurd (ground (arith, e));
}
after_write-Quiet path tmp value part old fs earlier false true other same h = record {
  last = Same-store path tmp (regular value) old fs other same;
  all = h;
  written_whole = λ e. absurd (ground (arith, e));
}
after_write-Quiet path tmp value part old fs earlier false false other same h = record {
  last = Same-store path tmp (regular value) old fs other same;
  all = h;
  written_whole = λ e. node_at-store tmp (regular value) fs;
}

write_open-Quiet :
    (ft : Faults) (path tmp : Text) (value : Bytes) (old fs : Files) (earlier : List Files)
    → eqt path tmp ≡ false
    → Same path old fs
    → All (Same path old) earlier
    → Quiet path tmp value old (write_open ft tmp value fs earlier)
unfolding write_open
write_open-Quiet ft path tmp value old fs earlier other same h =
    let empty = store tmp (regular []) fs in
    let here = Same-store path tmp (regular []) old fs other same in
    after_write-Quiet path tmp value (take ft.written value) old empty (empty ∷ earlier)
      ft.write_fails ft.close_fails other here (here, h)

open_at-Quiet :
    (at : Option Node) (first rm again : Bool) (ft : Faults) (path tmp : Text) (value : Bytes)
    (fs : Files)
    → eqt path tmp ≡ false
    → Quiet path tmp value fs (open_at at first rm again ft tmp value fs)
open_at-Quiet at true rm again ft path tmp value fs other = record {
  last = refl;
  all = (refl, tt);
  written_whole = λ e. absurd (ground (arith, e));
}
open_at-Quiet none false rm again ft path tmp value fs other =
    write_open-Quiet ft path tmp value fs fs (fs ∷ []) other refl (refl, tt)
open_at-Quiet (some n) false true again ft path tmp value fs other = record {
  last = refl;
  all = (refl, tt);
  written_whole = λ e. absurd (ground (arith, e));
}
open_at-Quiet (some n) false false true ft path tmp value fs other = record {
  last = node_at-remove path tmp fs other;
  all = (refl, tt);
  written_whole = λ e. absurd (ground (arith, e));
}
open_at-Quiet (some n) false false false ft path tmp value fs other =
    write_open-Quiet ft path tmp value fs (remove tmp fs) (fs ∷ []) other
      (node_at-remove path tmp fs other) (refl, tt)

-- A round: the value that stood at the path, or the new one as a whole.
abbrev pub NewOrOld : Text → Bytes → Files → Files → Type 0
NewOrOld path value old fs = (node_at path fs ≡ some (regular value)) ⊎ Same path old fs

All-inr :
    (path : Text) (value : Bytes) (old : Files) (fss : List Files)
    → All (Same path old) fss
    → All (NewOrOld path value old) fss
All-inr path value old [] h = tt
All-inr path value old (fs ∷ fss) h = (inr h.0, All-inr path value old fss h.1)

rename_after-NewOrOld :
    (fails : Bool) (path : Text) (value : Bytes) (old now : Files) (before : List Files)
    (outcome : Result OsError (Unit {0}))
    → Same path old now
    → All (Same path old) before
    → (outcome ≡ ok tt → node_at (tmp_path path) now ≡ some (regular value))
    → NewOrOld path value old (rename_after fails path now before outcome).now
      × All (NewOrOld path value old) (rename_after fails path now before outcome).before
rename_after-NewOrOld fails path value old now before (err e) same h w =
    (inr same, All-inr path value old before h)
rename_after-NewOrOld true path value old now before (ok u) same h w =
    (inr same, All-inr path value old before h)
rename_after-NewOrOld false path value old now before (ok u) same h w = (
  inl (
      ap (λ n. node_at path (moved (tmp_path path) path now n)) (w refl)
      ∙ node_at-store path (regular value) (remove (tmp_path path) now)),
  (inr same, All-inr path value old before h),
)

pub write_kv-NewOrOld :
    (ft : Faults) (path : Text) (value : Bytes) (fs : Files)
    → NewOrOld path value fs (write_kv ft path value fs).now
      × All (NewOrOld path value fs) (write_kv ft path value fs).before
unfolding write_kv write_exclusive
write_kv-NewOrOld ft path value fs =
    let tmp = tmp_path path in
    let ran = write_exclusive ft tmp value fs in
    let quiet =
      open_at-Quiet (node_at tmp fs) ft.open_fails ft.remove_fails ft.reopen_fails ft path tmp value
        fs (tmp-other path) in
    rename_after-NewOrOld ft.rename_fails path value fs ran.now ran.before ran.outcome quiet.last
      quiet.all quiet.written_whole

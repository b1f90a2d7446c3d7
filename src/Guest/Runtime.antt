-- ===== src/Guest/Runtime.antt =====
-- internal/agentruntime/agentruntime.go: the value that the agent fetches is written to a second
-- file, which then takes the place of the first. A run gives the files after each of its system
-- calls, the last first, with its error.
use cnimbus.Common.{
  Bool, List, Option, Result, [], err, false, none, ok, some, take, true, ℕ, ◌++◌, ◌∷◌,
}
use cnimbus.Common.Bytes.{Bytes}
use cnimbus.Common.Text.{Text, codes}
use cnimbus.Guest.Files.{Files, Node, node_at, regular, remove, store}

pub data OsError : Type 0 where
  open_error remove_error write_error close_error rename_error : OsError

-- Which calls fail in one round. `written` is how many bytes a failing write leaves.
pub record Faults : Type 0 where
  pub open_fails : Bool
  pub remove_fails : Bool
  pub reopen_fails : Bool
  pub write_fails : Bool
  pub written : ℕ
  pub close_fails : Bool
  pub rename_fails : Bool

pub record Ran : Type 0 where
  pub now : Files
  pub before : List Files
  pub outcome : Result OsError (Unit {0})

abbrev pub tmp_path : Text → Text
tmp_path path = path ++ codes ".tmp"

abbrev pub ended : Files → List Files → Result OsError (Unit {0}) → Ran
ended now earlier outcome = record { now = now; before = earlier; outcome = outcome }

-- The error of the write comes before that of the close. The flags are the failures of the two.
abbrev pub after_write : Bool → Bool → Files → Files → List Files → Ran
after_write true close part whole earlier = ended part earlier (err write_error)
after_write false true part whole earlier = ended whole earlier (err close_error)
after_write false false part whole earlier = ended whole earlier (ok tt)

-- The calls after the file is open and empty.
unfoldable pub write_open : Faults → Text → Bytes → Files → List Files → Ran
unfolding store
write_open ft path value fs earlier =
    let empty = store path (regular []) fs in
    after_write ft.write_fails ft.close_fails (store path (regular (take ft.written value)) empty)
      (store path (regular value) empty) (empty ∷ earlier)

-- The first open may fail for a reason of its own. Otherwise what stands at the path, a link too,
-- makes it fail and is removed, and the file is opened again. The flags are the failures of the
-- first open, the removal and the second open.
abbrev pub open_at : Option Node → Bool → Bool → Bool → Faults → Text → Bytes → Files → Ran
open_at at true rm again ft path value fs = ended fs (fs ∷ []) (err open_error)
open_at none false rm again ft path value fs = write_open ft path value fs (fs ∷ [])
open_at (some n) false true again ft path value fs = ended fs (fs ∷ []) (err remove_error)
open_at (some n) false false true ft path value fs =
    ended (remove path fs) (fs ∷ []) (err open_error)
open_at (some n) false false false ft path value fs =
    write_open ft path value (remove path fs) (fs ∷ [])

unfoldable pub write_exclusive : Faults → Text → Bytes → Files → Ran
unfolding node_at remove write_open
write_exclusive ft path value fs =
    open_at (node_at path fs) ft.open_fails ft.remove_fails ft.reopen_fails ft path value fs

-- os.Rename: what stands at the first path replaces what stands at the second.
abbrev pub moved : Text → Text → Files → Option Node → Files
moved from to fs none = fs
moved from to fs (some n) = store to n (remove from fs)

abbrev pub rename_after : Bool → Text → Files → List Files → Result OsError (Unit {0}) → Ran
rename_after fails path fs earlier (err e) = ended fs earlier (err e)
rename_after true path fs earlier (ok u) = ended fs earlier (err rename_error)
rename_after false path fs earlier (ok u) =
    ended (moved (tmp_path path) path fs (node_at (tmp_path path) fs)) (fs ∷ earlier) (ok tt)

unfoldable pub write_kv : Faults → Text → Bytes → Files → Ran
unfolding write_exclusive node_at store remove
write_kv ft path value fs =
    let ran = write_exclusive ft (tmp_path path) value fs in
    rename_after ft.rename_fails path ran.now ran.before ran.outcome

-- A round of Loop: what the fetch gave, none for an error, and the faults.
abbrev pub AgentRound : Type 0
AgentRound = Option Bytes × Faults

-- The files during the rounds, the last first, after those that came earlier.
unfoldable pub loop : Text → List AgentRound → Files → List Files → List Files
unfolding write_kv
loop path [] fs earlier = fs ∷ earlier
loop path ((none, ft) ∷ rounds) fs earlier = loop path rounds fs (fs ∷ earlier)
loop path ((some value, ft) ∷ rounds) fs earlier =
    let ran = write_kv ft path value fs in loop path rounds ran.now (ran.before ++ earlier)

-- ===== src/Scripts/Entries.antt =====
-- What BusyBox init reads from the table of Scripts/Inittab: four fields, set apart by the first
-- three colons of each line.
use mathlib.Core.List.{map}
use cnimbus.Common.{
  All, List, Option, [], ap, arith, if◌then◌else◌, none, refl, some, ◌&&◌, ◌++◌, ◌∙◌, ◌∷◌, ◌≡◌,
}
use cnimbus.Common.Text.{Text, codes, contains, cut, eqt}
use cnimbus.Nimbus.Types.{Service}
use cnimbus.Scripts.Inittab.{
  agent_line, agent_lines, agent_script_path, build_inittab, core_lines, service_line,
  supervisor_script_path,
}
use cnimbus.Scripts.LineBreaks.{OneLine, contains-append, lines-unlines}
use cnimbus.Scripts.Reader.{act, lines}
use cnimbus.Scripts.Shell.{concat, join}
use cnimbus.Scripts.Spec.{GuestAgent}

pub record InitEntry : Type 0 where
  pub id : Text
  pub runlevels : Text
  pub action : Text
  pub process : Text

unfoldable pub read_entry : Text → Option InitEntry
unfolding cut
read_entry l =
    let a = cut b':' l in
    let b = cut b':' a.after in
    let c = cut b':' b.after in
    if a.found && b.found && c.found
    then some record { id = a.before; runlevels = b.before; action = c.before; process = c.after }
    else none

unfoldable pub read_inittab : Text → List (Option InitEntry)
unfolding lines read_entry
read_inittab s = map read_entry (lines s)

abbrev entry : Text → Text → Option InitEntry
entry act process = some record { id = []; runlevels = []; action = act; process = process }

abbrev pub core_entries : List (Option InitEntry)
core_entries =
    entry (codes "sysinit") (codes "/bin/sh /etc/init.d/rcS")
    ∷ entry (codes "ctrlaltdel") (codes "/sbin/reboot")
    ∷ entry (codes "shutdown") (codes "/bin/sh /etc/init.d/shutdown.sh")
    ∷ []

-- Init restarts a service's script unless the script itself decides when to stop.
unfoldable pub service_entry : Service → Option InitEntry
unfolding eqt
service_entry svc =
    entry
      (if eqt svc.restart (codes "on-failure")
        then codes "once"
        else if eqt svc.restart (codes "no")
        then codes "once"
        else codes "respawn")
      (codes "/bin/sh " ++ supervisor_script_path svc.name)

unfoldable pub agent_entries : Option GuestAgent → List (Option InitEntry)
unfolding eqt
agent_entries none = []
agent_entries (some a) =
    entry (codes "respawn") (
      if eqt a.kind (codes "http")
      then codes "/bin/sh " ++ agent_script_path
      else codes "/usr/bin/cnimbusagent " ++ join (codes " ") (a.kind ∷ a.url ∷ a.interval ∷ []))
    ∷ []

abbrev pub OneLineAgent : Option GuestAgent → Type 0
OneLineAgent none = Unit
OneLineAgent (some a) = OneLine a.kind × OneLine a.url × OneLine a.interval

read_entry-service_line : (svc : Service) → read_entry (service_line svc) ≡ service_entry svc
unfolding read_entry cut service_line service_entry concat eqt supervisor_script_path
read_entry-service_line svc = ground arith

read_entry-agent_lines :
    (agent : Option GuestAgent) → map read_entry (agent_lines agent) ≡ agent_entries agent
unfolding read_entry cut agent_lines agent_line agent_entries concat eqt join
read_entry-agent_lines none = refl
read_entry-agent_lines (some a) = ground arith

service_line-OneLine : (svc : Service) → OneLine svc.name → OneLine (service_line svc)
unfolding service_line supervisor_script_path contains eqt concat
service_line-OneLine svc h = ground (arith, contains-append svc.name (codes ".sh") 10)

agent_lines-OneLine :
    (agent : Option GuestAgent) → OneLineAgent agent → All OneLine (agent_lines agent)
unfolding agent_lines agent_line contains eqt concat
agent_lines-OneLine none h = tt
agent_lines-OneLine (some a) h = (
  ground (
    arith,
    h.0,
    h.1,
    h.2,
    contains-append a.kind (32 ∷ (a.url ++ 32 ∷ a.interval)) 10,
    contains-append a.url (32 ∷ a.interval) 10,
  ),
  tt,
)

abbrev rows : List Service → Option GuestAgent → List Text
rows services agent = map service_line services ++ agent_lines agent

rows-OneLine :
    (services : List Service) (agent : Option GuestAgent)
    → All (λ svc. OneLine svc.name) services
    → OneLineAgent agent
    → All OneLine (rows services agent)
rows-OneLine [] agent names on = agent_lines-OneLine agent on
rows-OneLine (svc ∷ services) agent names on =
    (service_line-OneLine svc names.0, rows-OneLine services agent names.1 on)

read_entry-rows :
    (services : List Service) (agent : Option GuestAgent)
    → map read_entry (rows services agent) ≡ map service_entry services ++ agent_entries agent
read_entry-rows [] agent = read_entry-agent_lines agent
read_entry-rows (svc ∷ services) agent =
    rw (read_entry-service_line svc, read_entry-rows services agent) refl

core-OneLine : (ls : List Text) → All OneLine ls → All OneLine (core_lines ++ ls)
unfolding contains
core-OneLine ls h = (refl, (refl, (refl, h)))

core-entries :
    (ls : List Text) → map read_entry (core_lines ++ ls) ≡ core_entries ++ map read_entry ls
unfolding read_entry cut
core-entries ls = refl

-- Where no service's name and no field of the agent holds a newline, init reads from the table
-- the three entries that are always there, then one for each service in order, restarted by init
-- unless the service's policy is "on-failure" or "no", then the agent's, and nothing else.
pub read_inittab-build_inittab :
    (services : List Service) (agent : Option GuestAgent)
    → All (λ svc. OneLine svc.name) services
    → OneLineAgent agent
    → read_inittab (build_inittab services agent)
      ≡ core_entries ++ (map service_entry services ++ agent_entries agent)
unfolding read_inittab build_inittab
read_inittab-build_inittab services agent names on =
    let ls = rows services agent in
    ap (map read_entry)
      (lines-unlines (core_lines ++ ls) (core-OneLine ls (rows-OneLine services agent names on)))
    ∙ core-entries ls
    ∙ ap (λ es. core_entries ++ es) (read_entry-rows services agent)

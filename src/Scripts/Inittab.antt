-- ===== src/Scripts/Inittab.antt =====
-- `buildInittab` of internal/rootfs/build.go: the table of the guest's init process.
use mathlib.Core.List.{map}
use cnimbus.Common.{List, Option, [], if◌then◌else◌, none, some, ◌++◌, ◌||◌, ◌∷◌}
use cnimbus.Common.Text.{Text, codes, eqt}
use cnimbus.Nimbus.Types.{Service}
use cnimbus.Scripts.Shell.{concat, unlines}
use cnimbus.Scripts.Spec.{GuestAgent}

unfoldable pub supervisor_script_path : Text → Text
unfolding concat
supervisor_script_path name = concat (codes "/usr/sbin/cnimbus-svc-" ∷ name ∷ codes ".sh" ∷ [])

abbrev pub agent_script_path : Text
agent_script_path = codes "/usr/sbin/cnimbus-agent.sh"

abbrev pub init_action : Text → Text
init_action restart =
    if eqt restart (codes "on-failure") || eqt restart (codes "no")
    then codes "once"
    else codes "respawn"

unfoldable pub service_line : Service → Text
unfolding concat eqt
service_line svc = concat (
    codes "::" ∷ init_action svc.restart ∷ codes ":/bin/sh " ∷ supervisor_script_path svc.name ∷ [])

unfoldable pub agent_line : GuestAgent → Text
unfolding concat eqt
agent_line a =
    if eqt a.kind (codes "http")
    then codes "::respawn:/bin/sh " ++ agent_script_path
    else concat (
        codes "::respawn:/usr/bin/cnimbusagent "
        ∷ a.kind
        ∷ codes " "
        ∷ a.url
        ∷ codes " "
        ∷ a.interval
        ∷ [])

unfoldable pub agent_lines : Option GuestAgent → List Text
unfolding agent_line
agent_lines none = []
agent_lines (some a) = agent_line a ∷ []

abbrev pub core_lines : List Text
core_lines =
    codes "::sysinit:/bin/sh /etc/init.d/rcS"
    ∷ codes "::ctrlaltdel:/sbin/reboot"
    ∷ codes "::shutdown:/bin/sh /etc/init.d/shutdown.sh"
    ∷ []

unfoldable pub build_inittab : List Service → Option GuestAgent → Text
unfolding unlines service_line agent_lines
build_inittab services agent =
    unlines (core_lines ++ (map service_line services ++ agent_lines agent))

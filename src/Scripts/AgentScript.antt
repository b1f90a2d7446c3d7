-- ===== src/Scripts/AgentScript.antt =====
-- `buildAgentScript` of internal/rootfs/build.go: the script that starts the agent that polls a
-- URL.
use mathlib.Core.List.{map}
use cnimbus.Common.{List, [], ◌++◌, ◌∷◌}
use cnimbus.Common.Text.{Text, codes}
use cnimbus.Nimbus.Types.{AgentHeader}
use cnimbus.Scripts.Shell.{concat, join, sh_quote, unlines}
use cnimbus.Scripts.Spec.{GuestAgent}

abbrev pub header_line : AgentHeader → Text
header_line h = concat (h.name ∷ codes ": " ∷ h.value ∷ [])

unfoldable pub header_export : List AgentHeader → Text
unfolding concat sh_quote join
header_export hs =
    concat (
      codes "export CNIMBUS_AGENT_HEADERS="
      ∷ sh_quote (join (codes "\n") (map header_line hs))
      ∷ [])

unfoldable pub header_exports : List AgentHeader → List Text
unfolding header_export
header_exports [] = []
header_exports (h ∷ hs) = header_export (h ∷ hs) ∷ []

unfoldable pub exec_line : GuestAgent → Text
unfolding concat sh_quote
exec_line a = concat (
    codes "exec /usr/bin/cnimbusagent http "
    ∷ sh_quote a.url
    ∷ codes " "
    ∷ sh_quote a.interval
    ∷ [])

unfoldable pub build_agent_script : GuestAgent → Text
unfolding unlines header_exports exec_line
build_agent_script a = unlines (codes "#!/bin/sh" ∷ (header_exports a.headers ++ exec_line a ∷ []))

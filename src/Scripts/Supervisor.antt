-- ===== src/Scripts/Supervisor.antt =====
-- `buildSupervisorScript` of internal/rootfs/build.go: the script that runs one service and
-- decides whether it starts again. `service_command` and `health_command` are `cmd` and `hcCmd`.
use mathlib.Core.List.{map}
use cnimbus.Common.{List, Option, [], if◌then◌else◌, none, some, ◌++◌, ◌∷◌}
use cnimbus.Common.Text.{Text, codes, eqt}
use cnimbus.Nimbus.Types.{EnvVar, Healthcheck, Service}
use cnimbus.Rootfs.Path.{dir}
use cnimbus.Scripts.Shell.{concat, sh_join, sh_quote, unlines}

unfoldable pub pid_file_path : Text → Text
unfolding concat
pid_file_path name = concat (codes "/var/run/cnimbus-" ∷ name ∷ codes ".pid" ∷ [])

abbrev pub say : List Text → Text
say parts = concat (codes "/bin/sh /etc/cnimbus-say \"cnimbus: " ∷ parts)

unfoldable pub export_line : EnvVar → Text
unfolding concat sh_quote
export_line e = concat (codes "export " ∷ e.key ∷ codes "=" ∷ sh_quote e.value ∷ [])

unfoldable pub cd_lines : Text → List Text
unfolding concat sh_quote
cd_lines [] = []
cd_lines (c ∷ dir) = concat (codes "cd " ∷ sh_quote (c ∷ dir) ∷ codes " || exit 1" ∷ []) ∷ []

unfoldable pub user_lines : Text → List Text
user_lines [] = []
user_lines (c ∷ user) =
    codes "NNP_PREFIX=\"\""
    ∷ codes "command -v setpriv >/dev/null 2>&1 && NNP_PREFIX=\"setpriv --nnp --\""
    ∷ []

unfoldable pub as_user : Text → Text → Text
unfolding concat sh_quote
as_user [] cmd = cmd
as_user (c ∷ user) cmd =
    concat (codes "$NNP_PREFIX setuidgid " ∷ sh_quote (c ∷ user) ∷ codes " " ∷ cmd ∷ [])

unfoldable pub service_command : Service → Text → Text
unfolding as_user sh_join
service_command svc user = as_user user (sh_join svc.argv)

abbrev as_user_unless_empty : Text → Text → Text
as_user_unless_empty user [] = []
as_user_unless_empty user (c ∷ cmd) = as_user user (c ∷ cmd)

unfoldable pub health_command : Option Healthcheck → Text → Text
unfolding as_user sh_join
health_command none user = []
health_command (some hc) user = as_user_unless_empty user (sh_join hc.argv)

-- `runOnce`
unfoldable pub run_once : Service → Text → Option Healthcheck → List Text
unfolding concat sh_quote pid_file_path service_command health_command
run_once svc user none =
    concat (
      codes "  "
      ∷ service_command svc user
      ∷ codes " 2>&1 | logger -s -t "
      ∷ sh_quote svc.name
      ∷ [])
    ∷ codes "  code=$?"
    ∷ []
run_once svc user (some hc) =
    concat (codes "  " ∷ service_command svc user ∷ codes " &" ∷ [])
    ∷ codes "  pid=$!"
    ∷ concat (codes "  echo \"$pid\" > " ∷ sh_quote (pid_file_path svc.name) ∷ [])
    ∷ codes "  failcount=0"
    ∷ codes "  killed=0"
    ∷ codes "  while kill -0 \"$pid\" 2>/dev/null; do"
    ∷ concat (codes "    sleep " ∷ sh_quote hc.interval ∷ [])
    ∷ codes "    if kill -0 \"$pid\" 2>/dev/null; then"
    ∷ concat
        (codes "      if " ∷ health_command (some hc) user ∷ codes " >/dev/null 2>&1; then" ∷ [])
    ∷ codes "        failcount=0"
    ∷ codes "      else"
    ∷ codes "        failcount=$((failcount+1))"
    ∷ concat (
        codes "        "
        ∷ say (svc.name ∷ codes " healthcheck failed ($failcount/" ∷ hc.retries ∷ codes ")\"" ∷ [])
        ∷ [])
    ∷ concat
        (codes "        if [ \"$failcount\" -ge " ∷ sh_quote hc.retries ∷ codes " ]; then" ∷ [])
    ∷ codes "          if [ \"$killed\" -eq 0 ]; then"
    ∷ concat (
        codes "            "
        ∷ say (svc.name ∷ codes " healthcheck exceeded retry limit, sending SIGTERM\"" ∷ [])
        ∷ [])
    ∷ codes "            kill \"$pid\" 2>/dev/null"
    ∷ codes "            killed=1"
    ∷ codes "          else"
    ∷ concat (
        codes "            "
        ∷ say (svc.name ∷ codes " did not exit after SIGTERM, sending SIGKILL\"" ∷ [])
        ∷ [])
    ∷ codes "            kill -9 \"$pid\" 2>/dev/null"
    ∷ codes "          fi"
    ∷ codes "        fi"
    ∷ codes "      fi"
    ∷ codes "    fi"
    ∷ codes "  done"
    ∷ codes "  wait \"$pid\""
    ∷ codes "  code=$?"
    ∷ []

-- `writeBackoffResetAndSleep`
unfoldable pub backoff_lines : Text → List Text
unfolding concat
backoff_lines name =
    codes "  end=$(cut -d. -f1 /proc/uptime)"
    ∷ codes "  elapsed=$((end-start))"
    ∷ codes "  d=$n; [ \"$d\" -gt 30 ] && d=30"
    ∷ codes "  [ \"$elapsed\" -gt \"$d\" ] && n=0"
    ∷ codes "  n=$((n+1))"
    ∷ concat (codes "  " ∷ say (name ∷ codes " restart #$n\"" ∷ []) ∷ [])
    ∷ codes "  d=$n; [ \"$d\" -gt 30 ] && d=30"
    ∷ codes "  sleep \"$d\""
    ∷ []

abbrev exited : Text → Text
exited name = say (name ∷ codes " exited (code $code)\"" ∷ [])

abbrev loop_start : List Text
loop_start = codes "n=0" ∷ codes "while true; do" ∷ codes "  start=$(cut -d. -f1 /proc/uptime)" ∷ []

unfoldable pub restart_lines : Service → Text → Option Healthcheck → List Text
unfolding concat eqt run_once backoff_lines
restart_lines svc user hc =
    let once = run_once svc user hc in
    let wait = backoff_lines svc.name in
    if eqt svc.restart (codes "no")
    then once ++ (exited svc.name ∷ codes "exit \"$code\"" ∷ [])
    else if eqt svc.restart (codes "on-failure")
    then loop_start
      ++ (once
          ++ ((codes "  " ++ exited svc.name)
              ∷ codes "  [ \"$code\" -eq 0 ] && exit 0"
              ∷ (wait ++ codes "done" ∷ [])))
    else loop_start ++ (once ++ ((codes "  " ++ exited svc.name) ∷ (wait ++ codes "done" ∷ [])))

-- What stands after the exports.
unfoldable pub supervisor_body : Service → Text → Text → Option Healthcheck → List Text
unfolding cd_lines user_lines restart_lines
supervisor_body svc user workdir hc =
    cd_lines workdir ++ (user_lines user ++ restart_lines svc user hc)

abbrev pub supervisor_head : List Text
supervisor_head = codes "#!/bin/sh" ∷ codes "set -o pipefail 2>/dev/null" ∷ []

unfoldable pub build_supervisor_script :
    Service → List EnvVar → Text → Text → Option Healthcheck → Text
unfolding unlines export_line supervisor_body
build_supervisor_script svc env user workdir hc =
    unlines (supervisor_head ++ (map export_line env ++ supervisor_body svc user workdir hc))

-- ===== src/Scripts/Shutdown.antt =====
-- `buildShutdownScript` of internal/rootfs/build.go: what init runs before the guest halts.
-- A grace of 0 is the program's "not positive".
use mathlib.Core.List.{map}
use cnimbus.Common.{List, [], suc, zero, ℕ, ◌++◌, ◌∷◌}
use cnimbus.Common.Number.{format_uint}
use cnimbus.Common.Text.{Text, codes}
use cnimbus.Nimbus.Types.{Service}
use cnimbus.Scripts.Shell.{concat, sh_quote, unlines}
use cnimbus.Scripts.Supervisor.{pid_file_path}

abbrev pub default_stop_grace : ℕ
default_stop_grace = 10

abbrev grace_or_default : ℕ → ℕ
grace_or_default zero = default_stop_grace
grace_or_default (suc n) = suc n

abbrev pid_file : Service → Text
pid_file svc = sh_quote (pid_file_path svc.name)

unfoldable pub term_line : Service → Text
unfolding concat sh_quote pid_file_path
term_line svc = concat (
    codes "[ -f "
    ∷ pid_file svc
    ∷ codes " ] && kill -TERM \"$(cat "
    ∷ pid_file svc
    ∷ codes ")\" 2>/dev/null"
    ∷ [])

unfoldable pub alive_line : Service → Text
unfolding concat sh_quote pid_file_path
alive_line svc = concat (
    codes "  [ -f "
    ∷ pid_file svc
    ∷ codes " ] && kill -0 \"$(cat "
    ∷ pid_file svc
    ∷ codes ")\" 2>/dev/null && alive=1"
    ∷ [])

unfoldable pub kill_line : Service → Text
unfolding concat sh_quote pid_file_path
kill_line svc = concat (
    codes "[ -f "
    ∷ pid_file svc
    ∷ codes " ] && kill -0 \"$(cat "
    ∷ pid_file svc
    ∷ codes ")\" 2>/dev/null && { /bin/sh /etc/cnimbus-say \"cnimbus: shutdown: "
    ∷ svc.name
    ∷ codes " did not exit within grace, sending SIGKILL\"; kill -9 \"$(cat "
    ∷ pid_file svc
    ∷ codes ")\" 2>/dev/null; }"
    ∷ [])

unfoldable pub build_shutdown_script : List Service → ℕ → Text
unfolding concat unlines format_uint term_line alive_line kill_line
build_shutdown_script services stop_grace =
    let grace = format_uint 10 (grace_or_default stop_grace) in
    unlines (
      codes "#!/bin/sh"
      ∷ concat (
          codes "/bin/sh /etc/cnimbus-say \"cnimbus: shutdown: signaling tracked services, up to "
          ∷ grace
          ∷ codes "s grace\""
          ∷ [])
      ∷ (map term_line services
          ++ (codes "n=0"
              ∷ concat (codes "while [ \"$n\" -lt " ∷ grace ∷ codes " ]; do" ∷ [])
              ∷ codes "  alive=0"
              ∷ (map alive_line services
                  ++ (codes "  [ \"$alive\" -eq 0 ] && break"
                      ∷ codes "  sleep 1"
                      ∷ codes "  n=$((n+1))"
                      ∷ codes "done"
                      ∷ (map kill_line services ++ codes "/bin/umount -a -r" ∷ []))))))

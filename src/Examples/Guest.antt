-- ===== src/Examples/Guest.antt =====
-- An exchange over the guest's channel.
use cnimbus.Common.{
  All, List, [], arith, false, if◌then◌else◌, none, ok, refl, some, true, ◌∷◌, ◌≡◌,
}
use cnimbus.Common.Bytes.{Bytes}
use cnimbus.Common.Text.{codes, cut, eqt}
use cnimbus.Guest.Backdoor.{parse_info_get_reply, rpci_send_one_raw}
use cnimbus.Guest.Exchange.{rpci_send_one_raw-serve}
use cnimbus.Guest.Files.{Files, link_to, node_at, regular, remove, store}
use cnimbus.Guest.Host.{closed_host, serve}
use cnimbus.Guest.Runtime.{AgentRound, Faults, loop, write_exclusive, write_kv, write_open}
use cnimbus.Guest.Whole.{Whole, fetched, loop-Whole}

abbrev info_get : Bytes
info_get = codes "info-get guestinfo.kv"

-- A host that knows one value.
abbrev one_value : Bytes → Bytes
one_value request = if eqt request info_get then codes "1 blue" else codes "0 No value found"

rpci_send_one_raw-serve_example :
    rpci_send_one_raw (serve one_value) closed_host info_get
    ≡ (closed_host, ok (one_value info_get))
unfolding eqt
rpci_send_one_raw-serve_example =
    rpci_send_one_raw-serve one_value info_get (ground arith) (omega arith) (ground arith)

reply_value : parse_info_get_reply (codes "1 blue") ≡ some (codes "blue")
unfolding parse_info_get_reply cut eqt
reply_value = refl

-- A first round whose write breaks off, a failed fetch, and a round that works.
abbrev no_faults : Faults
no_faults = record {
  open_fails = false;
  remove_fails = false;
  reopen_fails = false;
  write_fails = false;
  written = 0;
  close_fails = false;
  rename_fails = false;
}

abbrev disk_full : Faults
disk_full = record no_faults { write_fails = true; written = 1 }

abbrev three_rounds : List AgentRound
three_rounds =
    (some (codes "{}"), disk_full) ∷ (none, no_faults) ∷ (some (codes "[1]"), no_faults) ∷ []

abbrev planted : Files
planted = (codes "/run/kv.tmp", link_to (codes "/etc/passwd")) ∷ []

loop-Whole_example :
    All
      (Whole (codes "/run/kv") planted (fetched three_rounds))
      (loop (codes "/run/kv") three_rounds planted [])
loop-Whole_example = loop-Whole (codes "/run/kv") three_rounds planted

last_files :
    node_at (codes "/run/kv") (write_kv no_faults (codes "/run/kv") (codes "[1]") planted).now
    ≡ some (regular (codes "[1]"))
unfolding write_kv write_exclusive write_open node_at store remove eqt
last_files = refl

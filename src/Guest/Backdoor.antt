-- ===== src/Guest/Backdoor.antt =====
-- cmd/cnimbusagent/vmware_linux_amd64.go: the guest's side of VMware's message channel. `Host` is
-- the state of the host, and `call` is the instruction that hands it six registers and gives them
-- back changed.
use Prim.Native.Nat.{bit_and, bit_or, min}
use cnimbus.Common.{
  Bool, Option, Result, [], drop, err, false, if◌then◌else◌, length, none, not, ok, some, suc, take,
  true, zero, ℕ, ◌%◌, ◌*◌, ◌++◌, ◌+◌, ◌-◌, ◌/◌, ◌==◌, ◌^◌, ◌∷◌,
}
use cnimbus.Common.Bytes.{Bytes, le32}
use cnimbus.Common.Text.{Text, codes, cut, eqt}

pub record Regs : Type 0 where
  pub magic : ℕ
  pub size : ℕ
  pub cmd : ℕ
  pub port : ℕ
  pub hi : ℕ
  pub lo : ℕ

pub data RpcFailure : Type 0 where
  open_failed send_size_failed send_payload_failed : RpcFailure
  recv_size_failed recv_payload_failed recv_status_failed : RpcFailure

-- uint32(x)
abbrev pub low32 : ℕ → ℕ
low32 x = x % 2 ^ 32

pub record Channel : Type 0 where
  pub number : ℕ
  pub cookie_hi : ℕ
  pub cookie_lo : ℕ

-- The registers that `backdoorOp` fills.
unfoldable pub op_regs : ℕ → Channel → ℕ → Regs
op_regs msg_type ch size = record {
  magic = 0x564D5868;
  size = size;
  cmd = bit_or 30 (msg_type * 2 ^ 16);
  port = bit_or (ch.number * 2 ^ 16) 0x5658;
  hi = ch.cookie_hi;
  lo = ch.cookie_lo;
}

unfoldable pub reply_status : Regs → ℕ
reply_status r = low32 (r.cmd / 2 ^ 16)

abbrev pub succeeded : Regs → Bool
succeeded r = not (bit_and (reply_status r) 1 == 0)

abbrev pub has_reply : Regs → Bool
has_reply r = not (bit_and (reply_status r) 2 == 0)

abbrev pub no_channel : Channel
no_channel = record { number = 0; cookie_hi = 0; cookie_lo = 0 }

abbrev channel_of : Regs → Channel
channel_of r = record {
  number = low32 (r.port / 2 ^ 16);
  cookie_hi = low32 r.hi;
  cookie_lo = low32 r.lo;
}

-- The next four bytes as a word, filled up with zeros, and the bytes after them.
abbrev pub next_word : Bytes → ℕ
next_word (a ∷ b ∷ c ∷ d ∷ buf) = a + b * 2 ^ 8 + c * 2 ^ 16 + d * 2 ^ 24
next_word (a ∷ b ∷ c ∷ []) = a + b * 2 ^ 8 + c * 2 ^ 16
next_word (a ∷ b ∷ []) = a + b * 2 ^ 8
next_word (a ∷ []) = a
next_word [] = 0

module _ {Host : Type 0} (call : Host → Regs → Host × Regs) where
  -- `backdoorOp`
  unfoldable pub backdoor_op : Host → ℕ → Channel → ℕ → Host × Regs
  unfolding op_regs
  backdoor_op host msg_type ch size = call host (op_regs msg_type ch size)

  -- The loop over `buf`; each round takes a byte or more, so that its length is enough fuel.
  unfoldable pub send_payload : ℕ → Host → Channel → Bytes → Host × Bool
  unfolding backdoor_op reply_status
  send_payload zero host ch buf = (host, true)
  send_payload (suc fuel) host ch [] = (host, true)
  send_payload (suc fuel) host ch (b ∷ buf) =
      let answer = backdoor_op host 2 ch (next_word (b ∷ buf)) in
      let on = send_payload fuel answer.0 ch (drop 4 (b ∷ buf)) in
      if succeeded answer.1 then on else (answer.0, false)

  -- The loop over `remaining`; `reply` is what came before.
  unfoldable pub recv_payload : ℕ → Host → Channel → ℕ → Bytes → Host × Option Bytes
  unfolding backdoor_op reply_status
  recv_payload zero host ch remaining reply = (host, some reply)
  recv_payload (suc fuel) host ch zero reply = (host, some reply)
  recv_payload (suc fuel) host ch (suc remaining) reply =
      let answer = backdoor_op host 4 ch 1 in
      let n = min 4 (suc remaining) in
      let on =
        recv_payload fuel answer.0 ch (suc remaining - n)
          (reply ++ take n (le32 (low32 answer.1.size))) in
      if succeeded answer.1 then on else (answer.0, none)

  abbrev pub closing : Channel → Host × Result RpcFailure Bytes → Host × Result RpcFailure Bytes
  closing ch (host, result) = ((backdoor_op host 6 ch 0).0, result)

  abbrev pub recv_status : Channel → Host × Option Bytes → Host × Result RpcFailure Bytes
  recv_status ch (host, none) = (host, err recv_payload_failed)
  recv_status ch (host, some reply) =
      let answer = backdoor_op host 5 ch 1 in
      if succeeded answer.1 then (answer.0, ok reply) else (answer.0, err recv_status_failed)

  unfoldable pub receive : Host → Channel → Host × Result RpcFailure Bytes
  unfolding backdoor_op reply_status recv_payload
  receive host ch =
      let answer = backdoor_op host 3 ch 0 in
      if not (succeeded answer.1)
      then (answer.0, err recv_size_failed)
      else if not (has_reply answer.1)
      then (answer.0, ok [])
      else recv_status ch (recv_payload (low32 answer.1.size) answer.0 ch (low32 answer.1.size) [])

  abbrev pub after_payload : Channel → Host × Bool → Host × Result RpcFailure Bytes
  after_payload ch (host, true) = receive host ch
  after_payload ch (host, false) = (host, err send_payload_failed)

  unfoldable pub send_and_receive : Host → Channel → Bytes → Host × Result RpcFailure Bytes
  unfolding backdoor_op reply_status send_payload receive
  send_and_receive host ch request =
      let answer = backdoor_op host 1 ch (length request) in
      if succeeded answer.1
      then after_payload ch (send_payload (length request) answer.0 ch request)
      else (answer.0, err send_size_failed)

  -- `rpciSendOneRaw`: once the channel is open, it is closed on every way out.
  unfoldable pub rpci_send_one_raw : Host → Bytes → Host × Result RpcFailure Bytes
  unfolding backdoor_op reply_status send_and_receive
  rpci_send_one_raw host request =
      let answer = backdoor_op host 0 no_channel (bit_or 0x49435052 0x80000000) in
      if succeeded answer.1
      then closing (channel_of answer.1) (send_and_receive answer.0 (channel_of answer.1) request)
      else (answer.0, err open_failed)

-- `parseInfoGetReply`: the value after the reply_status "1" and a blank.
unfoldable pub parse_info_get_reply : Text → Option Text
unfolding cut eqt
parse_info_get_reply reply =
    let parts = cut 32 reply in if eqt parts.before (codes "1") then some parts.after else none

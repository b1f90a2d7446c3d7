-- ===== src/Guest/Host.antt =====
-- A host that answers requests over the channel of Guest/Backdoor: what the protocol asks of it.
-- `answer` is the reply that it gives to a request.
use cnimbus.Common.{
  Bool, [], drop, false, if◌then◌else◌, length, not, take, true, ℕ, ◌*◌, ◌++◌, ◌+◌, ◌/◌, ◌==◌, ◌^◌,
  ◌∷◌,
}
use cnimbus.Common.Bytes.{Bytes, le32}
use cnimbus.Guest.Backdoor.{Regs}

pub record HostState : Type 0 where
  pub expected : ℕ
  pub received : Bytes
  pub pending : Bytes
  pub is_open : Bool

abbrev pub closed_host : HostState
closed_host = record { expected = 0; received = []; pending = []; is_open = false }

-- The registers of a reply: the status and the value.
abbrev reply_regs : Regs → ℕ → ℕ → Regs
reply_regs r code value = record r { size = value; cmd = code * 2 ^ 16 }

abbrev opened : HostState
opened = record { expected = 0; received = []; pending = []; is_open = true }

abbrev pub pending_word : Bytes → ℕ
pending_word (a ∷ b ∷ c ∷ d ∷ buf) = a + b * 2 ^ 8 + c * 2 ^ 16 + d * 2 ^ 24
pending_word (a ∷ b ∷ c ∷ []) = a + b * 2 ^ 8 + c * 2 ^ 16
pending_word (a ∷ b ∷ []) = a + b * 2 ^ 8
pending_word (a ∷ []) = a
pending_word [] = 0

module _ (answer : Bytes → Bytes) where
  abbrev take_size : HostState → ℕ → HostState
  take_size h value = record h { expected = value; received = [] }

  abbrev take_word : HostState → ℕ → HostState
  take_word h value = record h { received = h.received ++ le32 value }

  abbrev prepared : HostState → HostState
  prepared h = record h { pending = answer (take h.expected h.received) }

  -- The message's type decides; a closed channel answers nothing but its opening.
  unfoldable pub serve : HostState → Regs → HostState × Regs
  serve h r =
      let msg_type = r.cmd / 2 ^ 16 in
      if msg_type == 0
      then (opened, reply_regs r 1 0)
      else if not h.is_open
      then (h, reply_regs r 0 0)
      else if msg_type == 1
      then (take_size h r.size, reply_regs r 1 0)
      else if msg_type == 2
      then (take_word h r.size, reply_regs r 1 0)
      else if msg_type == 3
      then (prepared h, reply_regs r 3 (length (prepared h).pending))
      else if msg_type == 4
      then (record h { pending = drop 4 h.pending }, reply_regs r 1 (pending_word h.pending))
      else if msg_type == 6
      then (closed_host, reply_regs r 1 0)
      else (h, reply_regs r 1 0)

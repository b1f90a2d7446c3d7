-- ===== src/Guest/Exchange.antt =====
-- A whole exchange between the guest of Guest/Backdoor and the host of Guest/Host.
use cnimbus.Common.{[], ap, arith, length, ok, refl, some, take, ℕ, ◌<◌, ◌^◌, ◌∙◌, ◌≡◌}
use cnimbus.Common.Bytes.{Bytes}
use cnimbus.Guest.Backdoor.{
  Channel, after_payload, backdoor_op, closing, low32, no_channel, op_regs, receive, recv_payload,
  recv_status, reply_status, rpci_send_one_raw, send_and_receive, send_payload,
}
use cnimbus.Guest.Host.{closed_host, serve}
use cnimbus.Guest.Payload.{
  AllBytes, low32-small, recv_payload-all, send_payload-all, state, take-word_bytes, word_bytes,
}

module _ (answer : Bytes → Bytes) where
  receive-start :
      (e : ℕ) (r p : Bytes) (ch : Channel)
      → receive (serve answer) (state e r p) ch
        ≡ recv_status (serve answer) ch (
            recv_payload
              (serve answer)
              (low32 (length (answer (take e r))))
              (state e r (answer (take e r)))
              ch
              (low32 (length (answer (take e r))))
              [])
  unfolding receive backdoor_op op_regs reply_status serve
  receive-start e r p ch = refl

  recv_status-ok :
      (e : ℕ) (r reply : Bytes) (ch : Channel)
      → recv_status (serve answer) ch (state e r [], some reply) ≡ (state e r [], ok reply)
  unfolding backdoor_op op_regs reply_status serve
  recv_status-ok e r reply ch = refl

  receive-reply :
      (e : ℕ) (r p reply : Bytes) (ch : Channel)
      → answer (take e r) ≡ reply
      → length reply < 2 ^ 32
      → AllBytes reply
      → receive (serve answer) (state e r p) ch ≡ (state e r [], ok reply)
  receive-reply e r p reply ch h small bytes =
      receive-start e r p ch
      ∙ ap
          (λ (t : Bytes).
            recv_status (serve answer) ch (
              recv_payload (serve answer) (low32 (length t)) (state e r t) ch (low32 (length t))
                []))
          h
      ∙ ap
          (λ n.
            recv_status (serve answer) ch (recv_payload (serve answer) n (state e r reply) ch n []))
          (low32-small (length reply) small)
      ∙ ap (recv_status (serve answer) ch)
          (recv_payload-all answer (length reply) e r reply [] ch (omega arith) bytes)
      ∙ recv_status-ok e r reply ch

  send_and_receive-start :
      (request : Bytes) (ch : Channel)
      → send_and_receive (serve answer) (state 0 [] []) ch request
        ≡ after_payload
            (serve answer)
            ch
            (send_payload (serve answer) (length request) (state (length request) [] []) ch request)
  unfolding send_and_receive backdoor_op op_regs reply_status serve
  send_and_receive-start request ch = refl

  rpci-start :
      (request : Bytes)
      → rpci_send_one_raw (serve answer) closed_host request
        ≡ closing
            (serve answer)
            no_channel
            (send_and_receive (serve answer) (state 0 [] []) no_channel request)
  unfolding rpci_send_one_raw backdoor_op op_regs reply_status serve
  rpci-start request = refl

  closing-ok :
      (e : ℕ) (r reply : Bytes)
      → closing (serve answer) no_channel (state e r [], ok reply) ≡ (closed_host, ok reply)
  unfolding backdoor_op op_regs reply_status serve
  closing-ok e r reply = refl

  -- A host that answers requests over the channel gives the guest its whole answer to exactly the
  -- request, byte for byte, and finds the channel closed afterwards. Request and answer are
  -- bytes; the answer has fewer than 2 ^ 32.
  pub rpci_send_one_raw-serve :
      (request : Bytes)
      → AllBytes request
      → length (answer request) < 2 ^ 32
      → AllBytes (answer request)
      → rpci_send_one_raw (serve answer) closed_host request ≡ (closed_host, ok (answer request))
  rpci_send_one_raw-serve request bytes small reply_bytes =
      let n = length request in
      rpci-start request
      ∙ ap (closing (serve answer) no_channel) (
          send_and_receive-start request no_channel
          ∙ ap (after_payload (serve answer) no_channel)
              (send_payload-all answer n n [] [] no_channel request (omega arith) bytes)
          ∙ receive-reply n (word_bytes request) [] (answer request) no_channel
              (ap answer (take-word_bytes request)) small reply_bytes)
      ∙ closing-ok n (word_bytes request) (answer request)

-- ===== src/Guest/Payload.antt =====
-- The words in which the guest of Guest/Backdoor and the host of Guest/Host hand each other bytes.
use Prim.Native.Nat.{min}
use mathlib.Core.List.{append-nil, append_assoc}
use cnimbus.Common.{
  All, [], ap, arith, drop, length, refl, some, suc, sym, take, true, zero, ℕ, ◌*◌, ◌++◌, ◌+◌, ◌-◌,
  ◌<◌, ◌^◌, ◌∙◌, ◌∷◌, ◌≡◌, ◌≤◌,
}
use cnimbus.Common.Bytes.{Bytes, le32}
use cnimbus.Guest.Backdoor.{
  Channel, backdoor_op, low32, next_word, op_regs, recv_payload, reply_status, send_payload,
}
use cnimbus.Guest.Host.{HostState, pending_word, serve}

abbrev pub AllBytes : Bytes → Type 0
AllBytes = All (λ b. b < 256)

le32-word :
    (a b c d : ℕ)
    → a < 256
    → b < 256
    → c < 256
    → d < 256
    → le32 (a + b * 2 ^ 8 + c * 2 ^ 16 + d * 2 ^ 24) ≡ a ∷ b ∷ c ∷ d ∷ []
le32-word a b c d ha hb hc hd = ground arith

le32-three :
    (a b c : ℕ)
    → a < 256
    → b < 256
    → c < 256
    → le32 (a + b * 2 ^ 8 + c * 2 ^ 16) ≡ a ∷ b ∷ c ∷ 0 ∷ []
le32-three a b c ha hb hc = ground arith

le32-two : (a b : ℕ) → a < 256 → b < 256 → le32 (a + b * 2 ^ 8) ≡ a ∷ b ∷ 0 ∷ 0 ∷ []
le32-two a b ha hb = ground arith

le32-one : (a : ℕ) → a < 256 → le32 a ≡ a ∷ 0 ∷ 0 ∷ 0 ∷ []
le32-one a ha = ground arith

low32-four :
    (a b c d : ℕ)
    → a < 256
    → b < 256
    → c < 256
    → d < 256
    → le32 (low32 (a + b * 2 ^ 8 + c * 2 ^ 16 + d * 2 ^ 24)) ≡ a ∷ b ∷ c ∷ d ∷ []
low32-four a b c d ha hb hc hd = ap le32 (omega arith) ∙ le32-word a b c d ha hb hc hd

low32-three :
    (a b c : ℕ)
    → a < 256
    → b < 256
    → c < 256
    → le32 (low32 (a + b * 2 ^ 8 + c * 2 ^ 16)) ≡ a ∷ b ∷ c ∷ 0 ∷ []
low32-three a b c ha hb hc = ap le32 (omega arith) ∙ le32-three a b c ha hb hc

low32-two : (a b : ℕ) → a < 256 → b < 256 → le32 (low32 (a + b * 2 ^ 8)) ≡ a ∷ b ∷ 0 ∷ 0 ∷ []
low32-two a b ha hb = ap le32 (omega arith) ∙ le32-two a b ha hb

low32-one : (a : ℕ) → a < 256 → le32 (low32 a) ≡ a ∷ 0 ∷ 0 ∷ 0 ∷ []
low32-one a ha = ap le32 (omega arith) ∙ le32-one a ha

min-four : (n : ℕ) → min 4 (suc (suc (suc (suc n)))) ≡ 4
min-four n = ground arith

minus-four : (n : ℕ) → suc (suc (suc (suc n))) - 4 ≡ n
minus-four n = omega arith

pub low32-small : (n : ℕ) → n < 2 ^ 32 → low32 n ≡ n
low32-small n h = omega arith

-- The bytes that the host has received after the words of `buf`.
pub word_bytes : Bytes → Bytes
word_bytes [] = []
word_bytes (a ∷ []) = a ∷ 0 ∷ 0 ∷ 0 ∷ []
word_bytes (a ∷ b ∷ []) = a ∷ b ∷ 0 ∷ 0 ∷ []
word_bytes (a ∷ b ∷ c ∷ []) = a ∷ b ∷ c ∷ 0 ∷ []
word_bytes (a ∷ b ∷ c ∷ d ∷ buf) = a ∷ b ∷ c ∷ d ∷ word_bytes buf

pub take-word_bytes : (buf : Bytes) → take (length buf) (word_bytes buf) ≡ buf
unfolding word_bytes
take-word_bytes [] = refl
take-word_bytes (a ∷ []) = refl
take-word_bytes (a ∷ b ∷ []) = refl
take-word_bytes (a ∷ b ∷ c ∷ []) = refl
take-word_bytes (a ∷ b ∷ c ∷ d ∷ buf) = ap (λ r. a ∷ b ∷ c ∷ d ∷ r) (take-word_bytes buf)

abbrev pub state : ℕ → Bytes → Bytes → HostState
state e r p = record { expected = e; received = r; pending = p; is_open = true }

module _ (answer : Bytes → Bytes) where
  send_payload-step :
      (fuel e : ℕ) (r p : Bytes) (ch : Channel) (b : ℕ) (buf : Bytes)
      → send_payload (serve answer) (suc fuel) (state e r p) ch (b ∷ buf)
        ≡ send_payload
            (serve answer)
            fuel
            (state e (r ++ le32 (next_word (b ∷ buf))) p)
            ch
            (drop 4 (b ∷ buf))
  unfolding send_payload backdoor_op op_regs reply_status serve
  send_payload-step fuel e r p ch b buf = refl

  send_payload-none :
      (fuel : ℕ) (h : HostState) (ch : Channel)
      → send_payload (serve answer) fuel h ch [] ≡ (h, true)
  unfolding send_payload
  send_payload-none zero h ch = refl
  send_payload-none (suc fuel) h ch = refl

  -- What a round leaves to do, for the bytes that the host takes from its word.
  send_payload-round :
      (fuel e : ℕ) (r p : Bytes) (ch : Channel) (b : ℕ) (buf word : Bytes)
      → le32 (next_word (b ∷ buf)) ≡ word
      → send_payload (serve answer) (suc fuel) (state e r p) ch (b ∷ buf)
        ≡ send_payload (serve answer) fuel (state e (r ++ word) p) ch (drop 4 (b ∷ buf))
  send_payload-round fuel e r p ch b buf word h =
      send_payload-step fuel e r p ch b buf
      ∙ ap (λ w. send_payload (serve answer) fuel (state e (r ++ w) p) ch (drop 4 (b ∷ buf))) h

  pub send_payload-all :
      (fuel e : ℕ) (r p : Bytes) (ch : Channel) (buf : Bytes)
      → length buf ≤ fuel
      → AllBytes buf
      → send_payload (serve answer) fuel (state e r p) ch buf
        ≡ (state e (r ++ word_bytes buf) p, true)
  unfolding word_bytes
  send_payload-all fuel e r p ch [] h k =
      send_payload-none fuel (state e r p) ch ∙ ap (λ x. (state e x p, true)) (sym (append-nil r))
  send_payload-all zero e r p ch (a ∷ buf) h k = absurd (omega arith)
  send_payload-all (suc fuel) e r p ch (a ∷ []) h k =
      let word = a ∷ 0 ∷ 0 ∷ 0 ∷ [] in
      send_payload-round fuel e r p ch a [] word (le32-one a k.0)
      ∙ send_payload-none fuel (state e (r ++ word) p) ch
  send_payload-all (suc fuel) e r p ch (a ∷ b ∷ []) h k =
      let word = a ∷ b ∷ 0 ∷ 0 ∷ [] in
      send_payload-round fuel e r p ch a (b ∷ []) word (le32-two a b k.0 k.1.0)
      ∙ send_payload-none fuel (state e (r ++ word) p) ch
  send_payload-all (suc fuel) e r p ch (a ∷ b ∷ c ∷ []) h k =
      let word = a ∷ b ∷ c ∷ 0 ∷ [] in
      send_payload-round fuel e r p ch a (b ∷ c ∷ []) word (le32-three a b c k.0 k.1.0 k.1.1.0)
      ∙ send_payload-none fuel (state e (r ++ word) p) ch
  send_payload-all (suc fuel) e r p ch (a ∷ b ∷ c ∷ d ∷ buf) h k =
      let word = a ∷ b ∷ c ∷ d ∷ [] in
      send_payload-round fuel e r p ch a (b ∷ c ∷ d ∷ buf) word
        (le32-word a b c d k.0 k.1.0 k.1.1.0 k.1.1.1.0)
      ∙ send_payload-all fuel e (r ++ word) p ch buf (omega arith) k.1.1.1.1
      ∙ ap (λ x. (state e x p, true)) (append_assoc r word (word_bytes buf))

  recv_payload-step :
      (fuel e n : ℕ) (r p acc : Bytes) (ch : Channel)
      → recv_payload (serve answer) (suc fuel) (state e r p) ch (suc n) acc
        ≡ recv_payload
            (serve answer)
            fuel
            (state e r (drop 4 p))
            ch
            (suc n - min 4 (suc n))
            (acc ++ take (min 4 (suc n)) (le32 (low32 (pending_word p))))
  unfolding recv_payload backdoor_op op_regs reply_status serve
  recv_payload-step fuel e n r p acc ch = refl

  recv_payload-none :
      (fuel : ℕ) (h : HostState) (acc : Bytes) (ch : Channel)
      → recv_payload (serve answer) fuel h ch 0 acc ≡ (h, some acc)
  unfolding recv_payload
  recv_payload-none zero h acc ch = refl
  recv_payload-none (suc fuel) h acc ch = refl

  recv_payload-round :
      (fuel e n count : ℕ) (r p acc word : Bytes) (ch : Channel)
      → min 4 (suc n) ≡ count
      → le32 (low32 (pending_word p)) ≡ word
      → recv_payload (serve answer) (suc fuel) (state e r p) ch (suc n) acc
        ≡ recv_payload
            (serve answer)
            fuel
            (state e r (drop 4 p))
            ch
            (suc n - count)
            (acc ++ take count word)
  recv_payload-round fuel e n count r p acc word ch hc hw =
      recv_payload-step fuel e n r p acc ch
      ∙ ap
          (λ m.
            recv_payload (serve answer) fuel (state e r (drop 4 p)) ch (suc n - m)
              (acc ++ take m (le32 (low32 (pending_word p)))))
          hc
      ∙ ap
          (λ w.
            recv_payload (serve answer) fuel (state e r (drop 4 p)) ch (suc n - count)
              (acc ++ take count w))
          hw

  pub recv_payload-all :
      (fuel e : ℕ) (r p acc : Bytes) (ch : Channel)
      → length p ≤ fuel
      → AllBytes p
      → recv_payload (serve answer) fuel (state e r p) ch (length p) acc
        ≡ (state e r [], some (acc ++ p))
  recv_payload-all fuel e r [] acc ch h k =
      recv_payload-none fuel (state e r []) acc ch
      ∙ ap (λ x. (state e r [], some x)) (sym (append-nil acc))
  recv_payload-all zero e r (a ∷ p) acc ch h k = absurd (omega arith)
  recv_payload-all (suc fuel) e r (a ∷ []) acc ch h k =
      recv_payload-round fuel e 0 1 r (a ∷ []) acc (a ∷ 0 ∷ 0 ∷ 0 ∷ []) ch refl (low32-one a k.0)
      ∙ recv_payload-none fuel (state e r []) (acc ++ a ∷ []) ch
  recv_payload-all (suc fuel) e r (a ∷ b ∷ []) acc ch h k =
      recv_payload-round fuel e 1 2 r (a ∷ b ∷ []) acc (a ∷ b ∷ 0 ∷ 0 ∷ []) ch refl
        (low32-two a b k.0 k.1.0)
      ∙ recv_payload-none fuel (state e r []) (acc ++ a ∷ b ∷ []) ch
  recv_payload-all (suc fuel) e r (a ∷ b ∷ c ∷ []) acc ch h k =
      recv_payload-round fuel e 2 3 r (a ∷ b ∷ c ∷ []) acc (a ∷ b ∷ c ∷ 0 ∷ []) ch refl
        (low32-three a b c k.0 k.1.0 k.1.1.0)
      ∙ recv_payload-none fuel (state e r []) (acc ++ a ∷ b ∷ c ∷ []) ch
  recv_payload-all (suc fuel) e r (a ∷ b ∷ c ∷ d ∷ p) acc ch h k =
      let word = a ∷ b ∷ c ∷ d ∷ [] in
      recv_payload-round fuel e (suc (suc (suc (length p)))) 4 r (a ∷ b ∷ c ∷ d ∷ p) acc word ch
        (min-four (length p)) (low32-four a b c d k.0 k.1.0 k.1.1.0 k.1.1.1.0)
      ∙ ap (λ m. recv_payload (serve answer) fuel (state e r p) ch m (acc ++ word))
          (minus-four (length p))
      ∙ recv_payload-all fuel e r p (acc ++ word) ch (omega arith) k.1.1.1.1
      ∙ ap (λ x. (state e r [], some x)) (append_assoc acc word p)

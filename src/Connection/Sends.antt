-- ===== src/Connection/Sends.antt =====
-- `send_data` (core-engine/src/core/connection.cpp) sends a front of its data, each byte once.
use network_simulator_platfo.Common.{
  ℕ, zero, suc, ◌+◌, ◌<◌, ◌≤◌, ◌≡◌, ◌⊎◌, inl, inr, refl, ◌∙◌, sym, ap, true, some, arith, length,
  take, drop, take-add, take_all, length-drop, ltb, Bool-cases,
}
use network_simulator_platfo.Common.Words.{Bytes}
use network_simulator_platfo.Connection.{Connection, Sent, Sending, is_valid, send_loop, send_data}

-- `send` takes at least one byte and no more than it is given, where it does not fail.
abbrev pub IsSend : (ℕ → Bytes → Sent) → Type 0
IsSend send =
    (t n : ℕ) (bs : Bytes) → 0 < length bs → send t bs ≡ Sent.accepted n → (0 < n) × (n ≤ length bs)

-- How a call ends: all is sent, or the socket is full behind the part that was sent, or an exception.
pub data IsSent (send : ℕ → Bytes → Sent) (text : Bytes) : Sending → Type 0 where
  all : IsSent send text (Sending.returns (length text) text)
  part :
      (n : ℕ)
      → n < length text
      → send n (drop n text) ≡ Sent.would_block
      → IsSent send text (Sending.returns n (take n text))
  error :
      (n : ℕ)
      → n < length text
      → send n (drop n text) ≡ Sent.failed
      → IsSent send text (Sending.throws (take n text))

module _ (send : ℕ → Bytes → Sent) (sends : IsSend send) (text : Bytes) where
  sent_cases :
      (s : Sent) → ((n : ℕ) × (s ≡ Sent.accepted n)) ⊎ (s ≡ Sent.would_block) ⊎ (s ≡ Sent.failed)
  sent_cases (Sent.accepted n) = inl (n, refl)
  sent_cases Sent.would_block = inr (inl refl)
  sent_cases Sent.failed = inr (inr refl)

  send_loop-IsSent :
      (fuel total : ℕ)
      → total ≤ length text
      → length text < fuel + total
      → (r : Sending) × (send_loop send fuel text total (take total text) ≡ some r)
        × IsSent send text r
  unfolding send_loop
  send_loop-IsSent zero total most enough = absurd (omega arith)
  send_loop-IsSent (suc fuel) total most enough = elim (Bool-cases (ltb total (length text))) [
    | inr done ↦
        let is : total ≡ length text = ground arith in
        (
          Sending.returns (length text) text,
          rw (done, send_loop)
              (ap some (
                ap (λ n. Sending.returns n (take n text)) is
                ∙ ap (Sending.returns (length text)) (take_all (length text) text (omega arith)))),
          IsSent.all,
        )
    | inl more ↦ elim (sent_cases (send total (drop total text))) [
      | inr (inl e) ↦ (
        Sending.returns total (take total text),
        rw (more, e, send_loop) refl,
        IsSent.part total (ground arith) e,
      )
      | inr (inr e) ↦ (
        Sending.throws (take total text),
        rw (more, e, send_loop) refl,
        IsSent.error total (ground arith) e,
      )
      | inl (n, e) ↦
          let left = length-drop total text in
          let fits = sends total n (drop total text) (ground arith) e in
          let (r, run, is) =
            send_loop-IsSent fuel (total + n) (omega (arith, left, fits)) (omega (arith, fits)) in
          (
            r,
            rw (more, e, send_loop)
                (ap (send_loop send fuel text (total + n)) (sym (take-add total n text)) ∙ run),
            is,
          )
    ]
  ]

-- Where `send` takes at least one byte each time and no more than it is given, `send_data` on a valid
-- socket returns with all data sent, or returns how much was sent before the socket was full, or throws
-- where `send` fails; what was sent is in each case a front of the data.
pub send_data-IsSent :
    (send : ℕ → Bytes → Sent) (c : Connection) (text : Bytes)
    → IsSend send
    → is_valid c.socket ≡ true
    → (r : Sending) × (send_data send c text ≡ some r) × IsSent send text r
unfolding send_data
send_data-IsSent send c text sends valid =
    let (r, run, is) =
      send_loop-IsSent send sends text (suc (length text)) 0 (omega arith) (omega arith) in
    (r, rw (valid, send_data) run, is)

-- ===== src/Telemetry/Post/Sending.antt =====
-- `send_all` (core-engine/src/system/telemetry_http_client.cpp) sends each byte once, in order.
use network_simulator_platfo.Common.{
  ℕ, zero, suc, ◌+◌, ◌-◌, ◌^◌, ◌<◌, ◌≤◌, ◌≡◌, ◌⊎◌, inl, inr, refl, ◌∙◌, sym, ap, Bool, true, false,
  some, List, [], ◌∷◌, ◌++◌, append_assoc, arith, length, take, drop, take-add, take_all,
  length-drop, ltb, ◌==◌, if◌then◌else◌, Bool-cases, Option-cases,
}
use network_simulator_platfo.Common.Words.{Bytes, add64}
use network_simulator_platfo.Telemetry.Post.{Os, Call, Trace, send_all}

-- The bytes that were sent, in their order.
abbrev pub wire : Trace → Bytes
wire [] = []
wire (Call.sent fd bytes ∷ t) = wire t ++ bytes
wire (c ∷ t) = wire t

-- The sockets that are open.
abbrev pub remove : ℕ → List ℕ → List ℕ
remove fd [] = []
remove fd (f ∷ fs) = if f == fd then fs else f ∷ remove fd fs

abbrev pub held : Trace → List ℕ
held [] = []
held (Call.opened fd ∷ t) = fd ∷ held t
held (Call.closed fd ∷ t) = remove fd (held t)
held (c ∷ t) = held t

-- The responses that were received.
abbrev pub heard : Trace → List Bytes
heard [] = []
heard (Call.received fd response ∷ t) = response ∷ heard t
heard (c ∷ t) = heard t

-- `send` never accepts more bytes than it is given.
abbrev pub IsSend : {Address : Type 0} → Os Address → Type 0
IsSend os = (t fd n : ℕ) (bytes : Bytes) → os.send t fd bytes ≡ some n → n ≤ length bytes

-- A call of `send_all`: true and the whole text is sent, or false and a proper part of its front.
pub record IsSent (text before : Bytes) (sockets : List ℕ) (result : Bool) (t : Trace)
    : Type 0 where
  pub kept : held t ≡ sockets
  pub silent : heard t ≡ []
  pub bytes :
      ((result ≡ true) × (wire t ≡ before ++ text))
      ⊎ ((result ≡ false) × (n : ℕ) × (n < length text) × (wire t ≡ before ++ take n text))

module _ {Address : Type 0} (os : Os Address) (sends : IsSend os) (fd : ℕ) (text before : Bytes)
    (sockets : List ℕ) (small : length text < 2 ^ 64) where
  pub send_all-IsSent :
      (fuel total_sent : ℕ) (t : Trace)
      → total_sent ≤ length text
      → length text < fuel + total_sent
      → wire t ≡ before ++ take total_sent text
      → held t ≡ sockets
      → heard t ≡ []
      → (result : Bool) × (t' : Trace) × (send_all os fuel fd text total_sent t ≡ some (result, t'))
        × IsSent text before sockets result t'
  unfolding send_all
  send_all-IsSent zero total t most enough w h q = absurd (omega arith)
  send_all-IsSent (suc fuel) total t most enough w h q =
      elim (Bool-cases (ltb total (length text))) [
        | inr done ↦ (
          true,
          t,
          rw (done, send_all) refl,
          record {
            kept = h;
            silent = q;
            bytes = inl (refl, w ∙ ap (λ bs. before ++ bs) (take_all total text (ground arith)));
          },
        )
        | inl more ↦ elim (Option-cases (os.send (length t) fd (drop total text))) [
          | inl e ↦ (
            false,
            Call.unsent fd ∷ t,
            rw (more, e, send_all) refl,
            record { kept = h; silent = q; bytes = inr (refl, total, ground arith, w) },
          )
          | inr (zero, e) ↦ (
            false,
            Call.unsent fd ∷ t,
            rw (more, e, send_all) refl,
            record { kept = h; silent = q; bytes = inr (refl, total, ground arith, w) },
          )
          | inr (suc n, e) ↦
              let fits : suc n ≤ length text - total =
                omega (
                  arith,
                  sends (length t) fd (suc n) (drop total text) e,
                  length-drop total text,
                ) in
              let plain : add64 total (suc n) ≡ total + suc n = ground arith in
              let (result, t', run, is) =
                send_all-IsSent fuel (total + suc n)
                  (Call.sent fd (take (suc n) (drop total text)) ∷ t) (ground arith) (omega arith)
                  (ap (λ bs. bs ++ take (suc n) (drop total text)) w
                    ∙ append_assoc before (take total text) (take (suc n) (drop total text))
                    ∙ ap (λ bs. before ++ bs) (sym (take-add total (suc n) text)))
                  h q in
              (
                result,
                t',
                rw (more, e, send_all)
                    (ap
                        (λ m.
                          send_all os fuel fd text m
                            (Call.sent fd (take (suc n) (drop total text)) ∷ t))
                        plain
                      ∙ run),
                is,
              )
        ]
      ]

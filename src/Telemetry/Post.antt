-- ===== src/Telemetry/Post.antt =====
-- `post_sample` (core-engine/src/system/telemetry_http_client.cpp) with the system calls that it makes.
-- What a call answers may depend on how many calls were made; the answers are parameters.
pub mod Sending
pub mod Status
pub mod Sockets
use network_simulator_platfo.Common.{
  ℕ, zero, suc, ◌+◌, ◌-◌, Bool, true, false, not, ◌&&◌, ◌||◌, Option, none, some, List, [], ◌∷◌,
  ◌++◌, length, take, drop, ltb, leb, ◌==◌, if◌then◌else◌,
}
use network_simulator_platfo.Common.Words.{Bytes, add64}
use network_simulator_platfo.Monitor.{MetricEvent}
use network_simulator_platfo.Http.Number.{skip_spaces, read_digits, starts_with_digit}
use network_simulator_platfo.Telemetry.{TelemetryEndpoint, split_first}
use network_simulator_platfo.Telemetry.Request.{TelemetrySample, to_json, request, sample_of}

-- The answers of the system, the first argument the number of calls before; none is an error.
pub record Os (Address : Type 0) : Type 0 where
  pub getaddrinfo : ℕ → Bytes → Bytes → Option (List Address)
  pub socket : ℕ → Address → Option ℕ
  pub connect : ℕ → ℕ → Address → Bool
  pub send : ℕ → ℕ → Bytes → Option ℕ
  pub recv : ℕ → ℕ → Option Bytes

-- The calls that were made, with what they did; a trace has the last call first.
pub data Call : Type 0 where
  resolved freed no_socket : Call
  opened : ℕ → Call
  connecting : ℕ → Call
  sent : ℕ → Bytes → Call
  unsent : ℕ → Call
  received : ℕ → Bytes → Call
  closed : ℕ → Call

abbrev pub Trace : Type 0
Trace = List Call

-- The sign and the amount of `std::stoi`; none is its exception.
unfoldable pub stoi_amount : Bool → Bytes → Option (Bool × ℕ)
stoi_amount negative cs =
    let n = read_digits 0 cs in
    if starts_with_digit cs && ltb n (if negative then 2147483649 else 2147483648)
    then some (negative, n)
    else none

unfoldable pub stoi_sign : Bytes → Option (Bool × ℕ)
stoi_sign [] = none
stoi_sign (c ∷ cs) =
    if c == b'-'
    then stoi_amount true cs
    else if c == b'+'
    then stoi_amount false cs
    else stoi_amount false (c ∷ cs)

abbrev pub is_success : Bool × ℕ → Bool
is_success (negative, code) = not negative && (leb 200 code && ltb code 300)

-- `status_is_success`; none is an exception.
unfoldable pub status_is_success : Bytes → Option Bool
status_is_success response =
    let (front, back) = split_first 32 response in
    let first_space = length front in
    if length back == 0 || leb (length response) (first_space + 3)
    then some false
    else elim (stoi_sign (skip_spaces (take 3 (drop (first_space + 1) response)))) [
      | none ↦ none
      | some status ↦ some (is_success status)
    ]

-- What a caught exception leaves of it.
abbrev pub caught : Option Bool → Bool
caught none = false
caught (some b) = b

module _ {Address : Type 0} (os : Os Address) where
  -- The loop over the addresses: a socket that is connected, if there is one.
  unfoldable pub connect_first : List Address → Trace → Option ℕ × Trace
  connect_first [] t = (none, t)
  connect_first (rp ∷ rest) t = elim (os.socket (length t) rp) [
    | none ↦ connect_first rest (Call.no_socket ∷ t)
    | some sock ↦
        let t' = Call.connecting sock ∷ Call.opened sock ∷ t in
        let next = connect_first rest (Call.closed sock ∷ t') in
        if os.connect (suc (length t)) sock rp then (some sock, t') else next
  ]

  -- `send_all`, with fuel; none where it has run out.
  unfoldable pub send_all : ℕ → ℕ → Bytes → ℕ → Trace → Option (Bool × Trace)
  send_all zero fd text total_sent t = none
  send_all (suc fuel) fd text total_sent t =
      let rest = drop total_sent text in
      if ltb total_sent (length text)
      then elim (os.send (length t) fd rest) [
        | none ↦ some (false, Call.unsent fd ∷ t)
        | some zero ↦ some (false, Call.unsent fd ∷ t)
        | some (suc n) ↦
            send_all fuel fd text (add64 total_sent (suc n)) (Call.sent fd (take (suc n) rest) ∷ t)
      ]
      else some (true, t)

  -- What follows the request: the answer, and the socket is closed.
  unfoldable pub answer : ℕ → Trace → Bool × Trace
  answer sock t = elim (os.recv (length t) sock) [
    | none ↦ (false, Call.closed sock ∷ Call.received sock [] ∷ t)
    | some [] ↦ (false, Call.closed sock ∷ Call.received sock [] ∷ t)
    | some (c ∷ cs) ↦
        (caught (status_is_success (c ∷ cs)), Call.closed sock ∷ Call.received sock (c ∷ cs) ∷ t)
  ]

  -- `post_sample` behind `getaddrinfo`; the fuel of `send_all` is one more than the bytes to send.
  unfoldable pub post_to : List Address → Bytes → Trace → Option (Bool × Trace)
  post_to result text t =
      let (found, t') = connect_first result t in
      let t'' = Call.freed ∷ t' in
      elim found [
        | none ↦ some (false, t'')
        | some sock ↦ elim (send_all (suc (length text)) sock text 0 t'') [
          | none ↦ none
          | some (false, u) ↦ some (false, Call.closed sock ∷ u)
          | some (true, u) ↦ some (answer sock u)
        ]
      ]

  unfoldable pub post_sample :
      {D : Type 0} → (D → Bytes) → TelemetryEndpoint → TelemetrySample D → Option (Bool × Trace)
  post_sample shown endpoint sample = elim (os.getaddrinfo 0 endpoint.host endpoint.port) [
    | none ↦ some (false, Call.resolved ∷ [])
    | some result ↦ post_to result (request endpoint (to_json shown sample)) (Call.resolved ∷ [])
  ]

  unfoldable pub post_metric_event :
      {D : Type 0}
      → (D → Bytes)
      → (ℕ → D)
      → TelemetryEndpoint
      → MetricEvent
      → D
      → Option (Bool × Trace)
  post_metric_event shown as_double endpoint event throughput_kbps =
      post_sample shown endpoint (sample_of as_double event throughput_kbps)

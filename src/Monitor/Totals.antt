-- ===== src/Monitor/Totals.antt =====
-- What the monitor (core-engine/src/system/monitor.cpp) publishes adds up.
use network_simulator_platfo.Common.{
  ℕ, ◌+◌, ◌-◌, ◌/◌, ◌%◌, ◌^◌, ◌≡◌, refl, Bool, List, [], ◌∷◌, ◌++◌, arith, length, length-append,
  if◌then◌else◌, leb, Bool-cases, inl, inr,
}
use network_simulator_platfo.Common.Words.{u64_mod}
use network_simulator_platfo.Limiter.{Double}
use network_simulator_platfo.Monitor.{
  MetricEvent, Counters, TelemetryMonitor, count_event, count_all, make, publish, tick, round,
  rounds,
}

-- The events that were dropped, and the bytes of the others.
abbrev pub dropped_of : List MetricEvent → ℕ
dropped_of [] = 0
dropped_of (e ∷ es) = (if e.dropped then 1 else 0) + dropped_of es

abbrev pub bytes_of : List MetricEvent → ℕ
bytes_of [] = 0
bytes_of (e ∷ es) = (if e.dropped then 0 else e.packet_size) + bytes_of es

abbrev pub events_of : List (List MetricEvent × ℕ) → List MetricEvent
events_of [] = []
events_of ((events, now) ∷ rs) = events ++ events_of rs

dropped_of-append :
    (xs ys : List MetricEvent) → dropped_of (xs ++ ys) ≡ dropped_of xs + dropped_of ys
dropped_of-append [] ys = omega arith
dropped_of-append (x ∷ xs) ys = omega (arith, dropped_of-append xs ys)

bytes_of-append : (xs ys : List MetricEvent) → bytes_of (xs ++ ys) ≡ bytes_of xs + bytes_of ys
bytes_of-append [] ys = omega arith
bytes_of-append (x ∷ xs) ys = omega (arith, bytes_of-append xs ys)

-- The counters have counted p packets, n of them dropped, and b bytes.
abbrev HasCounted : Counters → ℕ → ℕ → ℕ → Type 0
HasCounted c p n b =
    (c.packets ≡ p % u64_mod) × (c.dropped ≡ n % u64_mod) × (c.bytes % u64_mod ≡ b % u64_mod)

count_event-HasCounted :
    (c : Counters) (e : MetricEvent) (p n b : ℕ)
    → HasCounted c p n b
    → HasCounted
        (count_event c e)
        (p + 1)
        (n + (if e.dropped then 1 else 0))
        (b + (if e.dropped then 0 else e.packet_size))
unfolding count_event
count_event-HasCounted c e p n b h = ground arith

count_all-HasCounted :
    (c : Counters) (es : List MetricEvent) (p n b : ℕ)
    → HasCounted c p n b
    → HasCounted (count_all c es) (p + length es) (n + dropped_of es) (b + bytes_of es)
unfolding count_all
count_all-HasCounted c [] p n b h = omega arith
count_all-HasCounted c (e ∷ es) p n b h =
    let first = count_event-HasCounted c e p n b h in
    omega (
      arith,
      count_all-HasCounted (count_event c e) es (p + 1) (n + (if e.dropped then 1 else 0))
          (b + (if e.dropped then 0 else e.packet_size)) first,
    )

module _ (d : Double) (is_positive : d.Carrier → Bool) where
  -- The counters and the published bytes together.
  abbrev HasSeen : TelemetryMonitor d.Carrier → ℕ → ℕ → ℕ → Type 0
  HasSeen m p n b =
      (m.counters.packets ≡ p % u64_mod)
      × (m.counters.dropped ≡ n % u64_mod)
      × ((m.stats.total_bytes + m.counters.bytes) % u64_mod ≡ b % u64_mod)

  tick-HasSeen :
      (m : TelemetryMonitor d.Carrier) (now p n b : ℕ)
      → HasSeen m p n b
      → HasSeen (tick d is_positive m now) p n b
  unfolding tick publish
  tick-HasSeen m now p n b h = elim (Bool-cases (leb 100 ((now - m.last_time) / 1000000))) [
    | inl due ↦ rw (due, tick) (omega arith)
    | inr early ↦ rw (early, tick) h
  ]

  round-HasSeen :
      (m : TelemetryMonitor d.Carrier) (es : List MetricEvent) (now p n b : ℕ)
      → HasSeen m p n b
      → HasSeen (round d is_positive m es now) (p + length es) (n + dropped_of es) (b + bytes_of es)
  unfolding round
  round-HasSeen m es now p n b h =
      tick-HasSeen (record m { counters = count_all m.counters es }) now (p + length es)
        (n + dropped_of es) (b + bytes_of es)
        (let k = count_all-HasCounted m.counters es p n m.counters.bytes (h.0, h.1, refl) in
          omega (arith, k))

  rounds-HasSeen :
      (m : TelemetryMonitor d.Carrier) (rs : List (List MetricEvent × ℕ)) (p n b : ℕ)
      → HasSeen m p n b
      → HasSeen
          (rounds d is_positive m rs)
          (p + length (events_of rs))
          (n + dropped_of (events_of rs))
          (b + bytes_of (events_of rs))
  unfolding rounds
  rounds-HasSeen m [] p n b h = omega arith
  rounds-HasSeen m ((es, now) ∷ rs) p n b h =
      let k =
        rounds-HasSeen (round d is_positive m es now) rs (p + length es) (n + dropped_of es)
          (b + bytes_of es) (round-HasSeen m es now p n b h) in
      omega (
        arith,
        k,
        length-append es (events_of rs),
        dropped_of-append es (events_of rs),
        bytes_of-append es (events_of rs),
      )

-- What a monitor publishes, after any rounds of its loop with any publications among them, is the
-- number of all events that it has taken from the queue, of those that were dropped, and the bytes
-- of the others, each modulo 2 ^ 64.
pub rounds-publish :
    (d : Double) (is_positive : d.Carrier → Bool) (start : ℕ) (rs : List (List MetricEvent × ℕ))
    (elapsed now : ℕ)
    → let m = rounds d is_positive (make d is_positive start) rs in
      let s = (publish d is_positive m elapsed now).stats in
      (s.total_packets ≡ length (events_of rs) % 2 ^ 64)
      × (s.dropped_packets ≡ dropped_of (events_of rs) % 2 ^ 64)
      × (s.total_bytes ≡ bytes_of (events_of rs) % 2 ^ 64)
unfolding make publish
rounds-publish d is_positive start rs elapsed now =
    let k = rounds-HasSeen d is_positive (make d is_positive start) rs 0 0 0 (refl, refl, refl) in
    omega (arith, k)

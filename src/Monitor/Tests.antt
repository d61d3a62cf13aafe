-- ===== src/Monitor/Tests.antt =====
-- Runs of the monitor (core-engine/src/system/monitor.cpp) on concrete inputs.
use network_simulator_platfo.Common.{
  ℕ, ◌*◌, ◌-◌, ◌/◌, ◌%◌, ◌^◌, ◌≡◌, refl, Bool, true, false, List, [], ◌∷◌, some, arith, length, ltb,
}
use network_simulator_platfo.Limiter.{Double}
use network_simulator_platfo.Spsc.{SpscRingBuffer}
use network_simulator_platfo.Spsc.Queue.{Represents}
use network_simulator_platfo.Monitor.{MetricEvent, Counters, count_all, drain, publish, rounds}
use network_simulator_platfo.Monitor
use network_simulator_platfo.Monitor.Drain.{drain-count_all}
use network_simulator_platfo.Monitor.Totals.{rounds-publish, events_of, dropped_of, bytes_of}

abbrev event : ℕ → Bool → MetricEvent
event size dropped = record {
  timestamp_us = 0;
  source_node = [];
  dest_node = [];
  packet_size = size;
  latency_ns = 50;
  dropped = dropped;
}

-- A ring of two slots, both of them full.
abbrev full_ring : SpscRingBuffer MetricEvent
full_ring = record { buffer = event 100 false ∷ event 7 true ∷ []; head = 0; tail = 2 }

full_ring-Represents : Represents 1 full_ring (event 100 false ∷ event 7 true ∷ [])
full_ring-Represents = record {
  start = 0;
  storage = refl;
  front = refl;
  back = refl;
  room = omega arith;
  held = (refl, (refl, tt));
}

abbrev none_yet : Counters
none_yet = record { latency_ns = 0; packets = 0; bytes = 0; dropped = 0 }

drain-count_all_example :
    (q' : SpscRingBuffer MetricEvent) × Represents 1 q' []
    × (drain 1 3 full_ring none_yet false
        ≡ some (q', count_all none_yet (event 100 false ∷ event 7 true ∷ []), true))
drain-count_all_example =
    drain-count_all 1 3 full_ring none_yet false (event 100 false ∷ event 7 true ∷ []) (omega arith)
      full_ring-Represents (omega arith)

-- Whole numbers in place of `double`.
abbrev whole : Double
whole = record {
  Carrier = ℕ;
  one = 1;
  billion = 1000000000;
  sub = ◌-◌;
  mul = ◌*◌;
  div = ◌/◌;
  of_u64 = λ n. n;
  to_u64 = λ n. n;
}

abbrev two_rounds : List (List MetricEvent × ℕ)
two_rounds = (event 100 false ∷ event 7 true ∷ [], 150000000) ∷ (event 3 false ∷ [], 160000000) ∷ []

rounds-publish_example :
    let m = rounds whole (ltb 0) (Monitor.make whole (ltb 0) 0) two_rounds in
    let s = (publish whole (ltb 0) m 100 260000000).stats in
    (s.total_packets ≡ length (events_of two_rounds) % 2 ^ 64)
    × (s.dropped_packets ≡ dropped_of (events_of two_rounds) % 2 ^ 64)
    × (s.total_bytes ≡ bytes_of (events_of two_rounds) % 2 ^ 64)
rounds-publish_example = rounds-publish whole (ltb 0) 0 two_rounds 100 260000000

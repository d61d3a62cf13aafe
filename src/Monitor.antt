-- ===== src/Monitor.antt =====
-- The telemetry monitor: core-engine/include/system/monitor.hpp, core-engine/include/system/metrics.hpp
-- and core-engine/src/system/monitor.cpp. The rounds of its loop are modelled one after the other;
-- the thread that runs them and the lock around `stats_` are not.
pub mod Drain
pub mod Totals
mod Tests
use network_simulator_platfo.Common.{
  ℕ, zero, suc, ◌-◌, ◌/◌, Bool, true, false, Option, none, some, List, [], ◌∷◌, ltb, leb,
  if◌then◌else◌,
}
use network_simulator_platfo.Common.Words.{Bytes, add64}
use network_simulator_platfo.Limiter.{Double}
use network_simulator_platfo.Spsc.{SpscRingBuffer, pop, sub64}

pub record MetricEvent : Type 0 where
  pub timestamp_us : ℕ
  pub source_node : Bytes
  pub dest_node : Bytes
  pub packet_size : ℕ
  pub latency_ns : ℕ
  pub dropped : Bool

-- The internal counters.
pub record Counters : Type 0 where
  pub latency_ns : ℕ
  pub packets : ℕ
  pub bytes : ℕ
  pub dropped : ℕ

-- The body of the loop that drains the queue.
unfoldable pub count_event : Counters → MetricEvent → Counters
count_event c e =
    let counted = if e.dropped then record c { dropped = add64 c.dropped 1 } else record c {
      latency_ns = add64 c.latency_ns e.latency_ns;
      bytes = add64 c.bytes e.packet_size;
    } in
    record counted { packets = add64 c.packets 1 }

unfoldable pub count_all : Counters → List MetricEvent → Counters
count_all c [] = c
count_all c (e ∷ es) = count_all (count_event c e) es

-- `while (auto event_opt = queue_.pop())` on a ring of 2 ^ k slots, with fuel, and whether it has
-- processed any event; `none` where the fuel has run out.
unfoldable pub drain :
    ℕ
    → ℕ
    → SpscRingBuffer MetricEvent
    → Counters
    → Bool
    → Option (SpscRingBuffer MetricEvent × Counters × Bool)
drain k zero q c processed_any = none
drain k (suc fuel) q c processed_any =
    let (q', event_opt) = pop k q in
    elim event_opt [
      | none ↦ some (q', c, processed_any)
      | some event ↦ drain k fuel q' (count_event c event) true
    ]

pub record AggregatedMetrics (D : Type 0) : Type 0 where
  pub average_latency_ns : D
  pub total_packets : ℕ
  pub total_bytes : ℕ
  pub dropped_packets : ℕ
  pub throughput_kbps : D

pub record TelemetryMonitor (D : Type 0) : Type 0 where
  pub counters : Counters
  pub stats : AggregatedMetrics D
  -- a reading of the steady clock, in nanoseconds
  pub last_time : ℕ

module _ (d : Double) (is_positive : d.Carrier → Bool) where
  -- `TelemetryMonitor(queue)`, and the first reading of the clock in its loop.
  unfoldable pub make : ℕ → TelemetryMonitor d.Carrier
  make now = record {
    counters = record { latency_ns = 0; packets = 0; bytes = 0; dropped = 0 };
    stats = record {
      average_latency_ns = d.of_u64 0;
      total_packets = 0;
      total_bytes = 0;
      dropped_packets = 0;
      throughput_kbps = d.of_u64 0;
    };
    last_time = now;
  }

  -- What is published once 100 milliseconds have passed.
  unfoldable pub publish : TelemetryMonitor d.Carrier → ℕ → ℕ → TelemetryMonitor d.Carrier
  publish m elapsed now =
      let c = m.counters in
      let successful_packets = sub64 c.packets c.dropped in
      let elapsed_sec = d.div (d.of_u64 elapsed) (d.of_u64 1000) in
      record {
        counters = record c { bytes = 0 };
        stats = record {
          average_latency_ns =
              if ltb 0 successful_packets
              then d.div (d.of_u64 c.latency_ns) (d.of_u64 successful_packets)
              else d.of_u64 0;
          total_packets = c.packets;
          total_bytes = add64 m.stats.total_bytes c.bytes;
          dropped_packets = c.dropped;
          throughput_kbps =
              if is_positive elapsed_sec
              then d.div (d.mul (d.of_u64 c.bytes) (d.of_u64 8)) (d.mul elapsed_sec (d.of_u64 1000))
              else d.of_u64 0;
        };
        last_time = now;
      }

  -- A round of the loop behind the drain.
  unfoldable pub tick : TelemetryMonitor d.Carrier → ℕ → TelemetryMonitor d.Carrier
  tick m now =
      let elapsed = (now - m.last_time) / 1000000 in
      if leb 100 elapsed then publish m elapsed now else m

  -- A round of the loop that finds these events in the queue.
  unfoldable pub round :
      TelemetryMonitor d.Carrier → List MetricEvent → ℕ → TelemetryMonitor d.Carrier
  round m events now = tick (record m { counters = count_all m.counters events }) now

  unfoldable pub rounds :
      TelemetryMonitor d.Carrier → List (List MetricEvent × ℕ) → TelemetryMonitor d.Carrier
  rounds m [] = m
  rounds m ((events, now) ∷ rs) = rounds (round m events now) rs

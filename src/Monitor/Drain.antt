-- ===== src/Monitor/Drain.antt =====
-- One round of the monitor's loop (core-engine/src/system/monitor.cpp) empties its queue.
use network_simulator_platfo.Common.{
  ℕ, zero, suc, ◌<◌, ◌≡◌, refl, ◌∙◌, ap, Bool, true, none, some, List, [], ◌∷◌, arith, length,
}
use network_simulator_platfo.Spsc.{SpscRingBuffer, pop}
use network_simulator_platfo.Spsc.Queue.{Represents, pop_empty, pop_item}
use network_simulator_platfo.Monitor.{MetricEvent, Counters, count_event, count_all, drain}

-- Whether a round processes any event.
abbrev pub any_of : Bool → List MetricEvent → Bool
any_of processed_any [] = processed_any
any_of processed_any (e ∷ es) = true

any_of-true : (es : List MetricEvent) → any_of true es ≡ true
any_of-true [] = refl
any_of-true (e ∷ es) = refl

drain_step :
    (k fuel : ℕ) (q : SpscRingBuffer MetricEvent) (c : Counters) (b : Bool) (e : MetricEvent)
    → (pop k q).1 ≡ some e
    → drain k (suc fuel) q c b ≡ drain k fuel (pop k q).0 (count_event c e) true
unfolding drain
drain_step k fuel q c b e h = rw (h, drain)

-- Where a ring of 2 ^ k slots, k below 64, holds some events, more fuel than there are events is
-- enough for the drain: it counts those events, oldest first, and leaves the ring empty.
pub drain-count_all :
    (k fuel : ℕ) (q : SpscRingBuffer MetricEvent) (c : Counters) (b : Bool)
    (events : List MetricEvent)
    → k < 64
    → Represents k q events
    → length events < fuel
    → (q' : SpscRingBuffer MetricEvent) × Represents k q' []
      × (drain k fuel q c b ≡ some (q', count_all c events, any_of b events))
unfolding drain count_all
drain-count_all k zero q c b events small r h = absurd (omega arith)
drain-count_all k (suc fuel) q c b [] small r h =
    let ended : (pop k q).1 ≡ none = ap (λ u. u.1) (pop_empty k small q r) in
    let kept : (pop k q).0 ≡ q = ap (λ u. u.0) (pop_empty k small q r) in
    (q, r, rw (ended, drain) (ap (λ u. some (u, c, b)) kept))
drain-count_all k (suc fuel) q c b (e ∷ es) small r h =
    let (next, got) = pop_item k small q e es r in
    let (q', empty, rest) =
      drain-count_all k fuel (pop k q).0 (count_event c e) true es small next (omega arith) in
    (
      q',
      empty,
      drain_step k fuel q c b e got
          ∙ rest
          ∙ ap (λ v. some (q', count_all (count_event c e) es, v)) (any_of-true es),
    )

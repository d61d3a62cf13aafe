-- ===== src/Spsc/Threads.antt =====
-- `push` in the producer's thread and `pop` in the consumer's (core-engine/include/system/event_queue.hpp),
-- one access to memory at a time, in any order. The accesses take effect in the order in which they
-- are made, as the acquire and release orderings give it for the slots.
use network_simulator_platfo.Common.{
  ℕ, ◌^◌, Option, List, [], ◌∷◌, ◌++◌, leb, ◌==◌, if◌then◌else◌, get_elem?, set,
}
use network_simulator_platfo.Common.Words.{add64}
use network_simulator_platfo.Spsc.{SpscRingBuffer, slot, sub64}

-- Where a thread stands in `push`, with its local variables.
pub data Producer (A : Type 0) : Type 0 where
  idle : Producer A
  -- behind the load of the tail
  loaded : A → ℕ → Producer A
  -- behind the load of the head and the test
  writes : A → ℕ → Producer A
  -- behind the write of the slot
  stores : A → ℕ → Producer A

-- Where a thread stands in `pop`.
pub data Consumer (A : Type 0) : Type 0 where
  idle : Consumer A
  -- behind the load of the head
  loaded : ℕ → Consumer A
  -- behind the load of the tail and the test
  reads : ℕ → Consumer A
  -- behind the read of the slot
  copied : Option A → ℕ → Consumer A

pub record Machine (A : Type 0) : Type 0 where
  pub ring : SpscRingBuffer A
  pub producer : Producer A
  pub consumer : Consumer A
  -- the items of the pushes that have returned true, in order
  pub pushed : List A
  -- what the pops have copied out, in order
  pub popped : List (Option A)

pub data Event (A : Type 0) : Type 0 where
  -- the producer calls `push`, or makes its next access
  offers : A → Event A
  produces : Event A
  -- the consumer calls `pop`, or makes its next access
  takes : Event A
  consumes : Event A

module _ {A : Type 0} (k : ℕ) where
  unfoldable pub produce : Machine A → Producer A → Machine A
  produce m Producer.idle = m
  produce m (Producer.loaded x t) = record m {
    producer = if leb (2 ^ k) (sub64 t m.ring.head) then Producer.idle else Producer.writes x t;
  }
  produce m (Producer.writes x t) = record m {
    ring = record (m.ring) { buffer = set m.ring.buffer (slot k t) x };
    producer = Producer.stores x t;
  }
  produce m (Producer.stores x t) = record m {
    ring = record (m.ring) { tail = add64 t 1 };
    producer = Producer.idle;
    pushed = m.pushed ++ x ∷ [];
  }

  unfoldable pub consume : Machine A → Consumer A → Machine A
  consume m Consumer.idle = m
  consume m (Consumer.loaded h) = record m {
    consumer = if h == m.ring.tail then Consumer.idle else Consumer.reads h;
  }
  consume m (Consumer.reads h) = record m {
    consumer = Consumer.copied (get_elem? m.ring.buffer (slot k h)) h;
  }
  consume m (Consumer.copied o h) = record m {
    ring = record (m.ring) { head = add64 h 1 };
    consumer = Consumer.idle;
    popped = m.popped ++ o ∷ [];
  }

  -- A call begins only where the thread is in none.
  unfoldable pub step : Machine A → Event A → Machine A
  step m (offers x) = elim m.producer [
    | Producer.idle ↦ record m { producer = Producer.loaded x m.ring.tail }
    | _ ↦ m
  ]
  step m produces = produce m m.producer
  step m takes = elim m.consumer [
    | Consumer.idle ↦ record m { consumer = Consumer.loaded m.ring.head }
    | _ ↦ m
  ]
  step m consumes = consume m m.consumer

  unfoldable pub run : Machine A → List (Event A) → Machine A
  run m [] = m
  run m (e ∷ es) = run (step m e) es

-- A new ring, with both threads outside their calls.
unfoldable pub start : {A : Type 0} → List A → Machine A
start storage = record {
  ring = record { buffer = storage; head = 0; tail = 0 };
  producer = Producer.idle;
  consumer = Consumer.idle;
  pushed = [];
  popped = [];
}

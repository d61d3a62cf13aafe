-- ===== src/Spsc.antt =====
-- The queue between the packet path and the monitor: core-engine/include/system/event_queue.hpp.
-- The capacity is 2 ^ k, as the static assertion wants. `push` and `pop` are the calls of one thread
-- alone; `Threads` has a producer and a consumer that run in any order.
pub mod Window
pub mod Queue
pub mod Threads
pub mod Invariant
pub mod Fifo
mod Tests
use Prim.Native.Nat.{bit_and}
use network_simulator_platfo.Common.{
  ℕ, ◌+◌, ◌-◌, ◌%◌, ◌^◌, Bool, true, false, Option, none, some, List, [], ◌∷◌, leb, ◌==◌,
  if◌then◌else◌, get_elem?, set,
}
use network_simulator_platfo.Common.Words.{u64_mod, add64}

-- `size_t` subtraction
abbrev pub sub64 : ℕ → ℕ → ℕ
sub64 a b = (a + u64_mod - b) % u64_mod

pub record SpscRingBuffer (A : Type 0) : Type 0 where
  pub buffer : List A
  pub head : ℕ
  pub tail : ℕ

module _ {A : Type 0} where
  -- `SpscRingBuffer()`, over the storage of the array.
  unfoldable pub make : List A → SpscRingBuffer A
  make storage = record { buffer = storage; head = 0; tail = 0 }

  -- `size`
  unfoldable pub size : SpscRingBuffer A → ℕ
  size q = if leb q.head q.tail then q.tail - q.head else 0

-- The slot of an index, `i & (Capacity - 1)`.
abbrev pub slot : ℕ → ℕ → ℕ
slot k i = bit_and i (2 ^ k - 1)

module _ {A : Type 0} (k : ℕ) where
  unfoldable pub push : SpscRingBuffer A → A → SpscRingBuffer A × Bool
  push q item =
      if leb (2 ^ k) (sub64 q.tail q.head)
      then (q, false)
      else (record q { buffer = set q.buffer (slot k q.tail) item; tail = add64 q.tail 1 }, true)

  -- A read outside the storage is `none`, as an empty queue.
  unfoldable pub pop : SpscRingBuffer A → SpscRingBuffer A × Option A
  pop q =
      if q.head == q.tail
      then (q, none)
      else (record q { head = add64 q.head 1 }, get_elem? q.buffer (slot k q.head))

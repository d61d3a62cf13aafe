-- ===== src/Spsc/Queue.antt =====
-- A ring of 2 ^ k slots (core-engine/include/system/event_queue.hpp) is a bounded queue, also where
-- its indices wrap.
use network_simulator_platfo.Common.{
  ℕ, ◌+◌, ◌%◌, ◌^◌, ◌≤◌, ◌<◌, ◌≡◌, refl, ◌∙◌, ap, Bool, true, false, Option, none, some, List, [],
  ◌∷◌, ◌++◌, arith, length, length-append, get_elem?, length-set, leb, ◌==◌, if◌then◌else◌,
  Bool-cases, inl, inr,
}
use network_simulator_platfo.Common.Bits.{pow-pos}
use network_simulator_platfo.Common.Words.{u64_mod}
use mathlib.Core.Path.{ap₂}
use network_simulator_platfo.Spsc.Window.{pow-lt-word, Holds, Holds-extend, slot-mod, sub64-mod}
use network_simulator_platfo.Spsc.{SpscRingBuffer, make, push, pop, slot, sub64}

-- The ring holds the items, oldest first; `start` of them have gone before.
pub record Represents {A : Type 0} (k : ℕ) (q : SpscRingBuffer A) (items : List A) : Type 0 where
  pub start : ℕ
  pub storage : length q.buffer ≡ 2 ^ k
  pub front : q.head ≡ start % u64_mod
  pub back : q.tail ≡ (start + length items) % u64_mod
  pub room : length items ≤ 2 ^ k
  pub held : Holds (2 ^ k) q.buffer start items

-- What a client asks of the queue, and a bounded queue as a list.
pub data Op (A : Type 0) : Type 0 where
  pushes : A → Op A
  pops : Op A

pub data Reply (A : Type 0) : Type 0 where
  pushed : Bool → Reply A
  popped : Option A → Reply A

module _ {A : Type 0} (k : ℕ) where
  unfoldable pub run : SpscRingBuffer A → List (Op A) → List (Reply A)
  run q [] = []
  run q (pushes x ∷ ops) = let (q', done) = push k q x in pushed done ∷ run q' ops
  run q (pops ∷ ops) = let (q', item) = pop k q in popped item ∷ run q' ops

module _ {A : Type 0} (cap : ℕ) where
  -- The same calls on a list of at most `cap` items.
  unfoldable pub run_list : List A → List (Op A) → List (Reply A)
  run_list items [] = []
  run_list items (pushes x ∷ ops) =
      if leb cap (length items)
      then pushed false ∷ run_list items ops
      else pushed true ∷ run_list (items ++ x ∷ []) ops
  run_list [] (pops ∷ ops) = popped none ∷ run_list [] ops
  run_list (x ∷ items) (pops ∷ ops) = popped (some x) ∷ run_list items ops

module _ {A : Type 0} (k : ℕ) (small : k < 64) where
  used :
      (q : SpscRingBuffer A) (items : List A)
      → Represents k q items
      → sub64 q.tail q.head ≡ length items
  used q items r =
      ap₂ sub64 r.back r.front
      ∙ sub64-mod r.start (length items) (omega (arith, pow-lt-word k small))

  tail_slot :
      (q : SpscRingBuffer A) (items : List A) (r : Represents k q items)
      → slot k q.tail ≡ (r.start + length items) % 2 ^ k
  tail_slot q items r = ap (slot k) r.back ∙ slot-mod k (r.start + length items) (omega arith)

  -- A push on a full ring is refused, and the ring stays as it is.
  push_full :
      (q : SpscRingBuffer A) (items : List A) (x : A)
      → Represents k q items
      → length items ≡ 2 ^ k
      → push k q x ≡ (q, false)
  unfolding push
  push_full q items x r full =
      let test : leb (2 ^ k) (sub64 q.tail q.head) ≡ true = ground (arith, used q items r) in
      rw test

  pub push_free :
      (q : SpscRingBuffer A) (items : List A) (x : A)
      → Represents k q items
      → length items < 2 ^ k
      → Represents k (push k q x).0 (items ++ x ∷ []) × ((push k q x).1 ≡ true)
  unfolding push
  push_free q items x r free =
      let test : leb (2 ^ k) (sub64 q.tail q.head) ≡ false = ground (arith, used q items r) in
      rw test (
        record {
          start = r.start;
          storage = length-set q.buffer (slot k q.tail) x ∙ r.storage;
          front = r.front;
          back = omega (arith, r.back, length-append items (x ∷ []));
          room = omega (arith, length-append items (x ∷ []));
          held =
              rw (tail_slot q items r)
                (Holds-extend (2 ^ k) (pow-pos k) q.buffer r.start x items r.storage free r.held);
        },
        refl,
      )

  pub pop_empty : (q : SpscRingBuffer A) → Represents k q [] → pop k q ≡ (q, none)
  unfolding pop
  pop_empty q r = let test : (q.head == q.tail) ≡ true = ground arith in rw test

  pub pop_item :
      (q : SpscRingBuffer A) (x : A) (items : List A)
      → Represents k q (x ∷ items)
      → Represents k (pop k q).0 items × ((pop k q).1 ≡ some x)
  unfolding pop
  pop_item q x items r =
      let n = length items in
      let test : (q.head == q.tail) ≡ false = ground (arith, pow-lt-word k small) in
      let there : slot k q.head ≡ r.start % 2 ^ k =
        ap (slot k) r.front ∙ slot-mod k r.start (omega arith) in
      rw test (
        record {
          start = r.start + 1;
          storage = r.storage;
          front = omega (arith, r.front);
          back = omega (arith, r.back);
          room = omega arith;
          held = r.held.1;
        },
        ap (get_elem? q.buffer) there ∙ r.held.0,
      )

  -- The replies of the ring are those of the list.
  run-run_list :
      (q : SpscRingBuffer A) (items : List A) (ops : List (Op A))
      → Represents k q items
      → run k q ops ≡ run_list (2 ^ k) items ops
  unfolding run run_list
  run-run_list q items [] r = refl
  run-run_list q items (pushes x ∷ ops) r = elim (Bool-cases (leb (2 ^ k) (length items))) [
    | inl full ↦
        rw (full, push_full q items x r (ground arith), run)
          (ap (◌∷◌ (pushed false)) (run-run_list q items ops r))
    | inr free ↦
        let (next, done) = push_free q items x r (ground arith) in
        rw (free, done, run)
          (ap (◌∷◌ (pushed true)) (run-run_list (push k q x).0 (items ++ x ∷ []) ops next))
  ]
  run-run_list q [] (pops ∷ ops) r =
      rw (pop_empty q r, run) (ap (◌∷◌ (popped none)) (run-run_list q [] ops r))
  run-run_list q (x ∷ items) (pops ∷ ops) r =
      let (next, got) = pop_item q x items r in
      rw (got, run) (ap (◌∷◌ (popped (some x))) (run-run_list (pop k q).0 items ops next))

-- A new ring of 2 ^ k slots, k below 64, answers any calls as a queue of at most 2 ^ k items does, on
-- any number of calls: the 64-bit indices may wrap.
pub run_refines :
    {A : Type 0} (k : ℕ) (storage : List A) (ops : List (Op A))
    → k < 64
    → length storage ≡ 2 ^ k
    → run k (make storage) ops ≡ run_list (2 ^ k) [] ops
unfolding make
run_refines k storage ops small full =
    run-run_list k small (record { buffer = storage; head = 0; tail = 0 }) [] ops
      (record {
        start = 0;
        storage = full;
        front = refl;
        back = refl;
        room = omega arith;
        held = tt;
      })

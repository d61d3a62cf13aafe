-- ===== src/Spsc/Fifo.antt =====
-- What the consumer takes out is what the producer has put in, in that order, over every
-- interleaving of the two (core-engine/include/system/event_queue.hpp).
use mathlib.Core.List.{map-append}
use mathlib.Core.Path.{ap₂}
use network_simulator_platfo.Common.{
  ℕ, suc, ◌+◌, ◌%◌, ◌^◌, ◌≤◌, ◌<◌, ◌≡◌, refl, ◌∙◌, sym, ap, subst, false, some, List, [], ◌∷◌, ◌++◌,
  map, append_assoc, arith, length, length-append, get_elem?, length-set, leb, ◌==◌, Bool-cases,
  inl, inr,
}
use network_simulator_platfo.Common.Bits.{pow-pos}
use network_simulator_platfo.Common.Words.{u64_mod}
use network_simulator_platfo.Spsc.Window.{Holds, Holds-extend, slot-mod, sub64-mod, pow-lt-word}
use network_simulator_platfo.Spsc.{SpscRingBuffer, slot, sub64}
use network_simulator_platfo.Spsc.Threads.{
  Producer, Consumer, Machine, Event, offers, produces, takes, consumes, produce, consume, step,
  run, start,
}
use network_simulator_platfo.Spsc.Invariant.{
  written, ConsumerFits-extend, consumer_moves, producer_moves, held_rest, ProducerFits-shrink,
  copies, first_item, ProducerFits, IsConsistent, Consistent,
}

module _ {A : Type 0} (k : ℕ) (small : k < 64) where
  used :
      (ring : SpscRingBuffer A) (index n : ℕ)
      → ring.head ≡ index % u64_mod
      → ring.tail ≡ (index + n) % u64_mod
      → n ≤ 2 ^ k
      → sub64 ring.tail ring.head ≡ n
  used ring index n front back room =
      ap₂ sub64 back front ∙ sub64-mod index n (omega (arith, pow-lt-word k small))

  produce-Consistent :
      (m : Machine A) (p : Producer A)
      → m.producer ≡ p
      → IsConsistent k m.ring p m.consumer m.pushed m.popped
      → Consistent k (produce k m p)
  unfolding produce
  produce-Consistent m Producer.idle e s =
      subst (λ q. IsConsistent k m.ring q m.consumer m.pushed m.popped) (sym e) s
  produce-Consistent m (Producer.loaded x t) e s =
      let count : sub64 t m.ring.head ≡ length s.items =
        ap (λ i. sub64 i m.ring.head) s.producer_fits
        ∙ used m.ring s.index (length s.items) s.front s.back s.room in
      elim (Bool-cases (leb (2 ^ k) (sub64 t m.ring.head))) [
        | inl full ↦ rw full (producer_moves k s Producer.idle refl tt)
        | inr free ↦
            rw free (
              producer_moves k s (Producer.writes x t) refl
                (s.producer_fits, ground (arith, count)))
      ]
  produce-Consistent m (Producer.writes x t) e s =
      let there : slot k t ≡ (s.index + length s.items) % 2 ^ k =
        ap (slot k) (s.producer_fits.0 ∙ s.back)
        ∙ slot-mod k (s.index + length s.items) (omega arith) in
      record {
        items = s.items;
        taken = s.taken;
        index = s.index;
        in_order = s.in_order;
        all_there = s.all_there;
        storage = length-set m.ring.buffer (slot k t) x ∙ s.storage;
        front = s.front;
        back = s.back;
        room = s.room;
        held = rw there (
            Holds-extend (2 ^ k) (pow-pos k) m.ring.buffer s.index x s.items s.storage
              s.producer_fits.1 s.held);
        producer_fits = s.producer_fits;
        consumer_fits = s.consumer_fits;
      }
  produce-Consistent m (Producer.stores x t) e s = record {
    items = s.items ++ x ∷ [];
    taken = s.taken;
    index = s.index;
    in_order = ap (λ l. l ++ x ∷ []) s.in_order ∙ append_assoc s.taken s.items (x ∷ []);
    all_there = s.all_there;
    storage = s.storage;
    front = s.front;
    back = omega (arith, s.producer_fits.0, s.back, length-append s.items (x ∷ []));
    room = omega (arith, s.producer_fits.1, length-append s.items (x ∷ []));
    held = s.held;
    producer_fits = tt;
    consumer_fits = ConsumerFits-extend m.consumer m.ring.head x s.items s.consumer_fits;
  }

  consume-Consistent :
      (m : Machine A) (c : Consumer A)
      → m.consumer ≡ c
      → IsConsistent k m.ring m.producer c m.pushed m.popped
      → Consistent k (consume k m c)
  unfolding consume
  consume-Consistent m Consumer.idle e s =
      subst (λ c. IsConsistent k m.ring m.producer c m.pushed m.popped) (sym e) s
  consume-Consistent m (Consumer.loaded h) e s = elim (Bool-cases (h == m.ring.tail)) [
    | inl none_left ↦ rw none_left (consumer_moves k s Consumer.idle tt)
    | inr some_left ↦
        rw some_left (
          consumer_moves k s (Consumer.reads h) (s.consumer_fits, λ gone. not_empty gone some_left))
  ]
    where
      not_empty : s.items ≡ [] → (h == m.ring.tail) ≡ false → ⊥
      not_empty gone some_left =
          let n : length s.items ≡ 0 = ap length gone in
          let same : h ≡ m.ring.tail = omega (arith, s.consumer_fits, s.front, s.back) in
          ground arith
  consume-Consistent m (Consumer.reads h) e s =
      let there : slot k h ≡ s.index % 2 ^ k =
        ap (slot k) (s.consumer_fits.0 ∙ s.front) ∙ slot-mod k s.index (omega arith) in
      consumer_moves k s (Consumer.copied (get_elem? m.ring.buffer (slot k h)) h) (
        copies (2 ^ k) m.ring.buffer s.index h (slot k h) m.ring.head m.producer s.items there
          s.consumer_fits.1 s.consumer_fits.0 s.held)
  consume-Consistent m (Consumer.copied o h) e s =
      let (y, ys, split, mine, got) = first_item o h m.ring.head s.items s.consumer_fits in
      let n : length s.items ≡ suc (length ys) = ap length split in
      record {
        items = ys;
        taken = s.taken ++ y ∷ [];
        index = s.index + 1;
        in_order = s.in_order ∙ ap (◌++◌ s.taken) split ∙ sym (append_assoc s.taken (y ∷ []) ys);
        all_there =
            ap₂ (λ l i. l ++ i ∷ []) s.all_there got ∙ sym (map-append some s.taken (y ∷ []));
        storage = s.storage;
        front = omega (arith, mine, s.front);
        back = omega (arith, s.back);
        room = omega (arith, s.room);
        held =
            held_rest (2 ^ k) m.ring.buffer s.index m.producer y ys (
              subst (λ l. Holds (2 ^ k) m.ring.buffer s.index (written m.producer l)) split s.held);
        producer_fits =
            ProducerFits-shrink (2 ^ k) m.producer m.ring.tail (length ys)
              (subst (ProducerFits (2 ^ k) m.producer m.ring.tail) n s.producer_fits);
        consumer_fits = tt;
      }

  offer-Consistent :
      (m : Machine A) (x : A) (p : Producer A)
      → m.producer ≡ p
      → Consistent k m
      → Consistent k (step k m (offers x))
  unfolding step
  offer-Consistent m x Producer.idle e s =
      rw (e, step)
        (producer_moves k (subst (λ q. IsConsistent k m.ring q m.consumer m.pushed m.popped) e s)
          (Producer.loaded x m.ring.tail) refl refl)
  offer-Consistent m x (Producer.loaded _ _) e s = rw (e, step) s
  offer-Consistent m x (Producer.writes _ _) e s = rw (e, step) s
  offer-Consistent m x (Producer.stores _ _) e s = rw (e, step) s

  take-Consistent :
      (m : Machine A) (c : Consumer A)
      → m.consumer ≡ c
      → Consistent k m
      → Consistent k (step k m takes)
  unfolding step
  take-Consistent m Consumer.idle e s =
      rw (e, step) (consumer_moves k s (Consumer.loaded m.ring.head) refl)
  take-Consistent m (Consumer.loaded _) e s = rw (e, step) s
  take-Consistent m (Consumer.reads _) e s = rw (e, step) s
  take-Consistent m (Consumer.copied _ _) e s = rw (e, step) s

  step-Consistent : (m : Machine A) (e : Event A) → Consistent k m → Consistent k (step k m e)
  unfolding step
  step-Consistent m (offers x) s = offer-Consistent m x m.producer refl s
  step-Consistent m produces s = produce-Consistent m m.producer refl s
  step-Consistent m takes s = take-Consistent m m.consumer refl s
  step-Consistent m consumes s = consume-Consistent m m.consumer refl s

  run-Consistent :
      (m : Machine A) (es : List (Event A)) → Consistent k m → Consistent k (run k m es)
  unfolding run
  run-Consistent m [] s = s
  run-Consistent m (e ∷ es) s = run-Consistent (step k m e) es (step-Consistent m e s)

-- In any interleaving of the single accesses of a producer and a consumer on a new ring of 2 ^ k
-- slots, k below 64, what the pops have copied out is what the pushes have put in, in the order of
-- the pushes and up to those that are still in the ring, of which there are at most 2 ^ k.
pub run_fifo :
    {A : Type 0} (k : ℕ) (storage : List A) (es : List (Event A))
    → k < 64
    → length storage ≡ 2 ^ k
    → let m = run k (start storage) es in
      (taken : List A) × (items : List A) × (m.popped ≡ map some taken)
      × (m.pushed ≡ taken ++ items)
      × (length items ≤ 2 ^ k)
unfolding start
run_fifo k storage es small full =
    let s = run-Consistent k small (start storage) es (record {
      items = [];
      taken = [];
      index = 0;
      in_order = refl;
      all_there = refl;
      storage = full;
      front = refl;
      back = refl;
      room = omega arith;
      held = tt;
      producer_fits = tt;
      consumer_fits = tt;
    }) in
    (s.taken, s.items, s.all_there, s.in_order, s.room)

-- ===== src/Spsc/Invariant.antt =====
-- What holds between the memory of the ring (core-engine/include/system/event_queue.hpp), the places
-- where its two threads stand, and what they have done.
use network_simulator_platfo.Common.{
  ℕ, suc, ◌+◌, ◌%◌, ◌^◌, ◌≤◌, ◌<◌, ◌≡◌, ◌≢◌, refl, ◌∙◌, sym, ap, subst, Option, some, List, [], ◌∷◌,
  ◌++◌, map, arith, length, get_elem?,
}
use network_simulator_platfo.Common.Words.{u64_mod}
use network_simulator_platfo.Spsc.Window.{Holds}
use network_simulator_platfo.Spsc.{SpscRingBuffer}
use network_simulator_platfo.Spsc.Threads.{Producer, Consumer, Machine}

module _ {A : Type 0} where
  -- What the slots hold: the items, and the one that is written but not counted yet.
  abbrev pub written : Producer A → List A → List A
  written (Producer.stores x t) items = items ++ x ∷ []
  written _ items = items

  -- The producer has the tail that is in memory, and room for its item once it has tested for that.
  abbrev pub ProducerFits : ℕ → Producer A → ℕ → ℕ → Type 0
  ProducerFits cap Producer.idle tail n = Unit {0}
  ProducerFits cap (Producer.loaded x t) tail n = t ≡ tail
  ProducerFits cap (Producer.writes x t) tail n = (t ≡ tail) × (n < cap)
  ProducerFits cap (Producer.stores x t) tail n = (t ≡ tail) × (n < cap)

  -- The consumer has the head that is in memory, and an item once it has tested for one, which is
  -- the one that it has copied.
  abbrev pub ConsumerFits : Consumer A → ℕ → List A → Type 0
  ConsumerFits Consumer.idle head items = Unit {0}
  ConsumerFits (Consumer.loaded h) head items = h ≡ head
  ConsumerFits (Consumer.reads h) head items = (h ≡ head) × (items ≢ [])
  ConsumerFits (Consumer.copied o h) head [] = ⊥
  ConsumerFits (Consumer.copied o h) head (x ∷ items) = (h ≡ head) × (o ≡ some x)

  -- An item that is added behind the others is none of the consumer's business.
  pub ConsumerFits-extend :
      (c : Consumer A) (head : ℕ) (x : A) (items : List A)
      → ConsumerFits c head items
      → ConsumerFits c head (items ++ x ∷ [])
  ConsumerFits-extend Consumer.idle head x items f = tt
  ConsumerFits-extend (Consumer.loaded h) head x items f = f
  ConsumerFits-extend (Consumer.reads h) head x [] f = (f.0, λ e. cc)
  ConsumerFits-extend (Consumer.reads h) head x (y ∷ items) f = (f.0, λ e. cc)
  ConsumerFits-extend (Consumer.copied o h) head x [] f = absurd f
  ConsumerFits-extend (Consumer.copied o h) head x (y ∷ items) f = f

  -- What holds between the memory, the places where the two threads stand, and what they have done.
  pub record IsConsistent (k : ℕ) (ring : SpscRingBuffer A) (p : Producer A) (c : Consumer A)
      (pushed : List A) (popped : List (Option A)) : Type 0 where
    pub items : List A
    pub taken : List A
    pub index : ℕ
    pub in_order : pushed ≡ taken ++ items
    pub all_there : popped ≡ map some taken
    pub storage : length ring.buffer ≡ 2 ^ k
    pub front : ring.head ≡ index % u64_mod
    pub back : ring.tail ≡ (index + length items) % u64_mod
    pub room : length items ≤ 2 ^ k
    pub held : Holds (2 ^ k) ring.buffer index (written p items)
    pub producer_fits : ProducerFits (2 ^ k) p ring.tail (length items)
    pub consumer_fits : ConsumerFits c ring.head items

  abbrev pub Consistent : ℕ → Machine A → Type 0
  Consistent k m = IsConsistent k m.ring m.producer m.consumer m.pushed m.popped

  -- A step of one thread that leaves the memory alone.
  pub consumer_moves :
      (k : ℕ) {ring : SpscRingBuffer A} {p : Producer A} {c : Consumer A} {pushed : List A}
      {popped : List (Option A)} (s : IsConsistent k ring p c pushed popped) (c' : Consumer A)
      → ConsumerFits c' ring.head s.items
      → IsConsistent k ring p c' pushed popped
  consumer_moves k s c' fits = record {
    items = s.items;
    taken = s.taken;
    index = s.index;
    in_order = s.in_order;
    all_there = s.all_there;
    storage = s.storage;
    front = s.front;
    back = s.back;
    room = s.room;
    held = s.held;
    producer_fits = s.producer_fits;
    consumer_fits = fits;
  }

  pub producer_moves :
      (k : ℕ) {ring : SpscRingBuffer A} {p : Producer A} {c : Consumer A} {pushed : List A}
      {popped : List (Option A)} (s : IsConsistent k ring p c pushed popped) (p' : Producer A)
      → written p' s.items ≡ written p s.items
      → ProducerFits (2 ^ k) p' ring.tail (length s.items)
      → IsConsistent k ring p' c pushed popped
  producer_moves k {ring = ring} s p' same fits = record {
    items = s.items;
    taken = s.taken;
    index = s.index;
    in_order = s.in_order;
    all_there = s.all_there;
    storage = s.storage;
    front = s.front;
    back = s.back;
    room = s.room;
    held = subst (Holds (2 ^ k) ring.buffer s.index) (sym same) s.held;
    producer_fits = fits;
    consumer_fits = s.consumer_fits;
  }

  held_first :
      (cap : ℕ) (buf : List A) (i : ℕ) (p : Producer A) (y : A) (ys : List A)
      → Holds cap buf i (written p (y ∷ ys))
      → get_elem? buf (i % cap) ≡ some y
  held_first cap buf i Producer.idle y ys h = h.0
  held_first cap buf i (Producer.loaded _ _) y ys h = h.0
  held_first cap buf i (Producer.writes _ _) y ys h = h.0
  held_first cap buf i (Producer.stores _ _) y ys h = h.0

  pub held_rest :
      (cap : ℕ) (buf : List A) (i : ℕ) (p : Producer A) (y : A) (ys : List A)
      → Holds cap buf i (written p (y ∷ ys))
      → Holds cap buf (i + 1) (written p ys)
  held_rest cap buf i Producer.idle y ys h = h.1
  held_rest cap buf i (Producer.loaded _ _) y ys h = h.1
  held_rest cap buf i (Producer.writes _ _) y ys h = h.1
  held_rest cap buf i (Producer.stores _ _) y ys h = h.1

  pub ProducerFits-shrink :
      (cap : ℕ) (p : Producer A) (tail n : ℕ)
      → ProducerFits cap p tail (suc n)
      → ProducerFits cap p tail n
  ProducerFits-shrink cap Producer.idle tail n f = tt
  ProducerFits-shrink cap (Producer.loaded _ _) tail n f = f
  ProducerFits-shrink cap (Producer.writes _ _) tail n f = omega arith
  ProducerFits-shrink cap (Producer.stores _ _) tail n f = omega arith

  -- The consumer copies the oldest item.
  pub copies :
      (cap : ℕ) (buf : List A) (i h place head : ℕ) (p : Producer A) (items : List A)
      → place ≡ i % cap
      → items ≢ []
      → h ≡ head
      → Holds cap buf i (written p items)
      → ConsumerFits (Consumer.copied (get_elem? buf place) h) head items
  copies cap buf i h place head p [] there more mine held = absurd (more refl)
  copies cap buf i h place head p (y ∷ ys) there more mine held =
      (mine, ap (get_elem? buf) there ∙ held_first cap buf i p y ys held)

  pub first_item :
      (o : Option A) (h head : ℕ) (items : List A)
      → ConsumerFits (Consumer.copied o h) head items
      → (y : A) × (ys : List A) × (items ≡ y ∷ ys) × (h ≡ head) × (o ≡ some y)
  first_item o h head [] f = absurd f
  first_item o h head (y ∷ ys) f = (y, ys, refl, f.0, f.1)

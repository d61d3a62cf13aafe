-- ===== src/Limiter/Rate.antt =====
-- The rate that the limiter enforces, over every interleaving.
use network_simulator_platfo.Common.{
  subst, ap, ◌∙◌, not, ◌&&◌, ℕ, suc, ◌+◌, ◌*◌, ◌^◌, ◌≤◌, ◌<◌, ◌≡◌, refl, ◌⊎◌, inl, inr, Bool, List,
  [], ◌∷◌, arith, All, length, Option-cases, Bool-cases, some, ◌==◌,
}
use network_simulator_platfo.Limiter.{GcraRateLimiter, admit}
use network_simulator_platfo.Limiter.Threads.{
  Thread, idle, trying, Shared, set_thread, Event, arrives, tries, attempt, step, run, start,
}

-- The time of a call lies between two times.
abbrev pub Within : ℕ → ℕ → Event → Type 0
Within first last (arrives i t) = (first ≤ t) × (t ≤ last)
Within first last (tries i spurious) = Unit {0}

abbrev Timed : ℕ → ℕ → Thread → Type 0
Timed first last idle = Unit {0}
Timed first last (trying t current_tat) = (first ≤ t) × (t ≤ last)

-- With n calls let through between `first` and `last`, the arrival time has moved n intervals.
abbrev Paced : GcraRateLimiter → ℕ → ℕ → ℕ → Type 0
Paced l first last n =
    (n ≡ 0)
    ⊎ ((first + n * l.emission_interval_ns ≤ l.tat_ns)
        × (first + n * l.emission_interval_ns ≤ last + l.tolerance_ns + l.emission_interval_ns))

-- The arithmetic of the limiter does not wrap up to the time `last`.
abbrev pub HasRoom : GcraRateLimiter → ℕ → Type 0
HasRoom l last = last + l.tolerance_ns + l.emission_interval_ns < 2 ^ 64

Paced-admit :
    (l : GcraRateLimiter) (first last n t new_tat : ℕ)
    → HasRoom l last
    → first ≤ t
    → t ≤ last
    → admit l t l.tat_ns ≡ some new_tat
    → Paced l first last n
    → Paced (record l { tat_ns = new_tat }) first last (suc n)
unfolding admit
Paced-admit l first last n t new_tat room lo hi e p = ground arith

record IsPaced (first last : ℕ) (s : Shared) : Type 0 where
  room : HasRoom s.limiter last
  timed : (i : ℕ) → Timed first last (s.threads i)
  paced : Paced s.limiter first last (length s.passed)

set_thread-Timed :
    (first last : ℕ) (s : Shared) (i : ℕ) (th : Thread)
    → Timed first last th
    → ((j : ℕ) → Timed first last (s.threads j))
    → (j : ℕ) → Timed first last ((set_thread s i th).threads j)
unfolding set_thread
set_thread-Timed first last s i th h k j = elim (Bool-cases (j == i)) [
  | inl e ↦ rw e h
  | inr e ↦ rw e (k j)
]

module _ (first last : ℕ) where
  passes-IsPaced :
      (s : Shared) (i t new_tat : ℕ)
      → first ≤ t
      → t ≤ last
      → admit s.limiter t s.limiter.tat_ns ≡ some new_tat
      → IsPaced first last s
      → IsPaced first last (record (set_thread s i idle) {
        limiter = record s.limiter { tat_ns = new_tat };
        passed = t ∷ s.passed;
      })
  unfolding set_thread
  passes-IsPaced s i t new_tat lo hi e p = record {
    room = p.room;
    timed = set_thread-Timed first last s i idle tt p.timed;
    paced = Paced-admit s.limiter first last (length s.passed) t new_tat p.room lo hi e p.paced;
  }

  attempt-IsPaced :
      (s : Shared) (i t current_tat : ℕ) (spurious : Bool)
      → first ≤ t
      → t ≤ last
      → IsPaced first last s
      → IsPaced first last (attempt s i t current_tat spurious)
  unfolding attempt set_thread
  attempt-IsPaced s i t current_tat spurious lo hi p =
      elim (Option-cases (admit s.limiter t current_tat)) [
        | inl refused ↦
            rw (refused, attempt)
              (record { room = p.room; timed = leaves idle tt; paced = p.paced })
        | inr (new_tat, e) ↦ elim (Bool-cases (s.limiter.tat_ns == current_tat && not spurious)) [
          | inl swapped ↦
              rw (e, attempt)
                (rw swapped (
                  passes-IsPaced s i t new_tat lo hi
                    (ap (admit s.limiter t) {x = s.limiter.tat_ns} {y = current_tat} (ground arith)
                      ∙ e)
                    p))
          | inr failed ↦
              rw (e, attempt)
                (rw failed (record {
                  room = p.room;
                  timed = leaves (trying t s.limiter.tat_ns) (lo, hi);
                  paced = p.paced;
                }))
        ]
      ]
    where
      leaves :
          (th : Thread)
          → Timed first last th
          → (j : ℕ) → Timed first last ((set_thread s i th).threads j)
      leaves th h = set_thread-Timed first last s i th h p.timed

  try-IsPaced :
      (s : Shared) (i : ℕ) (spurious : Bool) (th : Thread)
      → s.threads i ≡ th
      → IsPaced first last s
      → IsPaced first last (step s (tries i spurious))
  unfolding step
  try-IsPaced s i spurious idle e p = rw (e, step) p
  try-IsPaced s i spurious (trying t current_tat) e p =
      let (lo, hi) = subst (Timed first last) e (p.timed i) in
      rw (e, step) (attempt-IsPaced s i t current_tat spurious lo hi p)

  arrive-IsPaced :
      (s : Shared) (i t : ℕ) (th : Thread)
      → s.threads i ≡ th
      → first ≤ t
      → t ≤ last
      → IsPaced first last s
      → IsPaced first last (step s (arrives i t))
  unfolding step set_thread
  arrive-IsPaced s i t idle e lo hi p =
      rw (e, step)
        (record {
          room = p.room;
          timed = set_thread-Timed first last s i (trying t s.limiter.tat_ns) (lo, hi) p.timed;
          paced = p.paced;
        })
  arrive-IsPaced s i t (trying _ _) e lo hi p = rw (e, step) p

  step-IsPaced :
      (s : Shared) (e : Event)
      → Within first last e
      → IsPaced first last s
      → IsPaced first last (step s e)
  step-IsPaced s (arrives i t) (lo, hi) p = arrive-IsPaced s i t (s.threads i) refl lo hi p
  step-IsPaced s (tries i spurious) w p = try-IsPaced s i spurious (s.threads i) refl p

  run-IsPaced :
      (s : Shared) (es : List Event)
      → All (Within first last) es
      → IsPaced first last s
      → IsPaced first last (run s es)
  unfolding run
  run-IsPaced s [] w p = p
  run-IsPaced s (e ∷ es) w p = run-IsPaced (step s e) es w.1 (step-IsPaced s e w.0 p)

-- The constants of the limiter stay, whatever happens.
step-constants :
    (s : Shared) (e : Event)
    → ((step s e).limiter.emission_interval_ns ≡ s.limiter.emission_interval_ns)
      × ((step s e).limiter.tolerance_ns ≡ s.limiter.tolerance_ns)
unfolding step set_thread attempt
step-constants s (arrives i t) = ground arith
step-constants s (tries i spurious) = ground arith

run-constants :
    (s : Shared) (es : List Event)
    → ((run s es).limiter.emission_interval_ns ≡ s.limiter.emission_interval_ns)
      × ((run s es).limiter.tolerance_ns ≡ s.limiter.tolerance_ns)
unfolding run
run-constants s [] = (refl, refl)
run-constants s (e ∷ es) =
    let c = run-constants (step s e) es in let d = step-constants s e in (c.0 ∙ d.0, c.1 ∙ d.1)

Paced-bound :
    (l l' : GcraRateLimiter) (first last n : ℕ)
    → l'.emission_interval_ns ≡ l.emission_interval_ns
    → l'.tolerance_ns ≡ l.tolerance_ns
    → Paced l' first last (suc n)
    → first + n * l.emission_interval_ns ≤ last + l.tolerance_ns
Paced-bound l l' first last n interval tolerance p = omega (arith, ap (λ t. n * t) interval)

-- In any interleaving of any number of threads, with any failures of the compare-and-swap, the
-- calls made between two times of which n + 1 return true take those n emission intervals, but for
-- the tolerance. The time is taken to be so far from 2 ^ 64 that nothing wraps.
pub rate_bound :
    (l : GcraRateLimiter) (es : List Event) (first last n : ℕ)
    → HasRoom l last
    → All (Within first last) es
    → length (run (start l) es).passed ≡ suc n
    → first + n * l.emission_interval_ns ≤ last + l.tolerance_ns
unfolding start
rate_bound l es first last n room w e =
    let p =
      run-IsPaced first last (start l) es w
        (record { room = room; timed = λ _. tt; paced = inl refl }) in
    let (interval, tolerance) = run-constants (start l) es in
    Paced-bound l (run (start l) es).limiter first last n interval tolerance
      (subst (Paced (run (start l) es).limiter first last) e p.paced)

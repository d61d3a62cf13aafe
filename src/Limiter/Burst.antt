-- ===== src/Limiter/Burst.antt =====
-- How many packets at one time an idle limiter lets through
-- (core-engine/include/network/rate_limiter.hpp), and that the loop of one thread alone is `allow`.
use network_simulator_platfo.Common.{
  ℕ, zero, suc, ◌+◌, ◌*◌, ◌^◌, ◌≤◌, ◌<◌, ◌≡◌, refl, ◌↔◌, ap, subst, sym, ◌∙◌, true, false, some,
  none, List, [], ◌∷◌, ◌++◌, arith, replicate, inl, inr, Bool, if◌then◌else◌, Option-cases, ◌==◌,
}
use network_simulator_platfo.Limiter.{GcraRateLimiter, admit, allow, allow_all}
use network_simulator_platfo.Limiter.Threads.{
  Thread, idle, trying, Shared, set_thread, Event, arrives, tries, attempt, step, run,
}

allow_at :
    (l : GcraRateLimiter) (t k : ℕ)
    → l.tat_ns ≡ t + k * l.emission_interval_ns
    → k * l.emission_interval_ns ≤ l.tolerance_ns
    → t + suc k * l.emission_interval_ns < 2 ^ 64
    → allow l t ≡ (record l { tat_ns = t + suc k * l.emission_interval_ns }, true)
unfolding allow
allow_at l t k e h room = ground arith

allow_first :
    (l : GcraRateLimiter) (t : ℕ)
    → l.tat_ns ≤ t
    → t + l.emission_interval_ns < 2 ^ 64
    → allow l t ≡ (record l { tat_ns = t + 1 * l.emission_interval_ns }, true)
unfolding allow
allow_first l t h room = ground arith

burst_from :
    (l : GcraRateLimiter) (t k n : ℕ)
    → l.tat_ns ≡ t + k * l.emission_interval_ns
    → (k + n) * l.emission_interval_ns ≤ l.tolerance_ns + l.emission_interval_ns
    → t + (k + n) * l.emission_interval_ns < 2 ^ 64
    → allow_all l (replicate n t)
      ≡ (replicate n true, record l { tat_ns = t + (k + n) * l.emission_interval_ns })
unfolding allow_all
burst_from l t k zero e h room = ground arith
burst_from l t k (suc n) e h room =
    let T = l.emission_interval_ns in
    let l' = record l { tat_ns = t + suc k * T } in
    let same : t + (suc k + n) * T ≡ t + (k + suc n) * T = omega arith in
    rw (allow_at l t k e (omega arith) (omega arith), allow_all)
      (ap {B = List Bool × GcraRateLimiter} (λ r. (true ∷ r.0, r.1))
          (burst_from l' t (suc k) n refl (omega arith) (omega arith))
        ∙ ap {B = List Bool × GcraRateLimiter}
            (λ x. (true ∷ replicate n true, record l { tat_ns = x })) same)

allow_full :
    (l : GcraRateLimiter) (t ahead : ℕ)
    → ((allow (record l { tat_ns = t + ahead }) t).1 ≡ false) ↔ (l.tolerance_ns < ahead)
unfolding allow
allow_full l t ahead = (λ e. ground arith, λ e. ground arith)

-- An idle limiter lets a burst of n + 1 packets at one time through if n emission intervals fit in
-- the tolerance; the next packet at that time is refused exactly when n + 1 intervals do not. The
-- time and n + 1 intervals are together below 2 ^ 64.
pub burst :
    (l : GcraRateLimiter) (t n : ℕ)
    → l.tat_ns ≤ t
    → n * l.emission_interval_ns ≤ l.tolerance_ns
    → t + suc n * l.emission_interval_ns < 2 ^ 64
    → let (passed, l') = allow_all l (replicate (suc n) t) in
      (passed ≡ replicate (suc n) true)
      × (((allow l' t).1 ≡ false) ↔ (l.tolerance_ns < suc n * l.emission_interval_ns))
unfolding allow_all
burst l t n h fits room =
    let T = l.emission_interval_ns in
    let l' = record l { tat_ns = t + 1 * T } in
    let first = allow_first l t h (omega arith) in
    let rest = burst_from l' t 1 n refl (omega arith) (omega arith) in
    let same : t + (1 + n) * T ≡ t + suc n * T = omega arith in
    let whole : allow_all l (replicate (suc n) t)
        ≡ (replicate (suc n) true, record l { tat_ns = t + suc n * T }) =
      rw (first, allow_all)
        (ap {B = List Bool × GcraRateLimiter} (λ r. (true ∷ r.0, r.1)) rest
          ∙ ap {B = List Bool × GcraRateLimiter}
              (λ x. (true ∷ replicate n true, record l { tat_ns = x })) same) in
    (
      ap (λ r. r.0) whole,
      subst (λ b. ((allow b t).1 ≡ false) ↔ (l.tolerance_ns < suc n * T))
          (sym (ap (λ r. r.1) whole)) (allow_full l t (suc n * T)),
    )

module _ (i t : ℕ) where
  -- rounds of thread i: k that fail spuriously, and one that does not
  abbrev pub rounds : ℕ → List Event
  rounds k = replicate k (tries i true) ++ tries i false ∷ []

  tries-idle : (s : Shared) (b : Bool) → s.threads i ≡ idle → step s (tries i b) ≡ s
  unfolding step
  tries-idle s b e = rw (e, step)

  tries-trying :
      (s : Shared) (b : Bool) (c : ℕ)
      → s.threads i ≡ trying t c
      → step s (tries i b) ≡ attempt s i t c b
  unfolding step
  tries-trying s b c e = rw (e, step)

  rounds-idle : (s : Shared) (k : ℕ) → s.threads i ≡ idle → run s (rounds k) ≡ s
  unfolding run
  rounds-idle s zero e = tries-idle s false e
  rounds-idle s (suc k) e = ap (λ u. run u (rounds k)) (tries-idle s true e) ∙ rounds-idle s k e

  -- The outcome of a call of `allow` in thread i.
  abbrev pub Returned : Shared → Shared → GcraRateLimiter × Bool → Type 0
  Returned s s' r =
      (s'.limiter ≡ r.0)
      × (s'.passed ≡ (if r.1 then t ∷ s.passed else s.passed))
      × (s'.refused ≡ (if r.1 then s.refused else t ∷ s.refused))

  attempt_refused :
      (s : Shared) (b : Bool)
      → admit s.limiter t s.limiter.tat_ns ≡ none
      → let s' = attempt s i t s.limiter.tat_ns b in
        Returned s s' (s.limiter, false) × (s'.threads i ≡ idle)
  unfolding attempt set_thread
  attempt_refused s b h = rw (h, attempt) ((refl, refl, refl), here)
    where
      here : (if i == i then idle else s.threads i) ≡ idle
      here = ground arith

  attempt_spurious :
      (s : Shared) (new_tat : ℕ)
      → admit s.limiter t s.limiter.tat_ns ≡ some new_tat
      → attempt s i t s.limiter.tat_ns true ≡ set_thread s i (trying t s.limiter.tat_ns)
  unfolding attempt
  attempt_spurious s new_tat h = ground arith

  attempt_passed :
      (s : Shared) (new_tat : ℕ)
      → admit s.limiter t s.limiter.tat_ns ≡ some new_tat
      → Returned s
          (attempt s i t s.limiter.tat_ns false)
          (record s.limiter { tat_ns = new_tat }, true)
  unfolding attempt set_thread
  attempt_passed s new_tat h = ground arith

  set_thread_here : (s : Shared) (th : Thread) → (set_thread s i th).threads i ≡ th
  unfolding set_thread
  set_thread_here s th = ground arith

  rounds-refused :
      (s : Shared) (k : ℕ)
      → s.threads i ≡ trying t s.limiter.tat_ns
      → admit s.limiter t s.limiter.tat_ns ≡ none
      → Returned s (run s (rounds k)) (s.limiter, false)
  unfolding run
  rounds-refused s zero e h =
      rw (tries-trying s false s.limiter.tat_ns e) (attempt_refused s false h).0
  rounds-refused s (suc k) e h =
      let (returned, out) = attempt_refused s true h in
      subst (λ u. Returned s (run u (rounds k)) (s.limiter, false))
        (sym (tries-trying s true s.limiter.tat_ns e))
        (rw (rounds-idle (attempt s i t s.limiter.tat_ns true) k out) returned)

  rounds-passed :
      (s : Shared) (k new_tat : ℕ)
      → s.threads i ≡ trying t s.limiter.tat_ns
      → admit s.limiter t s.limiter.tat_ns ≡ some new_tat
      → Returned s (run s (rounds k)) (record s.limiter { tat_ns = new_tat }, true)
  unfolding run set_thread
  rounds-passed s zero new_tat e h =
      rw (tries-trying s false s.limiter.tat_ns e) (attempt_passed s new_tat h)
  rounds-passed s (suc k) new_tat e h =
      subst (λ u. Returned s (run u (rounds k)) (record s.limiter { tat_ns = new_tat }, true))
        (sym (tries-trying s true s.limiter.tat_ns e ∙ attempt_spurious s new_tat h))
        (rounds-passed (set_thread s i (trying t s.limiter.tat_ns)) k new_tat
          (set_thread_here s (trying t s.limiter.tat_ns)) h)

  arrives-idle :
      (s : Shared)
      → s.threads i ≡ idle
      → step s (arrives i t) ≡ set_thread s i (trying t s.limiter.tat_ns)
  unfolding step
  arrives-idle s e = rw (e, step)

  -- A thread that runs alone returns from the loop after any number of spurious failures, with the
  -- limiter and the result of one call of `allow`.
  pub rounds-allow :
      (s : Shared) (k : ℕ)
      → s.threads i ≡ idle
      → Returned s (run s (arrives i t ∷ rounds k)) (allow s.limiter t)
  unfolding run allow set_thread
  rounds-allow s k e =
      subst (λ u. Returned s (run u (rounds k)) (allow s.limiter t)) (sym (arrives-idle s e))
        (elim (Option-cases (admit s.limiter t s.limiter.tat_ns)) [
          | inl h ↦
              rw (h, allow)
                (rounds-refused (set_thread s i (trying t s.limiter.tat_ns)) k
                  (set_thread_here s (trying t s.limiter.tat_ns)) h)
          | inr (new_tat, h) ↦
              rw (h, allow)
                (rounds-passed (set_thread s i (trying t s.limiter.tat_ns)) k new_tat
                  (set_thread_here s (trying t s.limiter.tat_ns)) h)
        ])

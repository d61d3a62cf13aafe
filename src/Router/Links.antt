-- ===== src/Router/Links.antt =====
-- Each link of a router has a breaker of its own (core-engine/src/network/router.cpp).
use network_simulator_platfo.Common.{
  ℕ, ◌≡◌, refl, ◌∙◌, ap, Option, none, some, List, [], ◌∷◌, ◌==◌, ==_iff, if◌then◌else◌, Bool-cases,
  inl, inr,
}
use network_simulator_platfo.Common.Map.{find, assign, nat_key, find-assign}
use network_simulator_platfo.Breaker.{
  CircuitBreaker, Call, success, failure, query, Readings, make_default, record_success,
  record_failure, get_state,
}
use network_simulator_platfo.Breaker
use network_simulator_platfo.Router.{
  Router, breaker_of, record_link_success, record_link_failure, get_link_state,
}

-- A call of the router about one link; `created` is the reading of the clock that a breaker made in
-- this call takes.
pub record LinkCall : Type 0 where
  pub neighbor_id : ℕ
  pub created : ℕ
  pub call : Call

unfoldable link_call : Router → ℕ → ℕ → Call → Router
link_call r neighbor_id created (success t) = record_link_success r neighbor_id created t
link_call r neighbor_id created (failure t) = record_link_failure r neighbor_id created t
link_call r neighbor_id created (query t) = (get_link_state r neighbor_id created t).0

unfoldable pub link_step : Router → LinkCall → Router
unfolding link_call
link_step r c = link_call r c.neighbor_id c.created c.call

unfoldable pub link_run : Router → List LinkCall → Router
link_run r [] = r
link_run r (c ∷ cs) = link_run (link_step r c) cs

-- One breaker, made by the first call that is about link n, under the calls that are about n.
unfoldable pub alone_step : ℕ → Option CircuitBreaker → LinkCall → Option CircuitBreaker
unfolding Breaker.step
alone_step n o c =
    if c.neighbor_id == n
    then some (Breaker.step (elim o [ none ↦ make_default c.created | some b ↦ b ]) c.call)
    else o

unfoldable pub alone : ℕ → Option CircuitBreaker → List LinkCall → Option CircuitBreaker
alone n o [] = o
alone n o (c ∷ cs) = alone n (alone_step n o c) cs

link_call-assign :
    (r : Router) (n created : ℕ) (k : Call)
    → (link_call r n created k).link_breakers
      ≡ assign n (Breaker.step (breaker_of r n created) k) r.link_breakers
unfolding link_call record_link_success record_link_failure get_link_state Breaker.step
link_call-assign r n created (success t) = refl
link_call-assign r n created (failure t) = refl
link_call-assign r n created (query t) = refl

link_step-find :
    (r : Router) (n : ℕ) (c : LinkCall)
    → find n (link_step r c).link_breakers ≡ alone_step n (find n r.link_breakers) c
unfolding link_step alone_step breaker_of Breaker.step
link_step-find r n c =
    ap (find n) (link_call-assign r c.neighbor_id c.created c.call)
    ∙ find-assign c.neighbor_id n (Breaker.step (breaker_of r c.neighbor_id c.created) c.call)
        r.link_breakers
    ∙ elim (Bool-cases (c.neighbor_id == n)) [
      | inl same ↦ rw same (
          ap
            (λ i. some (
              Breaker.step
                (elim (find i r.link_breakers) [ none ↦ make_default c.created | some b ↦ b ])
                c.call))
            ((==_iff c.neighbor_id n).0 same))
      | inr other ↦ rw other refl
    ]

-- After any series of calls about links, the breaker of a link is what a breaker of its own would be
-- after the calls about that link alone.
pub link_run-alone :
    (r : Router) (cs : List LinkCall) (n : ℕ)
    → find n (link_run r cs).link_breakers ≡ alone n (find n r.link_breakers) cs
unfolding link_run alone
link_run-alone r [] n = refl
link_run-alone r (c ∷ cs) n =
    link_run-alone (link_step r c) cs n ∙ ap (λ o. alone n o cs) (link_step-find r n c)

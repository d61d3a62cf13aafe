-- ===== src/Http/Bounds.antt =====
-- What the parser (core-engine/src/protocols/http_sim.cpp) has read of a body.
use network_simulator_platfo.Common.{
  Option-cases, inl, inr, ℕ, ◌^◌, ◌<◌, ◌≡◌, refl, Bool, some, [], ◌∷◌, arith, length, length-append,
}
use network_simulator_platfo.Common.Words.{Bytes}
use network_simulator_platfo.Http.Number.{stoul, skip_spaces, signed}
use network_simulator_platfo.Http.{
  HttpState, HttpSim, Outcome, goes, raises, reset, consume, consume_all, dispatch, parse_chunk,
  store_header,
}

-- How much of the body each state has read.
abbrev pub Progress : HttpState → ℕ → ℕ → Type 0
Progress HttpState.body read n = read < n
Progress HttpState.complete read n = read ≡ n
Progress HttpState.error read n = Unit {0}
Progress _ read n = read ≡ 0

pub record IsValid (p : HttpSim) : Type 0 where
  pub counted : p.body_bytes_read ≡ length p.request.body
  pub word : p.content_length < 2 ^ 64
  pub progress : Progress p.state p.body_bytes_read p.content_length

signed-lt : (cs : Bytes) (n : ℕ) → signed cs ≡ some n → n < 2 ^ 64
unfolding signed
signed-lt [] n h = cc
signed-lt (c ∷ cs) n h = ground arith

-- A Content-Length fits in 64 bits.
stoul-lt : (cs : Bytes) (n : ℕ) → stoul cs ≡ some n → n < 2 ^ 64
unfolding stoul
stoul-lt cs n h = signed-lt (skip_spaces cs) n h

store_header-IsValid :
    (p : HttpSim) → p.state ≡ HttpState.expect_value_lf → IsValid p → IsValid (store_header p)
unfolding store_header
store_header-IsValid p e v = elim (Option-cases (stoul p.current_token)) [
  | inl bad ↦ ground arith
  | inr (n, good) ↦ ground (arith, stoul-lt p.current_token n good)
]

module _ (can_reserve : ℕ → Bool) where
  abbrev Kept : Outcome → Type 0
  Kept (goes q) = IsValid q
  Kept (raises q) = IsValid q

  dispatch-Kept :
      (st : HttpState) (p : HttpSim) (ch : ℕ)
      → p.state ≡ st
      → IsValid p
      → Kept (dispatch can_reserve st p ch)
  unfolding dispatch
  dispatch-Kept HttpState.method p ch e v = ground arith
  dispatch-Kept HttpState.uri p ch e v = ground arith
  dispatch-Kept HttpState.version p ch e v = ground arith
  dispatch-Kept HttpState.header_key p ch e v = ground arith
  dispatch-Kept HttpState.header_value p ch e v = ground arith
  dispatch-Kept HttpState.expect_value_lf p ch e v = ground (arith, store_header-IsValid p e v)
  dispatch-Kept HttpState.expect_body_lf p ch e v = ground arith
  dispatch-Kept HttpState.body p ch e v = ground (arith, length-append p.request.body (ch ∷ []))
  dispatch-Kept HttpState.complete p ch e v = v
  dispatch-Kept HttpState.error p ch e v = v

  consume_all-Kept :
      (p : HttpSim) (chunk : Bytes) → IsValid p → Kept (consume_all can_reserve p chunk)
  unfolding consume_all consume
  consume_all-Kept p [] v = v
  consume_all-Kept p (ch ∷ chunk) v =
      after (dispatch can_reserve p.state p ch) refl (dispatch-Kept p.state p ch refl v)
        (λ q. consume_all-Kept q chunk)
    where
      after :
          (o : Outcome)
          → dispatch can_reserve p.state p ch ≡ o
          → Kept o
          → ((q : HttpSim) → IsValid q → Kept (consume_all can_reserve q chunk))
          → Kept (consume_all can_reserve p (ch ∷ chunk))
      after (goes q) e k ih = rw (e, consume_all, consume) (ih q k)
      after (raises q) e k ih = rw (e, consume_all, consume) k

  -- A call of `parse_chunk` on a valid parser leaves a valid one, whatever bytes it is given and
  -- also when it ends by an exception: it has counted the body that it holds, and that is shorter
  -- than the Content-Length while the body is read, and just as long where the request is complete.
  pub parse_chunk-IsValid :
      (p : HttpSim) (chunk : Bytes) → IsValid p → IsValid (parse_chunk can_reserve p chunk).0
  unfolding parse_chunk
  parse_chunk-IsValid p chunk v =
      after (consume_all can_reserve p chunk) refl (consume_all-Kept p chunk v)
    where
      after :
          (o : Outcome)
          → consume_all can_reserve p chunk ≡ o
          → Kept o
          → IsValid (parse_chunk can_reserve p chunk).0
      after (goes q) e k = rw (e, parse_chunk) k
      after (raises q) e k = rw (e, parse_chunk) k

pub reset-IsValid : IsValid reset
unfolding reset
reset-IsValid = omega arith

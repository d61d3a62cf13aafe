-- ===== src/Http/Chunks.antt =====
-- Fragmentation: how a stream is cut into chunks does not matter to `parse_chunk`
-- (core-engine/src/protocols/http_sim.cpp).
use network_simulator_platfo.Common.{
  ℕ, ◌≡◌, refl, ◌∙◌, sym, ap, Bool, Option, none, some, List, [], ◌∷◌, ◌++◌,
}
use network_simulator_platfo.Common.Words.{Bytes}
use network_simulator_platfo.Http.{
  HttpSim, Outcome, goes, raises, consume, consume_all, parse_chunk, is_complete,
}

-- One chunk behind the other, without their borders.
abbrev pub join : Bytes → List Bytes → Bytes
join c [] = c
join c (d ∷ ds) = c ++ join d ds

module _ (can_reserve : ℕ → Bool) where
  abbrev pub and_then : Outcome → Bytes → Outcome
  and_then (goes q) ys = consume_all can_reserve q ys
  and_then (raises q) ys = raises q

  pub consume_all-append :
      (p : HttpSim) (xs ys : Bytes)
      → consume_all can_reserve p (xs ++ ys) ≡ and_then (consume_all can_reserve p xs) ys
  unfolding consume_all
  consume_all-append p [] ys = refl
  consume_all-append p (x ∷ xs) ys =
      after (consume can_reserve p x) refl (λ q. consume_all-append q xs ys)
    where
      after :
          (o : Outcome)
          → consume can_reserve p x ≡ o
          → ((q : HttpSim)
              → consume_all can_reserve q (xs ++ ys) ≡ and_then (consume_all can_reserve q xs) ys)
          → consume_all can_reserve p ((x ∷ xs) ++ ys)
            ≡ and_then (consume_all can_reserve p (x ∷ xs)) ys
      after (goes q) e ih = rw (e, consume_all) (ih q)
      after (raises q) e ih = rw (e, consume_all)

  abbrev resume : HttpSim × Option Bool → (HttpSim → HttpSim × Option Bool) → HttpSim × Option Bool
  resume (q, none) k = (q, none)
  resume (q, some _) k = k q

  -- Calls of `parse_chunk` on one chunk after the other, until one throws: the parser, and what the
  -- last call returned.
  unfoldable pub parse_chunks : HttpSim → Bytes → List Bytes → HttpSim × Option Bool
  parse_chunks p c [] = parse_chunk can_reserve p c
  parse_chunks p c (d ∷ ds) = resume (parse_chunk can_reserve p c) (λ q. parse_chunks q d ds)

  chunk_goes :
      (p q : HttpSim) (c : Bytes)
      → consume_all can_reserve p c ≡ goes q
      → parse_chunk can_reserve p c ≡ (q, some (is_complete q.state))
  unfolding parse_chunk
  chunk_goes p q c e = rw (e, parse_chunk)

  chunk_raises :
      (p q : HttpSim) (c : Bytes)
      → consume_all can_reserve p c ≡ raises q
      → parse_chunk can_reserve p c ≡ (q, none)
  unfolding parse_chunk
  chunk_raises p q c e = rw (e, parse_chunk)

  join_goes :
      (p q : HttpSim) (c rest : Bytes)
      → consume_all can_reserve p c ≡ goes q
      → parse_chunk can_reserve p (c ++ rest) ≡ parse_chunk can_reserve q rest
  unfolding parse_chunk
  join_goes p q c rest e = rw (consume_all-append p c rest, parse_chunk) (rw (e, parse_chunk))

  -- However a stream is cut into chunks, the calls leave the parser that one call on the whole
  -- stream leaves, and the last returns what that call returns, an exception included.
  pub parse_chunks-join :
      (p : HttpSim) (c : Bytes) (cs : List Bytes)
      → parse_chunks p c cs ≡ parse_chunk can_reserve p (join c cs)
  unfolding parse_chunks
  parse_chunks-join p c [] = refl
  parse_chunks-join p c (d ∷ ds) =
      after (consume_all can_reserve p c) refl (λ q. parse_chunks-join q d ds)
    where
      after :
          (o : Outcome)
          → consume_all can_reserve p c ≡ o
          → ((q : HttpSim) → parse_chunks q d ds ≡ parse_chunk can_reserve q (join d ds))
          → parse_chunks p c (d ∷ ds) ≡ parse_chunk can_reserve p (c ++ join d ds)
      after (goes q) e ih =
          ap (λ r. resume r (λ u. parse_chunks u d ds)) (chunk_goes p q c e)
          ∙ ih q
          ∙ sym (join_goes p q c (join d ds) e)
      after (raises q) e ih =
          ap (λ r. resume r (λ u. parse_chunks u d ds)) (chunk_raises p q c e)
          ∙ sym (
              chunk_raises p q (c ++ join d ds)
                (consume_all-append p c (join d ds) ∙ ap (λ o. and_then o (join d ds)) e))

-- ===== src/Http/Tests.antt =====
-- Runs of the request parser (core-engine/src/protocols/http_sim.cpp) on concrete inputs.
use network_simulator_platfo.Common.{
  ℕ, ◌≡◌, refl, true, Bool, some, none, [], ◌∷◌, ◌++◌, arith, leb,
}
use network_simulator_platfo.Common.Words.{Bytes}
use network_simulator_platfo.Http.{
  HttpState, reset, parse_chunk, content_length_key, consume_all, consume, dispatch, store_header,
}
use network_simulator_platfo.Http.Number.{
  stoul, skip_spaces, signed, unsigned, negated, in_range, read_digits, starts_with_digit,
}
use network_simulator_platfo.Http.Chunks.{join, parse_chunks, parse_chunks-join}
use network_simulator_platfo.Http.Bounds.{IsValid, reset-IsValid, parse_chunk-IsValid}
use network_simulator_platfo.Http.Print.{Message, IsPrintable, print, request_of}
use network_simulator_platfo.Http.Print.RoundTrip.{parse_chunks-print}

-- A vector can be as long as `max_size`.
abbrev fits : ℕ → Bool
fits n = leb n 9223372036854775807

-- "A /b V", with the header "Content-Length: 2" and the body "hi"
abbrev small_request : Message
small_request = record {
  method = 65 ∷ [];
  uri = 47 ∷ 98 ∷ [];
  version = 86 ∷ [];
  headers = (content_length_key, 50 ∷ []) ∷ [];
  body = 104 ∷ 105 ∷ [];
}

small_request-IsPrintable : IsPrintable small_request
unfolding stoul skip_spaces signed unsigned negated in_range read_digits starts_with_digit
small_request-IsPrintable = record {
  method = ground arith;
  uri = ground arith;
  version = ground arith;
  keys = ground arith;
  values = ground arith;
  sized = refl;
}

-- A request in two chunks, with more bytes behind it.
abbrev halves : Bytes × Bytes
halves = (
  65 ∷ 32 ∷ 47 ∷ [],
  98
      ∷ 32
      ∷ 86
      ∷ 13
      ∷ 10
      ∷ (content_length_key ++ 58 ∷ 32 ∷ 50 ∷ 13 ∷ 10 ∷ 13 ∷ 10 ∷ 104 ∷ 105 ∷ 88 ∷ []),
)

halves_join : join halves.0 (halves.1 ∷ []) ≡ print small_request (88 ∷ [])
unfolding print
halves_join = refl

parse_chunks-print_example :
    let (p, returned) = parse_chunks fits reset halves.0 (halves.1 ∷ []) in
    (p.request ≡ request_of small_request) × (p.state ≡ HttpState.complete) × (returned ≡ some true)
parse_chunks-print_example =
    parse_chunks-print fits small_request (88 ∷ []) halves.0 (halves.1 ∷ [])
      small_request-IsPrintable (omega arith) refl halves_join

parse_chunks-join_example :
    parse_chunks fits reset halves.0 (halves.1 ∷ [])
    ≡ parse_chunk fits reset (join halves.0 (halves.1 ∷ []))
parse_chunks-join_example = parse_chunks-join fits reset halves.0 (halves.1 ∷ [])

parse_chunk-IsValid_example : IsValid (parse_chunk fits reset halves.0).0
parse_chunk-IsValid_example = parse_chunk-IsValid fits reset halves.0 reset-IsValid

abbrev minus_one : Bytes
minus_one =
    65
    ∷ 32
    ∷ 47
    ∷ 32
    ∷ 86
    ∷ 13
    ∷ 10
    ∷ (content_length_key ++ 58 ∷ 32 ∷ 45 ∷ 49 ∷ 13 ∷ 10 ∷ 13 ∷ 10 ∷ [])

-- A Content-Length of -1 is taken for 2 ^ 64 - 1, and an exception leaves `parse_chunk`.
raises_at_minus_one : (parse_chunk fits reset minus_one).1 ≡ none
unfolding parse_chunk consume_all consume dispatch store_header reset stoul skip_spaces signed
    unsigned negated in_range read_digits starts_with_digit
raises_at_minus_one = refl

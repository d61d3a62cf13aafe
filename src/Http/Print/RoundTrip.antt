-- ===== src/Http/Print/RoundTrip.antt =====
-- A printed request is read back by `parse_chunk` (core-engine/src/protocols/http_sim.cpp).
use network_simulator_platfo.Common.{
  ℕ, ◌^◌, ◌<◌, ◌≡◌, refl, ◌∙◌, Bool, true, some, List, [], ◌++◌, length,
}
use network_simulator_platfo.Common.Words.{Bytes}
use network_simulator_platfo.Common.Map.{bytes_key}
use network_simulator_platfo.Http.Chunks.{join, parse_chunks, parse_chunks-join}
use network_simulator_platfo.Http.{HttpState, HttpRequest, goes, reset, consume_all, parse_chunk}
use network_simulator_platfo.Http.Print.{Message, print, collect, IsPrintable, at, request_of}
use network_simulator_platfo.Http.Print.RequestLine.{method_part, uri_part, version_part}
use network_simulator_platfo.Http.Print.Headers.{headers_part}
use network_simulator_platfo.Http.Print.Body.{rest_part}

pub parse-print :
    (can_reserve : ℕ → Bool) (m : Message) (rest : Bytes)
    → IsPrintable m
    → length m.body < 2 ^ 64
    → can_reserve (length m.body) ≡ true
    → consume_all can_reserve reset (print m rest)
      ≡ goes (at HttpState.complete (request_of m) [] [] (length m.body) (length m.body))
unfolding print reset
parse-print can_reserve m rest w small room =
    let r₀ : HttpRequest = record {
      method = [];
      uri = [];
      version = [];
      headers = [];
      body = [];
    } in
    let r₁ = record r₀ { method = m.method } in
    let r₂ = record r₁ { uri = m.uri } in
    let r₃ = record r₂ { version = m.version } in
    method_part can_reserve 0 0 r₀ m.method _ w.method
    ∙ uri_part can_reserve 0 0 r₁ m.uri _ w.uri
    ∙ version_part can_reserve 0 0 r₂ m.version _ w.version
    ∙ headers_part can_reserve r₃ m.headers (m.body ++ rest) 0 (length m.body) w.keys w.values
        w.sized
    ∙ rest_part can_reserve (record r₃ { headers = collect [] m.headers }) m.body rest refl small
        room

-- A printed request, cut into chunks in any way and followed by anything, leaves a new parser with
-- that request, and the last call of `parse_chunk` returns true; what follows the request in the
-- stream is passed over. No part of the request holds the byte that ends it, no value of a header
-- begins with a space, the body is as long as the headers say and below 2 ^ 64 bytes, and there is
-- memory for it.
pub parse_chunks-print :
    (can_reserve : ℕ → Bool) (m : Message) (rest c : Bytes) (cs : List Bytes)
    → IsPrintable m
    → length m.body < 2 ^ 64
    → can_reserve (length m.body) ≡ true
    → join c cs ≡ print m rest
    → let (p, returned) = parse_chunks can_reserve reset c cs in
      (p.request ≡ request_of m) × (p.state ≡ HttpState.complete) × (returned ≡ some true)
unfolding parse_chunk
parse_chunks-print can_reserve m rest c cs w small room e =
    rw (parse_chunks-join can_reserve reset c cs, e, parse_chunk)
      (rw (parse-print can_reserve m rest w small room, parse_chunk) (refl, refl, refl))

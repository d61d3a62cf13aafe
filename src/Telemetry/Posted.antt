-- ===== src/Telemetry/Posted.antt =====
-- The HTTP parser of the simulator (core-engine/src/protocols/http_sim.cpp) reads back the request of the
-- telemetry client (core-engine/src/system/telemetry_http_client.cpp).
use network_simulator_platfo.Common.{
  ℕ, ◌^◌, ◌<◌, ◌≡◌, ◌≢◌, refl, ◌∙◌, sym, ap, Bool, true, false, some, List, [], ◌∷◌, ◌++◌,
  append_assoc, append-nil, arith, length, All, All-append,
}
use network_simulator_platfo.Common.Words.{Bytes}
use network_simulator_platfo.Common.Map.{find, assign, bytes_key}
use network_simulator_platfo.Common.Decimal.{to_decimal}
use network_simulator_platfo.Http.{HttpState, reset}
use network_simulator_platfo.Http.Number.{is_digit}
use network_simulator_platfo.Http.Decimal.{stoul-to_decimal, to_decimal-All}
use network_simulator_platfo.Http.Chunks.{join, parse_chunks}
use network_simulator_platfo.Http.Print.{Message, print, IsPrintable, starts_with_space, lengths}
use network_simulator_platfo.Http.Print.RoundTrip.{parse_chunks-print}
use network_simulator_platfo.Telemetry.{TelemetryEndpoint}
use network_simulator_platfo.Telemetry.Request

-- The host and the port have no carriage return, the two as one value do not begin with a space, and the
-- path has no space.
pub record IsPlain (endpoint : TelemetryEndpoint) : Type 0 where
  pub host : All (λ c. c ≢ 13) endpoint.host
  pub no_space : starts_with_space (endpoint.host ++ 58 ∷ endpoint.port) ≡ false
  pub port : All (λ c. c ≢ 13) endpoint.port
  pub path : All (λ c. c ≢ 32) endpoint.path

-- The request as a message with its headers.
abbrev message : TelemetryEndpoint → Bytes → Message
message endpoint body = record {
  method = 80 ∷ 79 ∷ 83 ∷ 84 ∷ [];
  uri = endpoint.path;
  version = Request.version;
  headers =
      (Request.host_key, endpoint.host ++ 58 ∷ endpoint.port)
      ∷ (Request.type_key, Request.json_type)
      ∷ (Request.size_key, to_decimal (length body))
      ∷ (Request.connection_key, Request.close)
      ∷ [];
  body = body;
}

print-message :
    (endpoint : TelemetryEndpoint) (body : Bytes)
    → print (message endpoint body) [] ≡ Request.request endpoint body
unfolding print Request.request
print-message endpoint body =
    rw (append-nil body, append_assoc endpoint.host (58 ∷ endpoint.port)) refl

digits_plain :
    (cs : Bytes)
    → All (λ c. is_digit c ≡ true) cs
    → All (λ c. c ≢ 13) cs × (starts_with_space cs ≡ false)
digits_plain [] a = (tt, refl)
digits_plain (c ∷ cs) a = ((λ e. ground (arith, a.0), (digits_plain cs a.1).0), ground (arith, a.0))

message-IsPrintable :
    (endpoint : TelemetryEndpoint) (body : Bytes)
    → IsPlain endpoint
    → length body < 2 ^ 64
    → IsPrintable (message endpoint body)
message-IsPrintable endpoint body w small = record {
  method = ground arith;
  uri = w.path;
  version = ground arith;
  keys = (ground arith, (ground arith, (ground arith, (ground arith, tt))));
  values = (
    (
      All-append _ endpoint.host (58 ∷ endpoint.port) w.host ((λ e. omega (arith, e)), w.port),
      w.no_space,
    ),
    (
      (ground arith, refl),
      (
        digits_plain (to_decimal (length body)) (to_decimal-All (length body)),
        ((ground arith, refl), tt),
      ),
    ),
  );
  sized =
      ap (λ o. lengths o ((Request.connection_key, Request.close) ∷ []))
        (stoul-to_decimal (length body) small);
}

-- Where the host and the port of an endpoint have no carriage return, the host, a colon and the port do
-- not begin with a space, the path has no space, and the body is below 2 ^ 64 bytes and there is memory
-- for it: the client's request, cut into chunks in any way, leaves a new parser of `HttpSim` complete with
-- the method, the path, the version, the host and the body as they were sent; the last call of
-- `parse_chunk` returns true.
pub parse_chunks-request :
    (can_reserve : ℕ → Bool) (endpoint : TelemetryEndpoint) (body c : Bytes) (cs : List Bytes)
    → IsPlain endpoint
    → length body < 2 ^ 64
    → can_reserve (length body) ≡ true
    → join c cs ≡ Request.request endpoint body
    → let (p, returned) = parse_chunks can_reserve reset c cs in
      (p.request.method ≡ 80 ∷ 79 ∷ 83 ∷ 84 ∷ [])
      × (p.request.uri ≡ endpoint.path)
      × (p.request.version ≡ Request.version)
      × (p.request.body ≡ body)
      × (find Request.host_key p.request.headers ≡ some (endpoint.host ++ 58 ∷ endpoint.port))
      × (p.state ≡ HttpState.complete)
      × (returned ≡ some true)
unfolding find assign
parse_chunks-request can_reserve endpoint body c cs w small room e =
    let (same, done, returned) =
      parse_chunks-print can_reserve (message endpoint body) [] c cs
        (message-IsPrintable endpoint body w small) small room
        (e ∙ sym (print-message endpoint body)) in
    (
      ap (λ r. r.method) same,
      ap (λ r. r.uri) same,
      ap (λ r. r.version) same,
      ap (λ r. r.body) same,
      ap (λ r. find Request.host_key r.headers) same,
      done,
      returned,
    )

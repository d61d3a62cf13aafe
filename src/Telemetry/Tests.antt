-- ===== src/Telemetry/Tests.antt =====
-- Runs of the telemetry client's texts (core-engine/src/system/telemetry_http_client.cpp) on concrete
-- inputs.
use network_simulator_platfo.Common.{◌≡◌, refl, some, none, [], ◌∷◌, ◌++◌, arith}
use network_simulator_platfo.Common.Words.{Bytes}
use network_simulator_platfo.Telemetry.{
  TelemetryEndpoint, scheme, slash, quote, parse_endpoint, strip_prefix, escape_json,
}
use network_simulator_platfo.Telemetry.Endpoint.{authority, parse_endpoint-parts}
use network_simulator_platfo.Telemetry.Escapes.{read_string, read_string-escape_json}
use Prim.Native.Nat.{min}
use network_simulator_platfo.Common.{ℕ, Bool, true, false, length, take, drop}
use network_simulator_platfo.Common.Map.{find, bytes_key}
use network_simulator_platfo.Common.Decimal.{to_decimal}
use network_simulator_platfo.Http.{HttpState, reset}
use network_simulator_platfo.Http.Chunks.{parse_chunks}
use network_simulator_platfo.Http.Number.{skip_spaces, read_digits, starts_with_digit}
use network_simulator_platfo.Telemetry.{split_first, escape_char}
use network_simulator_platfo.Telemetry.Request.{
  TelemetrySample, request, to_json, version, host_key,
}
use network_simulator_platfo.Telemetry.Posted.{IsPlain, parse_chunks-request}
use network_simulator_platfo.Telemetry.Post.{
  Os, Trace, post_sample, post_to, connect_first, send_all, answer, status_is_success, stoi_sign,
  stoi_amount,
}
use network_simulator_platfo.Telemetry.Post.Sending.{IsSend}
use network_simulator_platfo.Telemetry.Post.Sockets.{IsPosted, post_sample-IsPosted}

-- "ai:8000"
abbrev service : TelemetryEndpoint
service = record { host = 97 ∷ 105 ∷ []; port = 56 ∷ 48 ∷ 48 ∷ 48 ∷ []; path = [] }

parse_endpoint-parts_example :
    (parse_endpoint (scheme ++ (authority service ++ slash ∷ 112 ∷ []))
      ≡ some (record service { path = slash ∷ 112 ∷ [] }))
    × (parse_endpoint (scheme ++ authority service) ≡ some (record service { path = slash ∷ [] }))
parse_endpoint-parts_example = parse_endpoint-parts service (112 ∷ []) (ground arith) (ground arith)

https_refused : parse_endpoint (104 ∷ 116 ∷ 116 ∷ 112 ∷ 115 ∷ []) ≡ none
unfolding parse_endpoint strip_prefix
https_refused = refl

-- A letter, a quote, a line feed and a backslash.
abbrev odd_text : Bytes
odd_text = 97 ∷ quote ∷ 10 ∷ 92 ∷ []

read_string-escape_json_example :
    read_string (escape_json odd_text ++ quote ∷ 44 ∷ []) ≡ some (odd_text, 44 ∷ [])
read_string-escape_json_example = read_string-escape_json odd_text (44 ∷ []) (ground arith)

-- The service's endpoint with a path.
abbrev stream : TelemetryEndpoint
stream = record service { path = slash ∷ 115 ∷ [] }

stream-IsPlain : IsPlain stream
stream-IsPlain = record {
  host = ground arith;
  no_space = refl;
  port = ground arith;
  path = ground arith;
}

-- The request for a body of two bytes, in two chunks.
abbrev half_seen : Bytes
half_seen = take 20 (request stream (123 ∷ 125 ∷ []))

abbrev half_unseen : Bytes
half_unseen = drop 20 (request stream (123 ∷ 125 ∷ []))

parse_chunks-request_example :
    let (p, returned) = parse_chunks (λ n. true) reset half_seen (half_unseen ∷ []) in
    (p.request.method ≡ 80 ∷ 79 ∷ 83 ∷ 84 ∷ [])
    × (p.request.uri ≡ slash ∷ 115 ∷ [])
    × (p.request.version ≡ version)
    × (p.request.body ≡ 123 ∷ 125 ∷ [])
    × (find host_key p.request.headers ≡ some (97 ∷ 105 ∷ 58 ∷ 56 ∷ 48 ∷ 48 ∷ 48 ∷ []))
    × (p.state ≡ HttpState.complete)
    × (returned ≡ some true)
unfolding request to_decimal
parse_chunks-request_example =
    parse_chunks-request (λ n. true) stream (123 ∷ 125 ∷ []) half_seen (half_unseen ∷ [])
      stream-IsPlain (omega arith) refl refl

-- A system with one address that is reached, which sends five bytes at a time and answers
-- "HTTP/1.1 200 OK".
abbrev os : Os ℕ
os = record {
  getaddrinfo = λ t host port. some (1 ∷ []);
  socket = λ t address. some 7;
  connect = λ t fd address. true;
  send = λ t fd bytes. some (min 5 (length bytes));
  recv =
      λ t fd. some (72 ∷ 84 ∷ 84 ∷ 80 ∷ 47 ∷ 49 ∷ 46 ∷ 49 ∷ 32 ∷ 50 ∷ 48 ∷ 48 ∷ 32 ∷ 79 ∷ 75 ∷ []);
}

os-IsSend : IsSend os
os-IsSend t fd n bytes e = let same : min 5 (length bytes) ≡ n = cc in omega (arith, same)

-- A double is written as nothing here.
abbrev sample : TelemetrySample ℕ
sample = record {
  timestamp_us = 17;
  source_node = 65 ∷ [];
  dest_node = 66 ∷ [];
  packet_size = 100;
  latency_ns = 125;
  dropped_packets = 0;
  throughput_kbps = 1320;
}

post_sample-IsPosted_example :
    (posted : Bool) × (t : Trace) × (post_sample os to_decimal stream sample ≡ some (posted, t))
    × IsPosted os (request stream (to_json to_decimal sample)) posted t
unfolding request to_json escape_json escape_char to_decimal
post_sample-IsPosted_example =
    post_sample-IsPosted os to_decimal stream sample os-IsSend (omega arith)

post_sample-true : (t : Trace) × (post_sample os to_decimal stream sample ≡ some (true, t))
unfolding post_sample post_to connect_first send_all answer status_is_success stoi_sign stoi_amount
    skip_spaces read_digits starts_with_digit split_first request to_json escape_json escape_char
    to_decimal
post_sample-true = (_, refl)

status_refused :
    status_is_success (
      72 ∷ 84 ∷ 84 ∷ 80 ∷ 47 ∷ 49 ∷ 46 ∷ 49 ∷ 32 ∷ 52 ∷ 48 ∷ 52 ∷ 32 ∷ 78 ∷ 111 ∷ 116 ∷ 32 ∷ 70
      ∷ 111 ∷ 117 ∷ 110 ∷ 100 ∷ [])
    ≡ some false
unfolding status_is_success stoi_sign stoi_amount skip_spaces read_digits starts_with_digit
    split_first
status_refused = refl

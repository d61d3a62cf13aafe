-- ===== src/Http/Print.antt =====
-- The requests that `parse_chunk` (core-engine/src/protocols/http_sim.cpp) reads back: a printer of
-- requests; the children run the parser on each part of what it prints.
pub mod RequestLine
pub mod Headers
pub mod Body
pub mod RoundTrip
use network_simulator_platfo.Common.{
  ℕ, zero, suc, ◌+◌, ◌%◌, ◌^◌, ◌≤◌, ◌<◌, ◌≡◌, ◌≢◌, refl, ◌∙◌, sym, ap, subst, Bool, true, false,
  ◌&&◌, Option, none, some, List, [], ◌∷◌, ◌++◌, append_assoc, append-nil, arith, All, length,
  length-append, if◌then◌else◌, Option-cases, inl, inr,
}
use network_simulator_platfo.Common.Words.{Bytes, add64}
use network_simulator_platfo.Common.Map.{Map, assign, bytes_eq, bytes_key}
use network_simulator_platfo.Http.Number.{stoul}
use network_simulator_platfo.Http.Chunks.{join, parse_chunks, parse_chunks-join, consume_all-append}
use network_simulator_platfo.Http.{
  HttpState, HttpSim, HttpRequest, Outcome, goes, raises, reset, consume, consume_all, dispatch,
  parse_chunk, store_header, space, cr, lf, colon, content_length_key, push_char,
}

abbrev pub Header : Type 0
Header = Bytes × Bytes

-- A request as its sender writes it, with the headers in order.
pub record Message : Type 0 where
  pub method : Bytes
  pub uri : Bytes
  pub version : Bytes
  pub headers : List Header
  pub body : Bytes

-- "key: value\r\n"
abbrev pub print_header : Header → Bytes → Bytes
print_header (key, value) rest = key ++ colon ∷ space ∷ (value ++ cr ∷ lf ∷ rest)

abbrev pub print_headers : List Header → Bytes → Bytes
print_headers [] rest = cr ∷ lf ∷ rest
print_headers (h ∷ hs) rest = print_header h (print_headers hs rest)

-- The text of a request, with what follows it in the stream.
unfoldable pub print : Message → Bytes → Bytes
print m rest =
    m.method
    ++ space ∷ (m.uri ++ space ∷ (m.version ++ cr ∷ lf ∷ print_headers m.headers (m.body ++ rest)))

-- The header map that a series of header lines fills.
abbrev pub collect : Map Bytes Bytes → List Header → Map Bytes Bytes
collect acc [] = acc
collect acc ((key, value) ∷ hs) = collect (assign key value acc) hs

-- The Content-Length that a series of header lines sets; `none` if one of them is no number.
abbrev pub length_after : ℕ → Header → Option ℕ
length_after n (key, value) = if bytes_eq key content_length_key then stoul value else some n

abbrev pub lengths : Option ℕ → List Header → Option ℕ
lengths none hs = none
lengths (some n) [] = some n
lengths (some n) (h ∷ hs) = lengths (length_after n h) hs

abbrev pub starts_with_space : Bytes → Bool
starts_with_space [] = false
starts_with_space (c ∷ cs) = bytes_eq (c ∷ []) (space ∷ [])

-- No part holds the byte that ends it, and the body is as long as the headers say.
pub record IsPrintable (m : Message) : Type 0 where
  pub method : All (λ c. c ≢ space) m.method
  pub uri : All (λ c. c ≢ space) m.uri
  pub version : All (λ c. (c ≢ cr) × (c ≢ lf)) m.version
  pub keys : All (λ (h : Header). All (λ c. (c ≢ cr) × (c ≢ colon)) h.0) m.headers
  pub values :
      All (λ (h : Header). All (λ c. c ≢ cr) h.1 × (starts_with_space h.1 ≡ false)) m.headers
  pub sized : lengths (some 0) m.headers ≡ some (length m.body)

-- A parser in the middle of a request.
abbrev pub at : HttpState → HttpRequest → Bytes → Bytes → ℕ → ℕ → HttpSim
at st r token key n read = record {
  state = st;
  request = r;
  current_token = token;
  current_key = key;
  content_length = n;
  body_bytes_read = read;
}

pub consume_next :
    (can_reserve : ℕ → Bool) (p q : HttpSim) (c : ℕ) (cs : Bytes)
    → consume can_reserve p c ≡ goes q
    → consume_all can_reserve p (c ∷ cs) ≡ consume_all can_reserve q cs
unfolding consume_all
consume_next can_reserve p q c cs e = rw (e, consume_all)

-- The request that a message stands for.
abbrev pub request_of : Message → HttpRequest
request_of m = record {
  method = m.method;
  uri = m.uri;
  version = m.version;
  headers = collect [] m.headers;
  body = m.body;
}

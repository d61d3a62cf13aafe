-- ===== src/Http.antt =====
-- The streaming request parser: core-engine/include/protocols/http_sim.hpp and
-- core-engine/src/protocols/http_sim.cpp. A `char` and a byte are the same number. Whether
-- `body.reserve(n)` finds n bytes of memory is a parameter.
pub mod Number
pub mod Decimal
pub mod Chunks
pub mod Bounds
pub mod Print
mod Tests
use network_simulator_platfo.Common.{
  ℕ, ◌+◌, Bool, true, false, ◌&&◌, Option, none, some, List, [], ◌∷◌, ◌++◌, ltb, leb, ◌==◌,
  if◌then◌else◌,
}
use network_simulator_platfo.Common.Words.{Bytes, add64}
use network_simulator_platfo.Common.Map.{Map, assign, bytes_eq, bytes_key}
use Number.{stoul}

pub data HttpState : Type 0 where
  method uri version header_key header_value expect_value_lf expect_body_lf body complete error :
      HttpState

pub record HttpRequest : Type 0 where
  pub method : Bytes
  pub uri : Bytes
  pub version : Bytes
  pub headers : Map Bytes Bytes
  pub body : Bytes

pub record HttpSim : Type 0 where
  pub state : HttpState
  pub request : HttpRequest
  pub current_token : Bytes
  pub current_key : Bytes
  pub content_length : ℕ
  pub body_bytes_read : ℕ

abbrev pub empty_request : HttpRequest
empty_request = record { method = []; uri = []; version = []; headers = []; body = [] }

-- `HttpSim()` and `reset`, which leave no trace of what was before.
unfoldable pub reset : HttpSim
reset = record {
  state = HttpState.method;
  request = empty_request;
  current_token = [];
  current_key = [];
  content_length = 0;
  body_bytes_read = 0;
}

-- "Content-Length"
abbrev pub content_length_key : Bytes
content_length_key =
    67 ∷ 111 ∷ 110 ∷ 116 ∷ 101 ∷ 110 ∷ 116 ∷ 45 ∷ 76 ∷ 101 ∷ 110 ∷ 103 ∷ 116 ∷ 104 ∷ []

abbrev pub space : ℕ
space = 32

abbrev pub cr : ℕ
cr = 13

abbrev pub lf : ℕ
lf = 10

abbrev pub colon : ℕ
colon = 58

-- What the loop does with one byte, or the whole of `parse_chunk`: it goes on, or an exception
-- leaves it.
pub data Outcome : Type 0 where
  goes : HttpSim → Outcome
  raises : HttpSim → Outcome

-- `current_token_ += ch`
abbrev pub push_char : HttpSim → ℕ → HttpSim
push_char p ch = record p { current_token = p.current_token ++ ch ∷ [] }

-- The end of a header line, where the value is complete.
unfoldable pub store_header : HttpSim → HttpSim
store_header p =
    let stored = record p {
      request = record request { headers = assign p.current_key p.current_token request.headers };
    } in
    let next = λ (n : ℕ). record stored {
      content_length = n;
      current_token = [];
      current_key = [];
      state = HttpState.header_key;
    } in
    if bytes_eq p.current_key content_length_key
    then elim (stoul p.current_token) [
      | none ↦ record stored { state = HttpState.error }
      | some n ↦ next n
    ]
    else next p.content_length
  where
    open p use {request}

abbrev pub is_complete : HttpState → Bool
is_complete HttpState.complete = true
is_complete _ = false

module _ (can_reserve : ℕ → Bool) where
  -- One round of the loop of `parse_chunk`, in a given state.
  unfoldable pub dispatch : HttpState → HttpSim → ℕ → Outcome
  dispatch HttpState.method p ch =
      if ch == space
      then goes (record p {
        request = record (p.request) { method = p.current_token };
        current_token = [];
        state = HttpState.uri;
      })
      else goes (push_char p ch)
  dispatch HttpState.uri p ch =
      if ch == space
      then goes (record p {
        request = record (p.request) { uri = p.current_token };
        current_token = [];
        state = HttpState.version;
      })
      else goes (push_char p ch)
  dispatch HttpState.version p ch =
      if ch == cr
      then goes p
      else if ch == lf
      then goes (record p {
        request = record (p.request) { version = p.current_token };
        current_token = [];
        state = HttpState.header_key;
      })
      else goes (push_char p ch)
  dispatch HttpState.header_key p ch =
      if ch == cr
      then goes (record p { current_token = []; state = HttpState.expect_body_lf })
      else if ch == colon
      then goes (record p {
        current_key = p.current_token;
        current_token = [];
        state = HttpState.header_value;
      })
      else goes (push_char p ch)
  dispatch HttpState.header_value p ch =
      if ch == space && bytes_eq p.current_token []
      then goes p
      else if ch == cr
      then goes (record p { state = HttpState.expect_value_lf })
      else goes (push_char p ch)
  dispatch HttpState.expect_value_lf p ch =
      if ch == lf then goes (store_header p) else goes (record p { state = HttpState.error })
  dispatch HttpState.expect_body_lf p ch =
      if ch == lf
      then if ltb 0 p.content_length
        then if can_reserve p.content_length
          then goes (record p { state = HttpState.body })
          else raises p
        else goes (record p { state = HttpState.complete })
      else goes (record p { state = HttpState.error })
  dispatch HttpState.body p ch =
      let read = add64 p.body_bytes_read 1 in
      let pushed = record p {
        request = record (p.request) { body = p.request.body ++ ch ∷ [] };
        body_bytes_read = read;
      } in
      if leb p.content_length read
      then goes (record pushed { state = HttpState.complete })
      else goes pushed
  dispatch HttpState.complete p ch = goes p
  dispatch HttpState.error p ch = goes p

  unfoldable pub consume : HttpSim → ℕ → Outcome
  consume p ch = dispatch p.state p ch

  -- The loop of `parse_chunk`.
  unfoldable pub consume_all : HttpSim → Bytes → Outcome
  consume_all p [] = goes p
  consume_all p (ch ∷ chunk) = elim (consume p ch) [
    | goes q ↦ consume_all q chunk
    | raises q ↦ raises q
  ]

  -- `parse_chunk`: the parser behind it, and whether the request is complete; `none` for the
  -- latter where an exception leaves it.
  unfoldable pub parse_chunk : HttpSim → Bytes → HttpSim × Option Bool
  parse_chunk p chunk = elim (consume_all p chunk) [
    | goes q ↦ (q, some (is_complete q.state))
    | raises q ↦ (q, none)
  ]

-- ===== src/Telemetry.antt =====
-- The telemetry client: core-engine/include/system/telemetry_http_client.hpp and
-- core-engine/src/system/telemetry_http_client.cpp. The URL of its endpoint and the escapes of its texts;
-- `Request` has what it sends, and `Post` the calls it makes.
pub mod Endpoint
pub mod Escapes
pub mod Request
pub mod Posted
pub mod Post
mod Tests
use network_simulator_platfo.Common.{
  ℕ, Bool, true, false, Option, none, some, List, [], ◌∷◌, ◌++◌, ◌==◌, if◌then◌else◌,
}
use network_simulator_platfo.Common.Words.{Bytes}

pub record TelemetryEndpoint : Type 0 where
  pub host : Bytes
  pub port : Bytes
  pub path : Bytes

-- "http://"
abbrev pub scheme : Bytes
scheme = 104 ∷ 116 ∷ 116 ∷ 112 ∷ 58 ∷ 47 ∷ 47 ∷ []

abbrev pub slash : ℕ
slash = 47

abbrev pub colon : ℕ
colon = 58

-- What follows a prefix; `none` where the text does not begin with it.
unfoldable pub strip_prefix : Bytes → Bytes → Option Bytes
strip_prefix [] text = some text
strip_prefix (p ∷ ps) [] = none
strip_prefix (p ∷ ps) (c ∷ cs) = if p == c then strip_prefix ps cs else none

-- `find(mark)`: what stands in front of the first such byte, and the rest from it on.
unfoldable pub split_first : ℕ → Bytes → Bytes × Bytes
split_first mark [] = ([], [])
split_first mark (c ∷ cs) =
    let (front, back) = split_first mark cs in if c == mark then ([], c ∷ cs) else (c ∷ front, back)

-- `rfind(mark)`: what stands in front of the last such byte, and what stands behind it.
unfoldable pub split_last : ℕ → Bytes → Option (Bytes × Bytes)
split_last mark [] = none
split_last mark (c ∷ cs) = elim (split_last mark cs) [
  | some (front, back) ↦ some (c ∷ front, back)
  | none ↦ if c == mark then some ([], cs) else none
]

-- `path_pos == npos ? "/" : substr(path_pos)`
abbrev pub path_or_root : Bytes → Bytes
path_or_root [] = slash ∷ []
path_or_root (c ∷ cs) = c ∷ cs

-- "80"
abbrev pub default_port : Bytes
default_port = 56 ∷ 48 ∷ []

-- The host and the port, and the endpoint with them.
unfoldable pub split_port : Bytes → Bytes → TelemetryEndpoint
split_port host_port path = elim (split_last colon host_port) [
  | none ↦ record { host = host_port; port = default_port; path = path_or_root path }
  | some (host, port) ↦ record { host = host; port = port; path = path_or_root path }
]

-- `parse_endpoint`; `none` is the exception.
unfoldable pub parse_endpoint : Bytes → Option TelemetryEndpoint
parse_endpoint url = elim (strip_prefix scheme url) [
  | none ↦ none
  | some without_scheme ↦
      let (host_port, path) = split_first slash without_scheme in some (split_port host_port path)
]

abbrev pub backslash : ℕ
backslash = 92

abbrev pub quote : ℕ
quote = 34

-- What `escape_json` writes for one character.
unfoldable pub escape_char : ℕ → Bytes
escape_char ch =
    if ch == backslash
    then backslash ∷ backslash ∷ []
    else if ch == quote
    then backslash ∷ quote ∷ []
    else if ch == 10
    then backslash ∷ b'n' ∷ []
    else if ch == 13
    then backslash ∷ b'r' ∷ []
    else if ch == 9
    then backslash ∷ b't' ∷ []
    else ch ∷ []

unfoldable pub escape_json : Bytes → Bytes
escape_json [] = []
escape_json (ch ∷ input) = escape_char ch ++ escape_json input

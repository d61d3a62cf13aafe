-- ===== src/Telemetry/Endpoint.antt =====
-- The URL of an endpoint is taken apart as it is put together
-- (core-engine/src/system/telemetry_http_client.cpp).
use network_simulator_platfo.Common.{
  ℕ, ◌≡◌, ◌≢◌, refl, ◌∙◌, ap, none, some, [], ◌∷◌, ◌++◌, arith, All,
}
use network_simulator_platfo.Common.Words.{Bytes}
use network_simulator_platfo.Telemetry.{
  TelemetryEndpoint, scheme, slash, colon, strip_prefix, split_first, split_last, path_or_root,
  split_port, parse_endpoint,
}

-- The URL without the path.
abbrev pub authority : TelemetryEndpoint → Bytes
authority e = e.host ++ colon ∷ e.port

strip_prefix-append : (ps cs : Bytes) → strip_prefix ps (ps ++ cs) ≡ some cs
unfolding strip_prefix
strip_prefix-append [] cs = refl
strip_prefix-append (p ∷ ps) cs = ground (arith, strip_prefix-append ps cs)

pub split_first-append :
    (mark : ℕ) (xs ys : Bytes)
    → All (λ c. c ≢ mark) xs
    → split_first mark (xs ++ mark ∷ ys) ≡ (xs, mark ∷ ys)
unfolding split_first
split_first-append mark [] ys a = ground arith
split_first-append mark (x ∷ xs) ys a = ground (arith, split_first-append mark xs ys a.1)

pub split_first-none :
    (mark : ℕ) (xs : Bytes) → All (λ c. c ≢ mark) xs → split_first mark xs ≡ (xs, [])
unfolding split_first
split_first-none mark [] a = refl
split_first-none mark (x ∷ xs) a = ground (arith, split_first-none mark xs a.1)

split_last-none : (mark : ℕ) (xs : Bytes) → All (λ c. c ≢ mark) xs → split_last mark xs ≡ none
unfolding split_last
split_last-none mark [] a = refl
split_last-none mark (x ∷ xs) a = rw (split_last-none mark xs a.1, split_last) (ground arith)

split_last-append :
    (mark : ℕ) (xs ys : Bytes)
    → All (λ c. c ≢ mark) ys
    → split_last mark (xs ++ mark ∷ ys) ≡ some (xs, ys)
unfolding split_last
split_last-append mark [] ys a = rw (split_last-none mark ys a, split_last) (ground arith)
split_last-append mark (x ∷ xs) ys a = rw (split_last-append mark xs ys a, split_last)

parse_endpoint-split :
    (text front back : Bytes)
    → split_first slash text ≡ (front, back)
    → parse_endpoint (scheme ++ text) ≡ some (split_port front back)
unfolding parse_endpoint
parse_endpoint-split text front back e =
    rw (strip_prefix-append scheme text, parse_endpoint)
      (ap (λ (u : Bytes × Bytes). some (split_port u.0 u.1)) e)

split_port-authority :
    (e : TelemetryEndpoint) (path : Bytes)
    → All (λ c. c ≢ colon) e.port
    → split_port (authority e) path ≡ record e { path = path_or_root path }
unfolding split_port
split_port-authority e path b = rw (split_last-append colon e.host e.port b, split_port)

-- A URL of a host, a port and a path that begins with a slash is parsed to the three, where no slash
-- stands in the first two and no colon in the port; without a path it is "/".
pub parse_endpoint-parts :
    (e : TelemetryEndpoint) (rest : Bytes)
    → All (λ c. c ≢ slash) (authority e)
    → All (λ c. c ≢ colon) e.port
    → (parse_endpoint (scheme ++ (authority e ++ slash ∷ rest))
        ≡ some (record e { path = slash ∷ rest }))
      × (parse_endpoint (scheme ++ authority e) ≡ some (record e { path = slash ∷ [] }))
parse_endpoint-parts e rest a b = (
  parse_endpoint-split (authority e ++ slash ∷ rest) (authority e) (slash ∷ rest)
        (split_first-append slash (authority e) rest a)
      ∙ ap some (split_port-authority e (slash ∷ rest) b),
  parse_endpoint-split (authority e) (authority e) [] (split_first-none slash (authority e) a)
      ∙ ap some (split_port-authority e [] b),
)

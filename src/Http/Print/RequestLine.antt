-- ===== src/Http/Print/RequestLine.antt =====
-- The parser (core-engine/src/protocols/http_sim.cpp) on the request line and on a header's key.
use network_simulator_platfo.Common.{
  ℕ, ◌≡◌, ◌≢◌, ◌∙◌, sym, ap, Bool, [], ◌∷◌, ◌++◌, append_assoc, append-nil, arith, All,
}
use network_simulator_platfo.Common.Words.{Bytes}
use network_simulator_platfo.Common.Map.{bytes_key}
use network_simulator_platfo.Http.{
  HttpState, HttpRequest, goes, consume, consume_all, dispatch, space, cr, lf, colon,
}
use network_simulator_platfo.Http.Print.{at}

module _ (can_reserve : ℕ → Bool) (n read : ℕ) where
  push_each :
      (st : HttpState) (P : ℕ → Type 0) (r : HttpRequest) (key token xs rest : Bytes)
      → ((t : Bytes) (c : ℕ)
          → P c
          → dispatch can_reserve st (at st r t key n read) c
            ≡ goes (at st r (t ++ c ∷ []) key n read))
      → All P xs
      → consume_all can_reserve (at st r token key n read) (xs ++ rest)
        ≡ consume_all can_reserve (at st r (token ++ xs) key n read) rest
  unfolding consume_all consume
  push_each st P r key token [] rest h a =
      ap (λ t. consume_all can_reserve (at st r t key n read) rest) (sym (append-nil token))
  push_each st P r key token (x ∷ xs) rest h a =
      rw (h token x a.0, consume_all, consume)
        (push_each st P r key (token ++ x ∷ []) xs rest h a.1
          ∙ ap (λ t. consume_all can_reserve (at st r t key n read) rest)
              (append_assoc token (x ∷ []) xs))

  pub method_part :
      (r : HttpRequest) (xs rest : Bytes)
      → All (λ c. c ≢ space) xs
      → consume_all can_reserve (at HttpState.method r [] [] n read) (xs ++ space ∷ rest)
        ≡ consume_all can_reserve (at HttpState.uri (record r { method = xs }) [] [] n read) rest
  unfolding consume_all consume dispatch
  method_part r xs rest a =
      push_each HttpState.method (λ c. c ≢ space) r [] [] xs (space ∷ rest) (λ t c h. ground arith)
        a

  pub uri_part :
      (r : HttpRequest) (xs rest : Bytes)
      → All (λ c. c ≢ space) xs
      → consume_all can_reserve (at HttpState.uri r [] [] n read) (xs ++ space ∷ rest)
        ≡ consume_all can_reserve (at HttpState.version (record r { uri = xs }) [] [] n read) rest
  unfolding consume_all consume dispatch
  uri_part r xs rest a =
      push_each HttpState.uri (λ c. c ≢ space) r [] [] xs (space ∷ rest) (λ t c h. ground arith) a

  pub version_part :
      (r : HttpRequest) (xs rest : Bytes)
      → All (λ c. (c ≢ cr) × (c ≢ lf)) xs
      → consume_all can_reserve (at HttpState.version r [] [] n read) (xs ++ cr ∷ lf ∷ rest)
        ≡ consume_all can_reserve
            (at HttpState.header_key (record r { version = xs }) [] [] n read)
            rest
  unfolding consume_all consume dispatch
  version_part r xs rest a =
      push_each HttpState.version (λ c. (c ≢ cr) × (c ≢ lf)) r [] [] xs (cr ∷ lf ∷ rest)
        (λ t c h. ground arith) a

  pub key_part :
      (r : HttpRequest) (xs rest : Bytes)
      → All (λ c. (c ≢ cr) × (c ≢ colon)) xs
      → consume_all can_reserve
          (at HttpState.header_key r [] [] n read)
          (xs ++ colon ∷ space ∷ rest)
        ≡ consume_all can_reserve (at HttpState.header_value r [] xs n read) rest
  unfolding consume_all consume dispatch
  key_part r xs rest a =
      push_each HttpState.header_key (λ c. (c ≢ cr) × (c ≢ colon)) r [] [] xs (colon ∷ space ∷ rest)
        (λ t c h. ground arith) a

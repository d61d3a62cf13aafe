-- ===== src/Http/Print/Headers.antt =====
-- The parser (core-engine/src/protocols/http_sim.cpp) on the header lines.
use network_simulator_platfo.Common.{
  ℕ, ◌≡◌, ◌≢◌, refl, ◌∙◌, sym, ap, Bool, false, Option, none, some, List, [], ◌∷◌, ◌++◌,
  append_assoc, append-nil, arith, All,
}
use network_simulator_platfo.Common.Words.{Bytes}
use network_simulator_platfo.Common.Map.{assign, bytes_eq, bytes_key}
use network_simulator_platfo.Http.{
  HttpState, HttpRequest, goes, consume, consume_all, dispatch, store_header, space, cr, lf, colon,
}
use network_simulator_platfo.Http.Print.{
  Header, print_header, print_headers, collect, length_after, lengths, starts_with_space, at,
  consume_next,
}
use network_simulator_platfo.Http.Print.RequestLine.{key_part}

module _ (can_reserve : ℕ → Bool) (n read : ℕ) where
  -- Behind its first byte a value may hold spaces.
  value_byte :
      (r : HttpRequest) (key token : Bytes) (c x : ℕ)
      → x ≢ cr
      → consume can_reserve (at HttpState.header_value r (c ∷ token) key n read) x
        ≡ goes (at HttpState.header_value r (c ∷ (token ++ x ∷ [])) key n read)
  unfolding consume dispatch
  value_byte r key token c x h = ground arith

  value_rest :
      (r : HttpRequest) (key token xs rest : Bytes) (c : ℕ)
      → All (λ c. c ≢ cr) xs
      → consume_all can_reserve
          (at HttpState.header_value r (c ∷ token) key n read)
          (xs ++ cr ∷ rest)
        ≡ consume_all can_reserve
            (at HttpState.expect_value_lf r (c ∷ (token ++ xs)) key n read)
            rest
  unfolding consume_all consume dispatch
  value_rest r key token [] rest c a =
      ap (λ t. consume_all can_reserve (at HttpState.expect_value_lf r (c ∷ t) key n read) rest)
        (sym (append-nil token))
  value_rest r key token (x ∷ xs) rest c a =
      consume_next can_reserve (at HttpState.header_value r (c ∷ token) key n read)
        (at HttpState.header_value r (c ∷ (token ++ x ∷ [])) key n read) x (xs ++ cr ∷ rest)
        (value_byte r key token c x a.0)
      ∙ value_rest r key (token ++ x ∷ []) xs rest c a.1
      ∙ ap (λ t. consume_all can_reserve (at HttpState.expect_value_lf r (c ∷ t) key n read) rest)
          (append_assoc token (x ∷ []) xs)

  first_byte :
      (r : HttpRequest) (key : Bytes) (x : ℕ)
      → x ≢ cr
      → bytes_eq (x ∷ []) (space ∷ []) ≡ false
      → consume can_reserve (at HttpState.header_value r [] key n read) x
        ≡ goes (at HttpState.header_value r (x ∷ []) key n read)
  unfolding consume dispatch
  first_byte r key x h s = ground arith

  value_part :
      (r : HttpRequest) (key xs rest : Bytes)
      → All (λ c. c ≢ cr) xs
      → starts_with_space xs ≡ false
      → consume_all can_reserve (at HttpState.header_value r [] key n read) (xs ++ cr ∷ rest)
        ≡ consume_all can_reserve (at HttpState.expect_value_lf r xs key n read) rest
  unfolding consume_all consume dispatch
  value_part r key [] rest a s = refl
  value_part r key (x ∷ xs) rest a s =
      consume_next can_reserve (at HttpState.header_value r [] key n read)
        (at HttpState.header_value r (x ∷ []) key n read) x (xs ++ cr ∷ rest)
        (first_byte r key x a.0 s)
      ∙ value_rest r key [] xs rest x a.1

  stored :
      (r : HttpRequest) (key value : Bytes) (k : ℕ)
      → length_after n (key, value) ≡ some k
      → consume can_reserve (at HttpState.expect_value_lf r value key n read) lf
        ≡ goes (
            at HttpState.header_key
              (record r { headers = assign key value r.headers })
              []
              []
              k
              read)
  unfolding consume dispatch store_header
  stored r key value k e = ground arith

  header_part :
      (r : HttpRequest) (key value rest : Bytes) (k : ℕ)
      → All (λ c. (c ≢ cr) × (c ≢ colon)) key
      → All (λ c. c ≢ cr) value × (starts_with_space value ≡ false)
      → length_after n (key, value) ≡ some k
      → consume_all can_reserve
          (at HttpState.header_key r [] [] n read)
          (print_header (key, value) rest)
        ≡ consume_all can_reserve
            (at HttpState.header_key
              (record r { headers = assign key value r.headers })
              []
              []
              k
              read)
            rest
  header_part r key value rest k a b e =
      key_part can_reserve n read r key (value ++ cr ∷ lf ∷ rest) a
      ∙ value_part r key value (lf ∷ rest) b.0 b.1
      ∙ consume_next can_reserve (at HttpState.expect_value_lf r value key n read) _ lf rest
          (stored r key value k e)

-- The empty line that ends the headers.
header_end :
    (can_reserve : ℕ → Bool) (r : HttpRequest) (n : ℕ)
    → consume can_reserve (at HttpState.header_key r [] [] n 0) cr
      ≡ goes (at HttpState.expect_body_lf r [] [] n 0)
unfolding consume dispatch
header_end can_reserve r n = refl

pub headers_part :
    (can_reserve : ℕ → Bool) (r : HttpRequest) (hs : List Header) (rest : Bytes) (n k : ℕ)
    → All (λ (h : Header). All (λ c. (c ≢ cr) × (c ≢ colon)) h.0) hs
    → All (λ (h : Header). All (λ c. c ≢ cr) h.1 × (starts_with_space h.1 ≡ false)) hs
    → lengths (some n) hs ≡ some k
    → consume_all can_reserve (at HttpState.header_key r [] [] n 0) (print_headers hs rest)
      ≡ consume_all can_reserve
          (at HttpState.expect_body_lf (record r { headers = collect r.headers hs }) [] [] k 0)
          (lf ∷ rest)
headers_part can_reserve r [] rest n k a b e =
    let same : n ≡ k = cc in
    consume_next can_reserve (at HttpState.header_key r [] [] n 0)
      (at HttpState.expect_body_lf r [] [] n 0) cr (lf ∷ rest) (header_end can_reserve r n)
    ∙ ap (λ j. consume_all can_reserve (at HttpState.expect_body_lf r [] [] j 0) (lf ∷ rest)) (same)
headers_part can_reserve r ((key, value) ∷ hs) rest n k a b e =
    go (length_after n (key, value)) refl e (λ j.
      headers_part can_reserve (record r { headers = assign key value r.headers }) hs rest j k a.1
        b.1)
  where
    go :
        (o : Option ℕ)
        → length_after n (key, value) ≡ o
        → lengths o hs ≡ some k
        → ((j : ℕ)
            → lengths (some j) hs ≡ some k
            → consume_all can_reserve
                (at HttpState.header_key
                  (record r { headers = assign key value r.headers })
                  []
                  []
                  j
                  0)
                (print_headers hs rest)
              ≡ consume_all can_reserve
                  (at HttpState.expect_body_lf
                    (record r { headers = collect (assign key value r.headers) hs })
                    []
                    []
                    k
                    0)
                  (lf ∷ rest))
        → consume_all can_reserve
            (at HttpState.header_key r [] [] n 0)
            (print_headers ((key, value) ∷ hs) rest)
          ≡ consume_all can_reserve
              (at HttpState.expect_body_lf
                (record r { headers = collect (assign key value r.headers) hs })
                []
                []
                k
                0)
              (lf ∷ rest)
    go none h e' ih = cc
    go (some j) h e' ih =
        header_part can_reserve n 0 r key value (print_headers hs rest) j a.0 b.0 h ∙ ih j e'

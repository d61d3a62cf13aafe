-- ===== src/Http/Print/Body.antt =====
-- The parser (core-engine/src/protocols/http_sim.cpp) on the body and behind it.
use network_simulator_platfo.Common.{
  ℕ, suc, ◌+◌, ◌^◌, ◌<◌, ◌≡◌, refl, ◌∙◌, ap, Bool, true, [], ◌∷◌, ◌++◌, append_assoc, arith, length,
}
use network_simulator_platfo.Common.Words.{Bytes}
use network_simulator_platfo.Common.Map.{bytes_key}
use network_simulator_platfo.Http.{HttpState, HttpRequest, goes, consume, consume_all, dispatch, lf}
use network_simulator_platfo.Http.Print.{at, consume_next}

module _ (can_reserve : ℕ → Bool) (r : HttpRequest) (x n read : ℕ) (small : n < 2 ^ 64) where
  body_byte :
      read + 1 < n
      → consume can_reserve (at HttpState.body r [] [] n read) x
        ≡ goes (at HttpState.body (record r { body = r.body ++ x ∷ [] }) [] [] n (read + 1))
  unfolding consume dispatch
  body_byte h = ground arith

  last_byte :
      read + 1 ≡ n
      → consume can_reserve (at HttpState.body r [] [] n read) x
        ≡ goes (at HttpState.complete (record r { body = r.body ++ x ∷ [] }) [] [] n n)
  unfolding consume dispatch
  last_byte h = ground arith

body_part :
    (can_reserve : ℕ → Bool) (r : HttpRequest) (xs rest : Bytes) (x n read : ℕ)
    → read + suc (length xs) ≡ n
    → n < 2 ^ 64
    → consume_all can_reserve (at HttpState.body r [] [] n read) ((x ∷ xs) ++ rest)
      ≡ consume_all can_reserve
          (at HttpState.complete (record r { body = r.body ++ x ∷ xs }) [] [] n n)
          rest
body_part can_reserve r [] rest x n read e small =
    consume_next can_reserve (at HttpState.body r [] [] n read) _ x rest
      (last_byte can_reserve r x n read small (omega arith))
body_part can_reserve r (y ∷ xs) rest x n read e small =
    consume_next can_reserve (at HttpState.body r [] [] n read) _ x ((y ∷ xs) ++ rest)
      (body_byte can_reserve r x n read small (omega arith))
    ∙ body_part can_reserve (record r { body = r.body ++ x ∷ [] }) xs rest y n (read + 1)
        (omega arith) small
    ∙ ap
        (λ b.
          consume_all can_reserve (at HttpState.complete (record r { body = b }) [] [] n n) rest)
        (append_assoc r.body (x ∷ []) (y ∷ xs))

-- A complete request is left as it is.
complete_part :
    (can_reserve : ℕ → Bool) (r : HttpRequest) (n read : ℕ) (rest : Bytes)
    → consume_all can_reserve (at HttpState.complete r [] [] n read) rest
      ≡ goes (at HttpState.complete r [] [] n read)
unfolding consume_all consume dispatch
complete_part can_reserve r n read [] = refl
complete_part can_reserve r n read (x ∷ rest) = complete_part can_reserve r n read rest

body_begins :
    (can_reserve : ℕ → Bool) (r : HttpRequest) (n : ℕ)
    → 0 < n
    → can_reserve n ≡ true
    → consume can_reserve (at HttpState.expect_body_lf r [] [] n 0) lf
      ≡ goes (at HttpState.body r [] [] n 0)
unfolding consume dispatch
body_begins can_reserve r n h room = ground arith

no_body :
    (can_reserve : ℕ → Bool) (r : HttpRequest)
    → consume can_reserve (at HttpState.expect_body_lf r [] [] 0 0) lf
      ≡ goes (at HttpState.complete r [] [] 0 0)
unfolding consume dispatch
no_body can_reserve r = refl

-- The line feed of the empty line, and the body.
pub rest_part :
    (can_reserve : ℕ → Bool) (r : HttpRequest) (xs rest : Bytes)
    → r.body ≡ []
    → length xs < 2 ^ 64
    → can_reserve (length xs) ≡ true
    → consume_all can_reserve
        (at HttpState.expect_body_lf r [] [] (length xs) 0)
        (lf ∷ (xs ++ rest))
      ≡ goes (at HttpState.complete (record r { body = xs }) [] [] (length xs) (length xs))
rest_part can_reserve r [] rest e small room =
    consume_next can_reserve (at HttpState.expect_body_lf r [] [] 0 0) _ lf rest
      (no_body can_reserve r)
    ∙ complete_part can_reserve r 0 0 rest
    ∙ ap (λ b. goes (at HttpState.complete (record r { body = b }) [] [] 0 0)) e
rest_part can_reserve r (x ∷ xs) rest e small room =
    let n = suc (length xs) in
    consume_next can_reserve (at HttpState.expect_body_lf r [] [] n 0) _ lf ((x ∷ xs) ++ rest)
      (body_begins can_reserve r n (omega arith) room)
    ∙ body_part can_reserve r xs rest x n 0 (omega arith) small
    ∙ complete_part can_reserve (record r { body = r.body ++ x ∷ xs }) n n rest
    ∙ ap (λ b. goes (at HttpState.complete (record r { body = b ++ x ∷ xs }) [] [] n n)) e

-- ===== src/Telemetry/Post/Sockets.antt =====
-- The sockets of `post_sample` (core-engine/src/system/telemetry_http_client.cpp), and what it
-- answers.
use network_simulator_platfo.Common.{
  ℕ, suc, ◌^◌, ◌<◌, ◌≡◌, ◌≢◌, ◌↔◌, inl, inr, refl, ◌∙◌, sym, ap, Bool, true, false, Option, none,
  some, List, [], ◌∷◌, arith, length, Bool-cases, Option-cases, ==_iff,
}
use network_simulator_platfo.Common.Words.{Bytes}
use network_simulator_platfo.Telemetry.{TelemetryEndpoint}
use network_simulator_platfo.Telemetry.Request.{TelemetrySample, to_json, request}
use network_simulator_platfo.Telemetry.Post.{
  Os, Call, Trace, connect_first, answer, post_to, post_sample, status_is_success,
}
use network_simulator_platfo.Telemetry.Post.Sending.{
  wire, remove, held, heard, IsSend, send_all-IsSent,
}
use network_simulator_platfo.Telemetry.Post.Status.{IsSuccess, status_none, status_is_success_iff}

remove_first : (fd : ℕ) (fs : List ℕ) → remove fd (fd ∷ fs) ≡ fs
remove_first fd fs = rw ((==_iff fd fd).1 refl) refl

abbrev with_found : Option ℕ → List ℕ
with_found none = []
with_found (some fd) = fd ∷ []

module _ {Address : Type 0} (os : Os Address) where
  -- At most the socket that is connected stays open, and nothing has been sent.
  connect_first-held :
      (result : List Address) (t : Trace)
      → held t ≡ []
      → wire t ≡ []
      → heard t ≡ []
      → (held (connect_first os result t).1 ≡ with_found (connect_first os result t).0)
        × (wire (connect_first os result t).1 ≡ [])
        × (heard (connect_first os result t).1 ≡ [])
  unfolding connect_first
  connect_first-held [] t h w q = (h, w, q)
  connect_first-held (rp ∷ rest) t h w q = elim (Option-cases (os.socket (length t) rp)) [
    | inl e ↦ rw (e, connect_first) (connect_first-held rest (Call.no_socket ∷ t) h w q)
    | inr (sock, e) ↦ elim (Bool-cases (os.connect (suc (length t)) sock rp)) [
      | inl ok ↦ rw (e, ok, connect_first) (ap (λ fs. sock ∷ fs) h, w, q)
      | inr refused ↦
          rw (e, refused, connect_first)
            (connect_first-held rest
              (Call.closed sock ∷ Call.connecting sock ∷ Call.opened sock ∷ t)
              (remove_first sock (held t) ∙ h) w q)
    ]
  ]

  -- The whole text was sent, and one response was received, which has a status from 200 to 299.
  abbrev pub IsAccepted : Bytes → Trace → Type 0
  IsAccepted text t =
      (wire t ≡ text) × (response : Bytes) × (heard t ≡ response ∷ []) × IsSuccess response

  -- What `post_sample` leaves: no socket is open, and the answer says whether that is so.
  pub record IsPosted (text : Bytes) (posted : Bool) (t : Trace) : Type 0 where
    pub closed : held t ≡ []
    pub answered : (posted ≡ true) ↔ IsAccepted text t

  unheard :
      (text : Bytes) (posted : Bool) (t : Trace)
      → posted ≡ false
      → heard t ≡ []
      → (posted ≡ true) ↔ IsAccepted text t
  unheard text posted t is_false q = (λ e. cc, λ (sent, response, got, good). cc)

  refused :
      (text : Bytes) (posted : Bool) (t : Trace) (response : Bytes)
      → posted ≡ false
      → heard t ≡ response ∷ []
      → status_is_success response ≢ some true
      → (posted ≡ true) ↔ IsAccepted text t
  refused text posted t response is_false q bad = (
    λ e. cc,
    λ (sent, other, got, good).
        let same : response ≡ other = cc in
        absurd (bad (ap status_is_success same ∙ (status_is_success_iff other).1 good)),
  )

  answer-IsPosted :
      (sock : ℕ) (text : Bytes) (t : Trace)
      → held t ≡ sock ∷ []
      → heard t ≡ []
      → wire t ≡ text
      → IsPosted text (answer os sock t).0 (answer os sock t).1
  unfolding answer
  answer-IsPosted sock text t h q w = elim (Option-cases (os.recv (length t) sock)) [
    | inl e ↦
        rw (e, answer)
          (record {
            closed = shut;
            answered = refused text false (end []) [] refl (one []) nothing;
          })
    | inr ([], e) ↦
        rw (e, answer)
          (record {
            closed = shut;
            answered = refused text false (end []) [] refl (one []) nothing;
          })
    | inr (c ∷ cs, e) ↦
        rw (e, answer)
          (record {
            closed = shut;
            answered = elim (Option-cases (status_is_success (c ∷ cs))) [
              | inl g ↦ refused text _ (end (c ∷ cs)) (c ∷ cs) (rw g refl) (one (c ∷ cs)) (λ k. cc)
              | inr (false, g) ↦
                  refused text _ (end (c ∷ cs)) (c ∷ cs) (rw g refl) (one (c ∷ cs)) (λ k. cc)
              | inr (true, g) ↦ (
                λ k. (w, c ∷ cs, one (c ∷ cs), (status_is_success_iff (c ∷ cs)).0 g),
                λ k. rw g refl,
              )
            ];
          })
  ]
    where
      end : Bytes → Trace
      end response = Call.closed sock ∷ Call.received sock response ∷ t

      one : (response : Bytes) → heard (Call.received sock response ∷ t) ≡ response ∷ []
      one response = ap (λ rs. response ∷ rs) q

      shut : remove sock (held t) ≡ []
      shut = ap (remove sock) h ∙ remove_first sock []

      nothing : status_is_success [] ≢ some true
      nothing g = let differs : some false ≡ some true = sym (status_none [] tt) ∙ g in cc

  post_to-IsPosted :
      IsSend os
      → (result : List Address) (text : Bytes) (t : Trace) → length text < 2 ^ 64
      → held t ≡ []
      → wire t ≡ []
      → heard t ≡ []
      → (posted : Bool) × (t' : Trace) × (post_to os result text t ≡ some (posted, t'))
        × IsPosted text posted t'
  unfolding post_to
  post_to-IsPosted sends result text t small h w q =
      found (connect_first os result t) refl (connect_first-held result t h w q)
    where
      found :
          (f : Option ℕ × Trace)
          → connect_first os result t ≡ f
          → (held (connect_first os result t).1 ≡ with_found (connect_first os result t).0)
            × (wire (connect_first os result t).1 ≡ [])
            × (heard (connect_first os result t).1 ≡ [])
          → (posted : Bool) × (t' : Trace) × (post_to os result text t ≡ some (posted, t'))
            × IsPosted text posted t'
      found (none, u) e i = (
        false,
        Call.freed ∷ u,
        simp (e, post_to) refl,
        record {
          closed = rw e at i.0;
          answered = unheard text false (Call.freed ∷ u) refl (rw e at i.2);
        },
      )
      found (some sock, u) e i =
          let open_one : held u ≡ sock ∷ [] = rw e at i.0 in
          let none_sent : wire u ≡ [] = rw e at i.1 in
          let none_heard : heard u ≡ [] = rw e at i.2 in
          let (b, u', run, is) =
            send_all-IsSent os sends sock text [] (sock ∷ []) small (suc (length text)) 0
              (Call.freed ∷ u) (omega arith) (omega arith) none_sent open_one none_heard in
          elim is.bytes [
            | inl (good, all) ↦ (
              (answer os sock u').0,
              (answer os sock u').1,
              simp (e, run, good, post_to) refl,
              answer-IsPosted sock text u' is.kept is.silent all,
            )
            | inr (bad, n, less, part) ↦ (
              false,
              Call.closed sock ∷ u',
              simp (e, run, bad, post_to) refl,
              record {
                closed = ap (remove sock) is.kept ∙ remove_first sock [];
                answered = unheard text false (Call.closed sock ∷ u') refl is.silent;
              },
            )
          ]

-- Where `send` never accepts more bytes than it is given and the request is below 2 ^ 64 bytes,
-- `post_sample` returns, and every socket that it has opened is closed. It returns true exactly where the
-- whole request of the sample was sent, each byte once and in order, and one response was received, in
-- which the first space is followed by three digits, the first of them a 2.
pub post_sample-IsPosted :
    {Address D : Type 0} (os : Os Address) (shown : D → Bytes) (endpoint : TelemetryEndpoint)
    (sample : TelemetrySample D)
    → IsSend os
    → length (request endpoint (to_json shown sample)) < 2 ^ 64
    → (posted : Bool) × (t : Trace) × (post_sample os shown endpoint sample ≡ some (posted, t))
      × IsPosted os (request endpoint (to_json shown sample)) posted t
unfolding post_sample
post_sample-IsPosted os shown endpoint sample sends small =
    elim (Option-cases (os.getaddrinfo 0 endpoint.host endpoint.port)) [
      | inl e ↦ (
        false,
        Call.resolved ∷ [],
        rw (e, post_sample) refl,
        record { closed = refl; answered = unheard os _ false (Call.resolved ∷ []) refl refl },
      )
      | inr (result, e) ↦
          let (posted, t, run, is) =
            post_to-IsPosted os sends result (request endpoint (to_json shown sample))
              (Call.resolved ∷ []) small refl refl refl in
          (posted, t, rw (e, post_sample) run, is)
    ]

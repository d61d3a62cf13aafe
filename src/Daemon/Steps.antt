-- ===== src/Daemon/Steps.antt =====
-- The steps of a client's handler (core-engine/src/main/core_engine.cpp), and what a client has sent.
use network_simulator_platfo.Common.{
  ℕ, ◌+◌, ◌≡◌, ◌≢◌, inl, inr, refl, ◌∙◌, sym, ap, subst, Bool, true, false, Option, none, some,
  List, [], ◌∷◌, arith, Option-cases, ==_iff,
}
use network_simulator_platfo.Common.Map.{Map, find, assign, erase, nat_key, find-assign, find-erase}
use network_simulator_platfo.Common.Words.{Bytes}
use network_simulator_platfo.Arena.{allocate}
use network_simulator_platfo.Arena
use network_simulator_platfo.Packet.{Packet, Parsed, ok, deserialize}
use network_simulator_platfo.Node.{receive_packet}
use network_simulator_platfo.Spsc.{push}
use network_simulator_platfo.Http.{HttpSim, parse_chunk}
use network_simulator_platfo.Http
use network_simulator_platfo.Connection.{Connection, Received, Reading, receive_data, disconnect}
use network_simulator_platfo.EventLoop.{Epoll}
use network_simulator_platfo.Daemon.{
  Daemon, ClientContext, Answers, Post, metric, throughput, packet_layout, queue_bits, serve, feed,
}
use network_simulator_platfo.Daemon.Serving.{IsReady, reset_ready, loaded, serves, rejects}

-- What a client has sent: the bytes that its handler reads complete a request, whose body is a packet.
pub record Carries (can_reserve : ℕ → Bool) (clients : Map ℕ ClientContext) (c_fd : ℕ)
    (received : Received) (body : Bytes) : Type 0 where
  pub ctx : ClientContext
  pub known : find c_fd clients ≡ some ctx
  pub first : ℕ
  pub others : Bytes
  pub read : received ≡ Received.bytes (first ∷ others)
  pub parser : HttpSim
  pub complete : parse_chunk can_reserve ctx.parser (first ∷ others) ≡ (parser, some true)
  pub whole : parser.request.body ≡ body
  pub pkt : Packet
  pub is_packet : deserialize body ≡ ok pkt

-- What one run of a client's handler may do: the arena, the callbacks and the other clients stay. Where
-- the client has sent a packet, the rate limiter is asked once, and the metric of that packet is pushed
-- and posted; where it has not, the limiter and the queue are left alone, and nothing is posted.
pub record IsStep (K : Epoll) (can_reserve : ℕ → Bool) (c_fd : ℕ) (a : Answers) (d d' : Daemon K)
    (posts : List Post) : Type 0 where
  pub arena : d'.arena ≡ d.arena
  pub callbacks : d'.loop.callbacks ≡ d.loop.callbacks
  pub others : (f : ℕ) → f ≢ c_fd → find f d'.active_connections ≡ find f d.active_connections
  pub counted :
      (body : Bytes)
      → Carries can_reserve d.active_connections c_fd a.received body
      → let (node, passed) = receive_packet d.secure_node a.arrival in
        let event = metric a.stamp c_fd body passed in
        (d'.secure_node ≡ node)
        × (posts ≡ (event, throughput body passed) ∷ [])
        × (d'.telemetry_queue ≡ (push queue_bits d.telemetry_queue event).0)
  pub uncounted :
      ((body : Bytes) → ¬ Carries can_reserve d.active_connections c_fd a.received body)
      → (posts ≡ []) × (d'.secure_node ≡ d.secure_node) × (d'.telemetry_queue ≡ d.telemetry_queue)

reassigned :
    (m : Map ℕ ClientContext) (c_fd f : ℕ) (ctx : ClientContext)
    → f ≢ c_fd
    → find f (assign c_fd ctx m) ≡ find f m
reassigned m c_fd f ctx other = find-assign c_fd f ctx m ∙ ground (arith, ==_iff c_fd f)

pub erased : (m : Map ℕ ClientContext) (c_fd f : ℕ) → f ≢ c_fd → find f (erase c_fd m) ≡ find f m
erased m c_fd f other = find-erase c_fd f m ∙ ground (arith, ==_iff c_fd f)

abbrev pub seen : Reading → Option Bytes
seen Reading.throws = none
seen (Reading.returns raw_bytes connection closed) = some raw_bytes

-- What is read is what `recv` answers.
pub received_some :
    (c : Connection) (received : Received) (b : ℕ) (bs : Bytes)
    → seen (receive_data c received) ≡ some (b ∷ bs)
    → received ≡ Received.bytes (b ∷ bs)
unfolding receive_data disconnect
received_some c received b bs r = elim (Option-cases c.socket.fd) [
  | inl e ↦ let is : none ≡ some (b ∷ bs) = rw (e, receive_data) at r in cc
  | inr (fd, e) ↦ of_bytes fd e received r
]
  where
    of_bytes :
        (fd : ℕ)
        → c.socket.fd ≡ some fd
        → (got : Received) → seen (receive_data c got) ≡ some (b ∷ bs)
        → got ≡ Received.bytes (b ∷ bs)
    of_bytes fd e (Received.bytes []) g =
        let is : some [] ≡ some (b ∷ bs) = rw (e, receive_data) at g in cc
    of_bytes fd e (Received.bytes (x ∷ xs)) g =
        let is : some (x ∷ xs) ≡ some (b ∷ bs) = rw (e, receive_data) at g in cc
    of_bytes fd e Received.would_block g =
        let is : some [] ≡ some (b ∷ bs) = rw (e, receive_data) at g in cc
    of_bytes fd e Received.failed g =
        let is : none ≡ some (b ∷ bs) = rw (e, receive_data) at g in cc

pub received_none :
    (c : Connection) (b : ℕ) (bs : Bytes)
    → seen (receive_data c (Received.bytes (b ∷ bs))) ≢ some []
unfolding receive_data
received_none c b bs r = elim (Option-cases c.socket.fd) [
  | inl e ↦ let is : none ≡ some [] = rw (e, receive_data) at r in cc
  | inr (fd, e) ↦ let is : some (b ∷ bs) ≡ some [] = rw (e, receive_data) at r in cc
]

module _ (K : Epoll) (close : K.State → ℕ → K.State) (can_reserve : ℕ → Bool) where
  -- The step of a request that is complete.
  abbrev cleared : Daemon K → ℕ → ClientContext → Daemon K × List Post → Daemon K × List Post
  cleared d c_fd ctx (d', posts) = (
    record d' {
      arena = Arena.reset d'.arena;
      active_connections = assign c_fd (record ctx { parser = Http.reset }) d.active_connections;
    },
    posts,
  )

  -- The parser that a client's packet leaves is the one of the bytes that were read.
  carried_by :
      (clients : Map ℕ ClientContext) (c_fd : ℕ) (ctx : ClientContext) (received : Received) (b : ℕ)
      (bs body : Bytes)
      → find c_fd clients ≡ some ctx
      → received ≡ Received.bytes (b ∷ bs)
      → (c : Carries can_reserve clients c_fd received body)
      → parse_chunk can_reserve ctx.parser (b ∷ bs) ≡ (c.parser, some true)
  carried_by clients c_fd ctx received b bs body known read c =
      let same : ctx ≡ c.ctx = cc (known, c.known) in
      let whole : b ∷ bs ≡ c.first ∷ c.others = cc (read, c.read) in
      ap (λ x. parse_chunk can_reserve x.parser (b ∷ bs)) same
      ∙ ap (parse_chunk can_reserve c.ctx.parser) whole
      ∙ c.complete

  -- A request that is complete, where a packet that the client has sent can only be its body.
  serve-IsStep :
      (d : Daemon K) (c_fd : ℕ) (a : Answers) (ctx : ClientContext) (body : Bytes)
      → IsReady d.arena
      → ((other : Bytes)
          → Carries can_reserve d.active_connections c_fd a.received other
          → body ≡ other)
      → ((pkt : Packet)
          → deserialize body ≡ ok pkt
          → Carries can_reserve d.active_connections c_fd a.received body)
      → let (d', posts) = cleared d c_fd ctx (serve K close can_reserve d c_fd a body) in
        IsStep K can_reserve c_fd a d d' posts
  serve-IsStep d c_fd a ctx body ready only carries = cases (deserialize body) refl
    where
      emptied : Arena.reset (loaded K close can_reserve d c_fd a ready).arena ≡ d.arena
      emptied = reset_ready d.arena ready (d.arena.arena_start + packet_layout.size)

      others :
          (f : ℕ)
          → f ≢ c_fd
          → find f (assign c_fd (record ctx { parser = Http.reset }) d.active_connections)
            ≡ find f d.active_connections
      others f = reassigned d.active_connections c_fd f (record ctx { parser = Http.reset })

      cases :
          (r : Parsed)
          → deserialize body ≡ r
          → let (d', posts) = cleared d c_fd ctx (serve K close can_reserve d c_fd a body) in
            IsStep K can_reserve c_fd a d d' posts
      cases (Parsed.throws error) e =
          rw (rejects K close can_reserve d c_fd a ready body error e) (record {
            arena = emptied;
            callbacks = refl;
            others = others;
            counted = λ other c.
                let is : Parsed.throws error ≡ ok c.pkt =
                  sym e ∙ ap deserialize (only other c) ∙ c.is_packet in
                cc;
            uncounted = λ h. (refl, refl, refl);
          })
      cases (Parsed.ok pkt) e = rw (serves K close can_reserve d c_fd a ready body pkt e) (record {
        arena = emptied;
        callbacks = refl;
        others = others;
        counted = λ other c. rw (sym (only other c)) (refl, refl, refl);
        uncounted = λ h. absurd (h body (carries pkt e));
      })

  -- A handler that has met no complete request.
  pub idle :
      (d d' : Daemon K) (c_fd : ℕ) (a : Answers)
      → d'.arena ≡ d.arena
      → d'.loop.callbacks ≡ d.loop.callbacks
      → ((f : ℕ) → f ≢ c_fd → find f d'.active_connections ≡ find f d.active_connections)
      → d'.secure_node ≡ d.secure_node
      → d'.telemetry_queue ≡ d.telemetry_queue
      → ((body : Bytes) → ¬ Carries can_reserve d.active_connections c_fd a.received body)
      → IsStep K can_reserve c_fd a d d' []
  idle d d' c_fd a arena callbacks others node queue nothing = record {
    arena = arena;
    callbacks = callbacks;
    others = others;
    counted = λ body c. absurd (nothing body c);
    uncounted = λ h. (refl, node, queue);
  }

  pub feed-IsStep :
      (d d' : Daemon K) (c_fd : ℕ) (a : Answers) (old : ClientContext) (connection : Connection)
      (b : ℕ) (bs : Bytes) (posts : List Post)
      → IsReady d.arena
      → find c_fd d.active_connections ≡ some old
      → a.received ≡ Received.bytes (b ∷ bs)
      → feed K close can_reserve d c_fd a (record old { connection = connection }) (b ∷ bs)
        ≡ some (d', posts)
      → IsStep K can_reserve c_fd a d d' posts
  unfolding feed
  feed-IsStep d d' c_fd a old connection b bs posts ready known read e =
      cases (parse_chunk can_reserve old.parser (b ∷ bs)) refl
    where
      ctx : ClientContext
      ctx = record old { connection = connection }

      cases :
          (r : HttpSim × Option Bool)
          → parse_chunk can_reserve old.parser (b ∷ bs) ≡ r
          → IsStep K can_reserve c_fd a d d' posts
      cases (p, none) f =
          let stuck : ◌≡◌ {A = Option (Daemon K × List Post)} none (some (d', posts)) =
            simp (f, feed) at e in
          cc
      cases (p, some false) f =
          let kept : Daemon K = record d {
            active_connections = assign c_fd (record ctx { parser = p }) d.active_connections;
          } in
          let out : Daemon K × List Post = (kept, []) in
          let result : Daemon K × List Post = (d', posts) in
          let is : some out ≡ some result = simp (f, feed) at e in
          let same : out ≡ result = cc in
          subst (λ r. IsStep K can_reserve c_fd a d r.0 r.1) same
            (idle d kept c_fd a refl refl
              (λ g. reassigned d.active_connections c_fd g (record ctx { parser = p })) refl refl
              (λ body c.
                let differs =
                  sym f
                  ∙ carried_by d.active_connections c_fd old a.received b bs body known read c in
                cc))
      cases (p, some true) f =
          let out : Daemon K × List Post =
            cleared d c_fd ctx (serve K close can_reserve d c_fd a p.request.body) in
          let result : Daemon K × List Post = (d', posts) in
          let is : some out ≡ some result = simp (f, feed) at e in
          let same : out ≡ result = cc in
          subst (λ r. IsStep K can_reserve c_fd a d r.0 r.1) same
            (serve-IsStep d c_fd a ctx p.request.body ready
              (λ other c.
                let is =
                  sym f
                  ∙ carried_by d.active_connections c_fd old a.received b bs other known read c in
                ap (λ r. r.0.request.body) is ∙ c.whole)
              (λ pkt good. record {
                ctx = old;
                known = known;
                first = b;
                others = bs;
                read = read;
                parser = p;
                complete = f;
                whole = refl;
                pkt = pkt;
                is_packet = good;
              }))

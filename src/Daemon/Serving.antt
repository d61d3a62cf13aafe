-- ===== src/Daemon/Serving.antt =====
-- How the handler of a client (core-engine/src/main/core_engine.cpp) serves a complete request.
use network_simulator_platfo.Common.{
  ℕ, ◌+◌, ◌^◌, ◌<◌, ◌≤◌, ◌≡◌, refl, ◌∙◌, sym, ap, Bool, true, Option, some, List, [], ◌∷◌, ◌++◌,
  arith, length,
}
use network_simulator_platfo.Common.Map.{find, assign, nat_key}
use network_simulator_platfo.Common.Words.{Bytes}
use network_simulator_platfo.Arena.{MemoryArena, allocate, align, round_up}
use network_simulator_platfo.Arena
use network_simulator_platfo.Packet.{Packet, ParseError, ok, throws, deserialize}
use network_simulator_platfo.Node.{receive_packet}
use network_simulator_platfo.Spsc.{push}
use network_simulator_platfo.Http.{HttpState, HttpSim, Outcome, goes, parse_chunk, consume_all}
use network_simulator_platfo.Http
use network_simulator_platfo.Http.Chunks.{consume_all-append, and_then}
use network_simulator_platfo.Http.Print.{Message, print, IsPrintable, at, request_of}
use network_simulator_platfo.Http.Print.RoundTrip.{parse-print}
use network_simulator_platfo.Connection.{Received, Reading, receive_data}
use network_simulator_platfo.EventLoop.{Epoll}
use network_simulator_platfo.Daemon.{
  Daemon, ClientContext, Answers, Post, metric, throughput, packet_layout, queue_bits, serve, feed,
  on_read, close_all,
}

-- The arena is empty, and a packet fits in it.
pub record IsReady (a : MemoryArena) : Type 0 where
  pub empty : a.current_cursor ≡ a.arena_start
  pub room : a.arena_start + packet_layout.size ≤ a.arena_end

pub allocate_ready :
    (a : MemoryArena)
    → IsReady a
    → allocate a packet_layout
      ≡ some (a.arena_start, record a { current_cursor = a.arena_start + packet_layout.size })
unfolding allocate align round_up
allocate_ready a r =
    let plain : round_up 1 a.current_cursor ≡ a.current_cursor = ground arith in
    rw (plain, r.empty, allocate) (ground (arith, r.room))

pub reset_ready :
    (a : MemoryArena)
    → IsReady a
    → (cursor : ℕ) → Arena.reset (record a { current_cursor = cursor }) ≡ a
unfolding Arena.reset
reset_ready a r cursor = ap (λ c. record a { current_cursor = c }) (sym r.empty)

module _ (K : Epoll) (close : K.State → ℕ → K.State) (can_reserve : ℕ → Bool) (d : Daemon K)
    (c_fd : ℕ) (a : Answers) (ready : IsReady d.arena) where
  -- The daemon with a packet in its arena.
  abbrev pub loaded : Daemon K
  loaded = record d {
    arena = record (d.arena) { current_cursor = d.arena.arena_start + packet_layout.size };
  }

  pub serves :
      (body : Bytes) (pkt : Packet)
      → deserialize body ≡ ok pkt
      → serve K close can_reserve d c_fd a body ≡ (
          let (node, passed) = receive_packet d.secure_node a.arrival in
          let event = metric a.stamp c_fd body passed in
          (
            record loaded {
              secure_node = node;
              telemetry_queue = (push queue_bits d.telemetry_queue event).0;
            },
            (event, throughput body passed) ∷ [],
          ))
  unfolding serve
  serves body pkt e = simp (allocate_ready d.arena ready, e, serve) refl

  pub rejects :
      (body : Bytes) (error : ParseError)
      → deserialize body ≡ throws error
      → serve K close can_reserve d c_fd a body ≡ (loaded, [])
  unfolding serve
  rejects body error e = simp (allocate_ready d.arena ready, e, serve) refl

module _ (K : Epoll) (close : K.State → ℕ → K.State) (can_reserve : ℕ → Bool) (d : Daemon K)
    (c_fd : ℕ) (a : Answers) (ctx : ClientContext) (seen chunk rest : Bytes) (b sock : ℕ)
    (m : Message) (known : find c_fd d.active_connections ≡ some ctx)
    (valid : ctx.connection.socket.fd ≡ some sock) (read : a.received ≡ Received.bytes (b ∷ chunk))
    (before : consume_all can_reserve Http.reset seen ≡ goes ctx.parser)
    (whole : seen ++ b ∷ chunk ≡ print m rest) (w : IsPrintable m) (small : length m.body < 2 ^ 64)
    (room : can_reserve (length m.body) ≡ true) (ready : IsReady d.arena) where
  -- The parser behind the chunk.
  abbrev parsed : HttpSim
  parsed = at HttpState.complete (request_of m) [] [] (length m.body) (length m.body)

  completes : parse_chunk can_reserve ctx.parser (b ∷ chunk) ≡ (parsed, some true)
  unfolding parse_chunk
  completes =
      let run : consume_all can_reserve ctx.parser (b ∷ chunk) ≡ goes parsed =
        ap (λ o. and_then can_reserve o (b ∷ chunk)) (sym before)
        ∙ sym (consume_all-append can_reserve Http.reset seen (b ∷ chunk))
        ∙ ap (consume_all can_reserve Http.reset) whole
        ∙ parse-print can_reserve m rest w small room in
      rw (run, parse_chunk) refl

  receives : receive_data ctx.connection a.received ≡ Reading.returns (b ∷ chunk) ctx.connection []
  unfolding receive_data
  receives = rw (read, valid, receive_data) refl

  on_read_feeds :
      on_read K close can_reserve c_fd a d ≡ feed K close can_reserve d c_fd a ctx (b ∷ chunk)
  unfolding on_read close_all
  on_read_feeds = simp (known, receives, on_read) refl

  -- What the handler leaves once the `try` block has left its part.
  abbrev cleared : Daemon K × List Post → Option (Daemon K × List Post)
  cleared (d', posts) = some (
    record d' {
      arena = Arena.reset d'.arena;
      active_connections = assign c_fd (record ctx { parser = Http.reset }) d.active_connections;
    },
    posts,
  )

  on_read-serve :
      on_read K close can_reserve c_fd a d ≡ cleared (serve K close can_reserve d c_fd a m.body)
  unfolding feed
  on_read-serve = on_read_feeds ∙ simp (completes, feed) refl

  -- Where the bytes that a known client with an open socket has sent since its last request, with
  -- those that are read now, are a printed request and what follows it, its body is below 2 ^ 64
  -- bytes and there is memory for it, the arena is empty with room for a packet, and the body is a
  -- packet: the handler asks the rate limiter once, pushes and posts the one metric of its answer,
  -- and leaves a new parser, the empty arena and all else as it was.
  pub on_read-serves :
      (pkt : Packet)
      → deserialize m.body ≡ ok pkt
      → let (node, passed) = receive_packet d.secure_node a.arrival in
        let event = metric a.stamp c_fd m.body passed in
        on_read K close can_reserve c_fd a d
        ≡ some (
          record d {
            active_connections =
                assign c_fd (record ctx { parser = Http.reset }) d.active_connections;
            secure_node = node;
            telemetry_queue = (push queue_bits d.telemetry_queue event).0;
          },
          (event, throughput m.body passed) ∷ [],
        )
  on_read-serves pkt e =
      on_read-serve
      ∙ ap cleared (serves K close can_reserve d c_fd a ready m.body pkt e)
      ∙ rw (reset_ready d.arena ready (d.arena.arena_start + packet_layout.size)) refl

  -- Where the bytes that a known client with an open socket has sent since its last request, with
  -- those that are read now, are a printed request and what follows it, its body is below 2 ^ 64
  -- bytes and there is memory for it, the arena is empty with room for a packet, and the body is no
  -- packet: the rate limiter and the queue do not see it, and the handler leaves a new parser for
  -- the client, posts nothing and leaves all else as it was.
  pub on_read-rejects :
      (error : ParseError)
      → deserialize m.body ≡ throws error
      → on_read K close can_reserve c_fd a d
        ≡ some (
          record d {
            active_connections =
                assign c_fd (record ctx { parser = Http.reset }) d.active_connections;
          },
          [],
        )
  on_read-rejects error e =
      on_read-serve
      ∙ ap cleared (rejects K close can_reserve d c_fd a ready m.body error e)
      ∙ rw (reset_ready d.arena ready (d.arena.arena_start + packet_layout.size)) refl

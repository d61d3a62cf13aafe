-- ===== src/Daemon.antt =====
-- The daemon: the handlers of core-engine/src/main/core_engine.cpp, on an event loop, with a parser for
-- each client, the arena, the node that limits packets and the queue to the monitor.
-- What the system calls and the clocks answer are parameters; the console is left out.
pub mod Serving
pub mod Steps
pub mod Clients
mod Tests
use network_simulator_platfo.Common.{
  ℕ, ◌+◌, ◌*◌, ◌%◌, ◌^◌, Bool, true, false, Option, none, some, List, [], ◌∷◌, ◌++◌, length, ◌==◌,
  ◌||◌, ◌&&◌, leb, map, if◌then◌else◌,
}
use network_simulator_platfo.Common.Map.{Map, find, assign, erase, nat_key, bytes_eq}
use network_simulator_platfo.Common.Words.{Bytes, mul64}
use network_simulator_platfo.Common.Decimal.{to_decimal}
use network_simulator_platfo.Arena.{MemoryArena, Layout, allocate}
use network_simulator_platfo.Arena
use network_simulator_platfo.Packet.{Parsed, deserialize}
use network_simulator_platfo.Node.{Node, receive_packet}
use network_simulator_platfo.Monitor.{MetricEvent}
use network_simulator_platfo.Spsc.{SpscRingBuffer, push}
use network_simulator_platfo.Http.{HttpSim, HttpRequest, parse_chunk}
use network_simulator_platfo.Http
use network_simulator_platfo.Connection.{
  Connection, SocketFd, Received, Reading, receive_data, close_socket,
}
use network_simulator_platfo.EventLoop.{Epoll, EventLoop, Waited, register_event, poll_once}

-- `std::tolower` in the C locale
abbrev pub to_lower : ℕ → ℕ
to_lower c = if leb 65 c && leb c 90 then c + 32 else c

-- `env_flag_enabled`: the value of the variable is a parameter, and none is the null pointer.
unfoldable pub env_flag_enabled : Option Bytes → Bool → Bool
env_flag_enabled none default_value = default_value
env_flag_enabled (some value) default_value =
    let normalized = map to_lower value in
    bytes_eq normalized (49 ∷ [])
    || bytes_eq normalized (116 ∷ 114 ∷ 117 ∷ 101 ∷ [])
    || bytes_eq normalized (121 ∷ 101 ∷ 115 ∷ [])
    || bytes_eq normalized (111 ∷ 110 ∷ [])

pub record ClientContext : Type 0 where
  pub connection : Connection
  pub parser : HttpSim

-- The two lambdas.
pub data Callback : Type 0 where
  accept_clients read_client : Callback

-- The global components, the node and the loop. `close` is what closing a descriptor does to the epoll
-- instance.
pub record Daemon (K : Epoll) : Type 0 where
  pub active_connections : Map ℕ ClientContext
  pub telemetry_queue : SpscRingBuffer MetricEvent
  pub arena : MemoryArena
  pub secure_node : Node
  pub loop : EventLoop K Callback

-- A call of `publish_metric_event`, with the throughput before its cast to `double`.
abbrev pub Post : Type 0
Post = MetricEvent × ℕ

-- What the calls of one handler answer: `accept_connection` for each of its calls until one would block,
-- none for an exception; `recv`; the rate limiter's and the event's reading of the clock.
pub record Answers : Type 0 where
  pub accepted : List (Option ℕ)
  pub received : Received
  pub arrival : ℕ
  pub stamp : ℕ

-- `sizeof(Packet)` and `alignof(Packet)`
abbrev pub packet_layout : Layout
packet_layout = record { size = 1506; alignment = 1 }

-- `SpscRingBuffer<MetricEvent, 1024>`
abbrev pub queue_bits : ℕ
queue_bits = 10

-- `EVENT_READ`, which is `EPOLLIN`
abbrev pub event_read : ℕ
event_read = 1

-- "ClientFD_"
abbrev pub client_prefix : Bytes
client_prefix = 67 ∷ 108 ∷ 105 ∷ 101 ∷ 110 ∷ 116 ∷ 70 ∷ 68 ∷ 95 ∷ []

-- "SecureHost"
abbrev pub secure_host : Bytes
secure_host = 83 ∷ 101 ∷ 99 ∷ 117 ∷ 114 ∷ 101 ∷ 72 ∷ 111 ∷ 115 ∷ 116 ∷ []

-- The metric of a packet that passes, and of one that is dropped.
unfoldable pub metric : ℕ → ℕ → Bytes → Bool → MetricEvent
metric stamp c_fd body passed =
    let source = client_prefix ++ to_decimal c_fd in
    if passed
    then record {
      timestamp_us = stamp;
      source_node = source;
      dest_node = secure_host;
      packet_size = length body % 2 ^ 32;
      latency_ns = 120;
      dropped = false;
    }
    else record {
      timestamp_us = stamp;
      source_node = source;
      dest_node = secure_host;
      packet_size = 0;
      latency_ns = 0;
      dropped = true;
    }

abbrev pub throughput : Bytes → Bool → ℕ
throughput body passed = if passed then mul64 (length body) 8 else 0

module _ (K : Epoll) (close : K.State → ℕ → K.State) (can_reserve : ℕ → Bool) where
  -- The `try` block on a complete request; an exception in it is caught.
  unfoldable pub serve : Daemon K → ℕ → Answers → Bytes → Daemon K × List Post
  serve d c_fd a body = elim (allocate d.arena packet_layout) [
    | none ↦ (d, [])
    | some (ptr, arena) ↦
        let d' = record d { arena = arena } in
        elim (deserialize body) [
          | Parsed.throws e ↦ (d', [])
          | Parsed.ok pkt ↦
              let (node, passed) = receive_packet d.secure_node a.arrival in
              let event = metric a.stamp c_fd body passed in
              (
                record d' {
                  secure_node = node;
                  telemetry_queue = (push queue_bits d.telemetry_queue event).0;
                },
                (event, throughput body passed) ∷ [],
              )
        ]
  ]

  unfoldable pub close_all : K.State → List ℕ → K.State
  close_all kernel [] = kernel
  close_all kernel (fd ∷ fds) = close_all (close kernel fd) fds

  -- What the destructor of a connection does to the epoll instance.
  unfoldable pub release : K.State → Connection → K.State
  release kernel c = close_all kernel (close_socket c.socket).1

  abbrev pub with_kernel : Daemon K → K.State → Daemon K
  with_kernel d kernel = record d { loop = record (d.loop) { kernel = kernel } }

  -- The bytes of a client, which are not empty.
  unfoldable pub feed :
      Daemon K → ℕ → Answers → ClientContext → Bytes → Option (Daemon K × List Post)
  feed d c_fd a ctx raw_bytes =
      let (parser, returned) = parse_chunk can_reserve ctx.parser raw_bytes in
      elim returned [
        | none ↦ none
        | some false ↦ some (
          record d {
            active_connections = assign c_fd (record ctx { parser = parser }) d.active_connections;
          },
          [],
        )
        | some true ↦
            let (d', posts) = serve d c_fd a parser.request.body in
            some (
              record d' {
                arena = Arena.reset d'.arena;
                active_connections =
                    assign c_fd (record ctx { parser = Http.reset }) d.active_connections;
              },
              posts,
            )
      ]

  -- The lambda of a client's socket; none is an exception.
  unfoldable pub on_read : ℕ → Answers → Daemon K → Option (Daemon K × List Post)
  on_read c_fd a d = elim (find c_fd d.active_connections) [
    | none ↦ some (d, [])
    | some ctx ↦ elim (receive_data ctx.connection a.received) [
      | Reading.throws ↦ none
      | Reading.returns raw_bytes connection closed ↦
          let kernel = close_all d.loop.kernel closed in
          elim raw_bytes [
            | [] ↦ some (
              with_kernel (record d { active_connections = erase c_fd d.active_connections })
                  (release kernel connection),
              [],
            )
            | b ∷ bs ↦
                feed (with_kernel d kernel) c_fd a (record ctx { connection = connection }) (b ∷ bs)
          ]
    ]
  ]

  -- A context that is assigned over destroys its connection.
  unfoldable pub displaced : K.State → Option ClientContext → K.State
  displaced kernel none = kernel
  displaced kernel (some ctx) = release kernel ctx.connection

  abbrev pub fresh_client : ℕ → ClientContext
  fresh_client fd = record {
    connection = record { socket = record { fd = some fd }; remote_ip = []; remote_port = none };
    parser = Http.reset;
  }

  -- The lambda of the listening socket; none is an exception.
  unfoldable pub on_accept : List (Option ℕ) → Daemon K → Option (Daemon K)
  on_accept [] d = some d
  on_accept (none ∷ rest) d = none
  on_accept (some fd ∷ rest) d =
      let kernel = displaced d.loop.kernel (find fd d.active_connections) in
      elim (register_event K (record (d.loop) { kernel = kernel }) fd event_read
        (some Callback.read_client)) [
          | none ↦ none
          | some loop ↦ on_accept rest (record d {
            active_connections = assign fd (fresh_client fd) d.active_connections;
            loop = loop;
          })
        ]

  -- The daemon with what it has posted and how many handlers have run.
  pub record World : Type 0 where
    pub daemon : Daemon K
    pub posts : List Post
    pub handled : ℕ

  module _ (answers : ℕ → Answers) where
    abbrev pub with_daemon : World → Option (Daemon K × List Post) → Option World
    with_daemon w none = none
    with_daemon w (some (d, posts)) =
        some (record { daemon = d; posts = w.posts ++ posts; handled = w.handled + 1 })

    abbrev pub without_posts : Option (Daemon K) → Option (Daemon K × List Post)
    without_posts none = none
    without_posts (some d) = some (d, [])

    unfoldable pub run_callback : Callback → ℕ → ℕ → World → Option World
    run_callback Callback.accept_clients fd filter w =
        with_daemon w (without_posts (on_accept (answers w.handled).accepted w.daemon))
    run_callback Callback.read_client fd filter w =
        with_daemon w (on_read fd (answers w.handled) w.daemon)

    -- Rounds of the endless loop, with what `epoll_wait` answers in each; none is the exception that ends
    -- the daemon.
    unfoldable pub rounds : List Waited → World → Option World
    rounds [] w = some w
    rounds (waited ∷ rest) w = elim (poll_once K (λ v. v.daemon.loop) run_callback waited w) [
      | none ↦ none
      | some w' ↦ rounds rest w'
    ]

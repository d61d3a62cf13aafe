-- ===== src/Daemon/Tests.antt =====
-- Runs of the daemon's handlers (core-engine/src/main/core_engine.cpp) on concrete inputs.
use network_simulator_platfo.Common.{
  ℕ, ◌≡◌, refl, Bool, true, false, none, some, [], ◌∷◌, arith, drop, replicate,
}
use network_simulator_platfo.Common.Map.{find, assign, nat_key}
use network_simulator_platfo.Common.Words.{Bytes}
use network_simulator_platfo.Packet.{of_vector, deserialize, read_header, ok, throws, too_small}
use network_simulator_platfo.Node.{receive_packet}
use network_simulator_platfo.Spsc.{push}
use network_simulator_platfo.Monitor.{MetricEvent}
use network_simulator_platfo.Http.{
  HttpState, HttpRequest, HttpSim, content_length_key, goes, consume_all, consume, dispatch,
}
use network_simulator_platfo.Http
use network_simulator_platfo.Http.Number.{
  stoul, skip_spaces, signed, unsigned, negated, in_range, read_digits, starts_with_digit,
}
use network_simulator_platfo.Http.Print.{Message, IsPrintable, print, at}
use network_simulator_platfo.Connection.{Received}
use network_simulator_platfo.EventLoop.Listed.{listed, listed-IsEpoll, unwatch, unwatch_closes}
use network_simulator_platfo.Daemon.{
  Daemon, ClientContext, Answers, Callback, metric, throughput, queue_bits, env_flag_enabled,
  on_read, on_accept,
}
use network_simulator_platfo.Daemon.Serving.{IsReady, on_read-serves, on_read-rejects}
use network_simulator_platfo.Daemon.Steps.{IsStep}
use network_simulator_platfo.Daemon.Clients.{on_read-IsStep, on_accept_again}

abbrev roomy : ℕ → Bool
roomy n = true

-- "A /b V", with the header "Content-Length: 8" and a packet of two bytes.
abbrev greeting_bytes : Bytes
greeting_bytes = 1 ∷ 0 ∷ 0 ∷ 0 ∷ 0 ∷ 2 ∷ 104 ∷ 105 ∷ []

abbrev posted : Message
posted = record {
  method = 65 ∷ [];
  uri = 47 ∷ 98 ∷ [];
  version = 86 ∷ [];
  headers = (content_length_key, 56 ∷ []) ∷ [];
  body = greeting_bytes;
}

posted-IsPrintable : IsPrintable posted
unfolding stoul skip_spaces signed unsigned negated in_range read_digits starts_with_digit
posted-IsPrintable = record {
  method = ground arith;
  uri = ground arith;
  version = ground arith;
  keys = ground arith;
  values = ground arith;
  sized = refl;
}

-- The same with a body of one byte, which is no packet.
abbrev broken : Message
broken = record posted { headers = (content_length_key, 49 ∷ []) ∷ []; body = 7 ∷ [] }

broken-IsPrintable : IsPrintable broken
unfolding stoul skip_spaces signed unsigned negated in_range read_digits starts_with_digit
broken-IsPrintable = record {
  method = ground arith;
  uri = ground arith;
  version = ground arith;
  keys = ground arith;
  values = ground arith;
  sized = refl;
}

-- The parser behind "A /".
abbrev halfway : HttpSim
halfway =
    at HttpState.uri (record { method = 65 ∷ []; uri = []; version = []; headers = []; body = [] })
      (47 ∷ []) [] 0 0

halfway_parsed : consume_all roomy Http.reset (65 ∷ 32 ∷ 47 ∷ []) ≡ goes halfway
unfolding consume_all consume dispatch Http.reset
halfway_parsed = refl

abbrev client : ClientContext
client = record {
  connection = record { socket = record { fd = some 5 }; remote_ip = []; remote_port = none };
  parser = halfway;
}

abbrev no_event : MetricEvent
no_event = record {
  timestamp_us = 0;
  source_node = [];
  dest_node = [];
  packet_size = 0;
  latency_ns = 0;
  dropped = false;
}

abbrev daemon : Daemon listed
daemon = record {
  active_connections = (5, client) ∷ [];
  telemetry_queue = record { buffer = replicate 1024 no_event; head = 0; tail = 0 };
  arena = record { arena_start = 4096; arena_end = 24576; current_cursor = 4096 };
  secure_node = record {
    id = 1;
    name = [];
    ip = record { address = 2130706433 };
    mask = record { mask = 4294967040 };
    mac = [];
    rate_limiter =
        some (record { emission_interval_ns = 200000000; tolerance_ns = 400000000; tat_ns = 0 });
  };
  loop = record {
    callbacks = (3, Callback.accept_clients) ∷ (5, Callback.read_client) ∷ [];
    kernel = 3 ∷ 5 ∷ [];
  };
}

daemon-IsReady : IsReady daemon.arena
daemon-IsReady = record { empty = refl; room = omega arith }

-- What the client sends behind "A /".
abbrev rest_of : Message → Bytes
rest_of m = 98 ∷ drop 4 (print m [])

abbrev answers : Bytes → Answers
answers bytes = record {
  accepted = [];
  received = Received.bytes bytes;
  arrival = 1000;
  stamp = 1001;
}

client_known : find 5 daemon.active_connections ≡ some client
unfolding find
client_known = refl

greeting_read : deserialize greeting_bytes ≡ ok (of_vector 0 (104 ∷ 105 ∷ []))
unfolding deserialize read_header of_vector
greeting_read = refl

on_read-serves_example :
    let (node, passed) = receive_packet daemon.secure_node 1000 in
    let event = metric 1001 5 greeting_bytes passed in
    on_read listed unwatch roomy 5 (answers (rest_of posted)) daemon
    ≡ some (
      record daemon {
        active_connections =
            assign 5 (record client { parser = Http.reset }) daemon.active_connections;
        secure_node = node;
        telemetry_queue = (push queue_bits daemon.telemetry_queue event).0;
      },
      (event, throughput greeting_bytes passed) ∷ [],
    )
unfolding print
on_read-serves_example =
    on_read-serves listed unwatch roomy daemon 5 (answers (rest_of posted)) client
      (65 ∷ 32 ∷ 47 ∷ []) (drop 4 (print posted [])) [] 98 5 posted client_known refl refl
      halfway_parsed refl posted-IsPrintable (omega arith) refl daemon-IsReady
      (of_vector 0 (104 ∷ 105 ∷ [])) greeting_read

short_read : deserialize (7 ∷ []) ≡ throws too_small
unfolding deserialize read_header
short_read = refl

on_read-rejects_example :
    on_read listed unwatch roomy 5 (answers (rest_of broken)) daemon
    ≡ some (
      record daemon {
        active_connections =
            assign 5 (record client { parser = Http.reset }) daemon.active_connections;
      },
      [],
    )
unfolding print
on_read-rejects_example =
    on_read-rejects listed unwatch roomy daemon 5 (answers (rest_of broken)) client
      (65 ∷ 32 ∷ 47 ∷ []) (drop 4 (print broken [])) [] 98 5 broken client_known refl refl
      halfway_parsed refl broken-IsPrintable (omega arith) refl daemon-IsReady too_small short_read

-- What the packet leaves, and what is posted.
abbrev passed_on : Bool
passed_on = (receive_packet daemon.secure_node 1000).1

abbrev counted : MetricEvent
counted = metric 1001 5 greeting_bytes passed_on

abbrev settled : Daemon listed
settled = record daemon {
  active_connections = assign 5 (record client { parser = Http.reset }) daemon.active_connections;
  secure_node = (receive_packet daemon.secure_node 1000).0;
  telemetry_queue = (push queue_bits daemon.telemetry_queue counted).0;
}

on_read-IsStep_example :
    IsStep listed roomy 5
      (answers (rest_of posted))
      daemon
      settled
      ((counted, throughput greeting_bytes passed_on) ∷ [])
on_read-IsStep_example =
    on_read-IsStep listed unwatch roomy daemon settled 5 (answers (rest_of posted))
      ((counted, throughput greeting_bytes passed_on) ∷ []) daemon-IsReady on_read-serves_example

callback_known : find 5 daemon.loop.callbacks ≡ some Callback.read_client
unfolding find
callback_known = refl

on_accept_again_example :
    (d : Daemon listed) × (on_read listed unwatch roomy 5 (answers []) daemon ≡ some (d, []))
    × (find 5 d.active_connections ≡ none)
    × (on_accept listed unwatch roomy (some 5 ∷ []) d ≡ none)
on_accept_again_example =
    on_accept_again listed unwatch roomy listed-IsEpoll unwatch_closes daemon 5 (answers []) client
      Callback.read_client [] client_known refl callback_known refl

flag_read : env_flag_enabled (some (84 ∷ 82 ∷ 117 ∷ 101 ∷ [])) false ≡ true
unfolding env_flag_enabled
flag_read = refl

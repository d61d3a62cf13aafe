-- ===== src/Connection/Tests.antt =====
-- Runs of a connection (core-engine/src/core/connection.cpp) on concrete inputs.
use Prim.Native.Nat.{min}
use network_simulator_platfo.Common.{
  ℕ, ◌≡◌, refl, some, none, [], ◌∷◌, arith, length, ltb, if◌then◌else◌, ◌⊎◌, ◌&&◌, ◌≢◌, true, false,
}
use network_simulator_platfo.Common.Words.{Bytes}
use network_simulator_platfo.Connection.{
  Connection, Sent, Sending, Received, Reading, send_data, send_loop, receive_data, close_socket,
  move_socket, disconnect,
}
use network_simulator_platfo.Connection.Opening.{
  Answers, Connected, throws, opens, given, connect_to, connect_to_lem,
}
use network_simulator_platfo.Connection.Sends.{IsSend, IsSent, send_data-IsSent}

abbrev open_7 : Connection
open_7 = record { socket = record { fd = some 7 }; remote_ip = []; remote_port = some 9090 }

-- Two bytes fit at a time, and after four the socket is full.
abbrev slow : ℕ → Bytes → Sent
slow total bs = if ltb total 4 then Sent.accepted (min 2 (length bs)) else Sent.would_block

slow-IsSend : IsSend slow
slow-IsSend t n bs more e = ground (arith, e)

send_data-IsSent_example :
    (r : Sending) × (send_data slow open_7 (1 ∷ 2 ∷ 3 ∷ 4 ∷ 5 ∷ []) ≡ some r)
    × IsSent slow (1 ∷ 2 ∷ 3 ∷ 4 ∷ 5 ∷ []) r
send_data-IsSent_example = send_data-IsSent slow open_7 (1 ∷ 2 ∷ 3 ∷ 4 ∷ 5 ∷ []) slow-IsSend refl

send_slow :
    send_data slow open_7 (1 ∷ 2 ∷ 3 ∷ 4 ∷ 5 ∷ []) ≡ some (Sending.returns 4 (1 ∷ 2 ∷ 3 ∷ 4 ∷ []))
unfolding send_data send_loop
send_slow = refl

-- The peer has closed: the socket is closed.
peer_closed :
    receive_data open_7 (Received.bytes [])
    ≡ Reading.returns [] (record open_7 { socket = record { fd = none } }) (7 ∷ [])
unfolding receive_data disconnect move_socket close_socket
peer_closed = refl

-- A handshake that is in progress, on descriptor 7.
abbrev handshake : Answers
handshake = record {
  socket = some 7;
  nonblocking = true;
  is_address = true;
  connected = Connected.in_progress;
  nonblocking_again = true;
}

connect_to_lem_example :
    (connect_to handshake [] 9090 ≡ throws (given (some 7)))
    ⊎ ((sock : ℕ) × (some 7 ≡ some sock)
        × (connect_to handshake [] 9090
            ≡ opens
                (record {
                  socket = record { fd = some sock };
                  remote_ip = [];
                  remote_port = some 9090;
                })
                [])
        × (true && true && true ≡ true)
        × (Connected.in_progress ≢ Connected.refused))
connect_to_lem_example = connect_to_lem handshake [] 9090

bad_address : connect_to (record handshake { is_address = false }) [] 9090 ≡ throws (7 ∷ [])
unfolding connect_to close_socket
bad_address = refl

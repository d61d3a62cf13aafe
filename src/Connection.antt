-- ===== src/Connection.antt =====
-- Sockets and connections: core-engine/include/core/connection.hpp and
-- core-engine/src/core/connection.cpp. What a system call answers is a parameter, and a function that
-- closes descriptors returns them.
pub mod Sends
pub mod Opening
mod Tests
use network_simulator_platfo.Common.{
  ℕ, zero, suc, ◌+◌, ◌-◌, Bool, true, false, Option, none, some, List, [], ◌∷◌, ◌++◌, length, take,
  drop, ltb, if◌then◌else◌,
}
use network_simulator_platfo.Common.Words.{Bytes}

-- The descriptor; none for -1.
pub record SocketFd : Type 0 where
  pub fd : Option ℕ

abbrev pub is_valid : SocketFd → Bool
is_valid s = elim s.fd [ none ↦ false | some fd ↦ true ]

-- `close_socket`, and the destructor: what is left, and what was closed.
unfoldable pub close_socket : SocketFd → SocketFd × List ℕ
close_socket s = elim s.fd [ none ↦ (s, []) | some fd ↦ (record { fd = none }, fd ∷ []) ]

-- `operator=(SocketFD&& other)` for two objects: both sockets, and what was closed.
unfoldable pub move_socket : SocketFd → SocketFd → SocketFd × SocketFd × List ℕ
move_socket this other = (record { fd = other.fd }, record { fd = none }, (close_socket this).1)

pub record Connection : Type 0 where
  pub socket : SocketFd
  pub remote_ip : Bytes
  -- none until `connect_to` sets it: the constructor leaves it uninitialised.
  pub remote_port : Option ℕ

-- `disconnect`
unfoldable pub disconnect : Connection → Connection × List ℕ
disconnect c =
    let (socket, empty, closed) = move_socket c.socket (record { fd = none }) in
    (record c { socket = socket }, closed)

-- What `recv` answers.
pub data Received : Type 0 where
  bytes : Bytes → Received
  would_block failed : Received

-- An exception, or what is returned with the connection and what was closed.
pub data Reading : Type 0 where
  throws : Reading
  returns : Bytes → Connection → List ℕ → Reading

abbrev pub read_bytes : Connection → Bytes → Reading
read_bytes c [] = let (c', closed) = disconnect c in returns [] c' closed
read_bytes c (b ∷ bs) = returns (b ∷ bs) c []

-- `receive_data`
unfoldable pub receive_data : Connection → Received → Reading
unfolding disconnect
receive_data c received =
    if is_valid c.socket
    then elim received [
      | bytes bs ↦ read_bytes c bs
      | would_block ↦ returns [] c []
      | failed ↦ throws
    ]
    else throws

-- What `send` answers.
pub data Sent : Type 0 where
  accepted : ℕ → Sent
  would_block failed : Sent

-- How `send_data` ends: with the number of bytes sent, or by an exception; the bytes that were sent
-- come with it.
pub data Sending : Type 0 where
  returns : ℕ → Bytes → Sending
  throws : Bytes → Sending

-- The loop of `send_data` with fuel, where `send` answers by the number of bytes that were sent before;
-- none where the fuel has run out.
unfoldable pub send_loop : (ℕ → Bytes → Sent) → ℕ → Bytes → ℕ → Bytes → Option Sending
send_loop send zero text total_sent wire = none
send_loop send (suc fuel) text total_sent wire =
    let rest = drop total_sent text in
    if ltb total_sent (length text)
    then elim (send total_sent rest) [
      | accepted n ↦ send_loop send fuel text (total_sent + n) (wire ++ take n rest)
      | would_block ↦ some (Sending.returns total_sent wire)
      | failed ↦ some (Sending.throws wire)
    ]
    else some (Sending.returns total_sent wire)

-- `send_data`; a `ssize_t` does not overflow, since a vector is shorter. The fuel is enough where
-- `send` takes at least one byte each time.
unfoldable pub send_data : (ℕ → Bytes → Sent) → Connection → Bytes → Option Sending
send_data send c text =
    if is_valid c.socket
    then send_loop send (suc (length text)) text 0 []
    else some (Sending.throws [])

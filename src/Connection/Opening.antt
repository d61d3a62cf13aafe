-- ===== src/Connection/Opening.antt =====
-- How a connection is opened: the constructor and `connect_to`
-- (core-engine/src/core/connection.cpp), and `start` and `accept_connection`
-- (core-engine/src/core/tcp_server.cpp). A destructor closes what an exception leaves behind.
use network_simulator_platfo.Common.{
  ℕ, ◌≡◌, ◌≢◌, ◌⊎◌, inl, inr, refl, Bool, true, false, Option, none, some, List, [], ◌∷◌, ◌&&◌,
  if◌then◌else◌,
}
use network_simulator_platfo.Common.Words.{Bytes}
use network_simulator_platfo.Connection.{SocketFd, Connection, close_socket, move_socket}

-- An exception with what was closed on the way, or a value with what was closed.
pub data Opened (A : Type 0) : Type 0 where
  throws : List ℕ → Opened A
  opens : A → List ℕ → Opened A

-- `Connection(SocketFD&&)`, where the two calls of `fcntl` succeed or not. The socket is a member when
-- they run, so an exception closes it.
unfoldable pub of_socket : Bool → SocketFd → Opened Connection
unfolding close_socket
of_socket nonblocking socket = elim socket.fd [
  | none ↦ opens (record { socket = socket; remote_ip = []; remote_port = none }) []
  | some fd ↦
      if nonblocking
      then opens (record { socket = socket; remote_ip = []; remote_port = none }) []
      else throws (close_socket socket).1
]

-- What `connect` answers.
pub data Connected : Type 0 where
  done in_progress refused : Connected

-- What the system calls of `connect_to` answer; the second `nonblocking` is the constructor's.
pub record Answers : Type 0 where
  pub socket : Option ℕ
  pub nonblocking : Bool
  pub is_address : Bool
  pub connected : Connected
  pub nonblocking_again : Bool

abbrev pub has_remote : Bytes → ℕ → Opened Connection → Opened Connection
has_remote ip port (throws closed) = throws closed
has_remote ip port (opens c closed) =
    opens (record c { remote_ip = ip; remote_port = some port }) closed

abbrev pub connected_to : Answers → Bytes → ℕ → SocketFd → Connected → Opened Connection
connected_to a ip port socket refused = throws (close_socket socket).1
connected_to a ip port socket done = has_remote ip port (of_socket a.nonblocking_again socket)
connected_to a ip port socket in_progress =
    has_remote ip port (of_socket a.nonblocking_again socket)

-- `connect_to`
unfoldable pub connect_to : Answers → Bytes → ℕ → Opened Connection
unfolding close_socket
connect_to a ip port = elim a.socket [
  | none ↦ throws []
  | some sock ↦
      let safe_socket : SocketFd = record { fd = some sock } in
      if a.nonblocking
      then if a.is_address
        then connected_to a ip port safe_socket a.connected
        else throws (close_socket safe_socket).1
      else throws (close_socket safe_socket).1
]

-- What `accept` answers.
pub data Accepted : Type 0 where
  client : ℕ → Accepted
  would_block failed : Accepted

-- `accept_connection`; none is the null pointer.
abbrev pub owned : Opened Connection → Opened (Option Connection)
owned (throws closed) = throws closed
owned (opens c closed) = opens (some c) closed

unfoldable pub accept_connection : Accepted → Bool → Opened (Option Connection)
accept_connection (client client_sock) nonblocking =
    owned (of_socket nonblocking (record { fd = some client_sock }))
accept_connection would_block nonblocking = opens none []
accept_connection failed nonblocking = throws []

pub record TcpServer : Type 0 where
  pub port : ℕ
  pub server_socket : SocketFd

-- `start`: the socket that `socket` gives, and whether `setsockopt`, `fcntl`, `bind` and `listen` succeed.
-- The server, whether it returns, and what was closed; an exception leaves the socket with the server.
unfoldable pub start : TcpServer → Option ℕ → Bool → Bool → Bool → Bool → TcpServer × Bool × List ℕ
unfolding move_socket
start s none reusable nonblocking bound listening = (s, false, [])
start s (some sock) reusable nonblocking bound listening =
    let (socket, left, closed) = move_socket s.server_socket (record { fd = some sock }) in
    (record s { server_socket = socket }, reusable && nonblocking && bound && listening, closed)

-- `stop`
unfoldable pub stop : TcpServer → TcpServer × List ℕ
unfolding move_socket
stop s =
    let (socket, empty, closed) = move_socket s.server_socket (record { fd = none }) in
    (record s { server_socket = socket }, closed)

-- The descriptor that `socket` has opened.
abbrev pub given : Option ℕ → List ℕ
given none = []
given (some sock) = sock ∷ []

abbrev answered : Bytes → ℕ → Option ℕ → Bool → Bool → Connected → Bool → Opened Connection
answered ip port s n i c m =
    connect_to
      (record { socket = s; nonblocking = n; is_address = i; connected = c; nonblocking_again = m })
      ip port

-- `connect_to` leaks no socket: either it throws and has closed the descriptor that it has opened, or it
-- returns the connection on that descriptor with the address and the port, has closed nothing, and every
-- call has succeeded, where `connect` may still be in progress.
pub connect_to_lem :
    (a : Answers) (ip : Bytes) (port : ℕ)
    → (connect_to a ip port ≡ throws (given a.socket))
      ⊎ ((sock : ℕ) × (a.socket ≡ some sock)
          × (connect_to a ip port
              ≡ opens
                  (record {
                    socket = record { fd = some sock };
                    remote_ip = ip;
                    remote_port = some port;
                  })
                  [])
          × (a.nonblocking && a.is_address && a.nonblocking_again ≡ true)
          × (a.connected ≢ Connected.refused))
unfolding connect_to of_socket close_socket
connect_to_lem a ip port = cases a.socket a.nonblocking a.is_address a.connected a.nonblocking_again
  where
    cases :
        (s : Option ℕ) (n i : Bool) (c : Connected) (m : Bool)
        → (answered ip port s n i c m ≡ throws (given s))
          ⊎ ((sock : ℕ) × (s ≡ some sock)
              × (answered ip port s n i c m
                  ≡ opens
                      (record {
                        socket = record { fd = some sock };
                        remote_ip = ip;
                        remote_port = some port;
                      })
                      [])
              × (n && i && m ≡ true)
              × (c ≢ Connected.refused))
    cases none n i c m = inl refl
    cases (some s) false i c m = inl refl
    cases (some s) true false c m = inl refl
    cases (some s) true true Connected.refused m = inl refl
    cases (some s) true true Connected.done false = inl refl
    cases (some s) true true Connected.in_progress false = inl refl
    cases (some s) true true Connected.done true = inr (s, refl, refl, refl, λ e. cc)
    cases (some s) true true Connected.in_progress true = inr (s, refl, refl, refl, λ e. cc)

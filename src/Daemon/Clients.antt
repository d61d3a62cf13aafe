-- ===== src/Daemon/Clients.antt =====
-- The handlers of core-engine/src/main/core_engine.cpp seen from the clients, and a client that comes
-- back on a descriptor that was closed.
use network_simulator_platfo.Common.{
  ℕ, ◌≡◌, inl, inr, refl, ◌∙◌, sym, ap, subst, Bool, false, Option, none, some, List, [], ◌∷◌,
  arith, Option-cases, ==_iff,
}
use network_simulator_platfo.Common.Map.{find, erase, nat_key, find-erase}
use network_simulator_platfo.Connection.{
  Connection, Received, Reading, receive_data, close_socket, disconnect, move_socket,
}
use network_simulator_platfo.EventLoop.{Epoll}
use network_simulator_platfo.EventLoop.Registered.{IsEpoll, register_event_closed}
use network_simulator_platfo.Daemon.{
  event_read, Daemon, ClientContext, Answers, Post, Callback, close_all, release, on_read,
  on_accept, displaced, with_kernel,
}
use network_simulator_platfo.Daemon.Serving.{IsReady}
use network_simulator_platfo.Daemon.Steps.{
  IsStep, received_some, received_none, seen, idle, feed-IsStep, erased,
}

module _ (K : Epoll) (close : K.State → ℕ → K.State) (can_reserve : ℕ → Bool) where
  -- Where the arena is empty and a packet fits in it, a client's handler that returns leaves the arena, the
  -- callbacks and the other clients as they were. Where the bytes that it reads complete a request of
  -- that client, and the request's body is a packet, it asks the rate limiter once, pushes the metric of
  -- that body and posts it; in all other cases it leaves the limiter and the queue alone and posts nothing.
  pub on_read-IsStep :
      (d d' : Daemon K) (c_fd : ℕ) (a : Answers) (posts : List Post)
      → IsReady d.arena
      → on_read K close can_reserve c_fd a d ≡ some (d', posts)
      → IsStep K can_reserve c_fd a d d' posts
  unfolding on_read
  on_read-IsStep d d' c_fd a posts ready e = elim (Option-cases (find c_fd d.active_connections)) [
    | inl missing ↦
        let out : Daemon K × List Post = (d, []) in
        let result : Daemon K × List Post = (d', posts) in
        let is : some out ≡ some result = simp (missing, on_read) at e in
        let same : out ≡ result = cc in
        subst (λ r. IsStep K can_reserve c_fd a d r.0 r.1) same
          (idle K close can_reserve d d c_fd a refl refl (λ f h. refl) refl refl
            (λ body c. let is : none ≡ some c.ctx = sym missing ∙ c.known in cc))
    | inr (ctx, known) ↦ cases ctx known (receive_data ctx.connection a.received) refl
  ]
    where
      cases :
          (ctx : ClientContext)
          → find c_fd d.active_connections ≡ some ctx
          → (r : Reading) → receive_data ctx.connection a.received ≡ r
          → IsStep K can_reserve c_fd a d d' posts
      cases ctx known Reading.throws r =
          let stuck : ◌≡◌ {A = Option (Daemon K × List Post)} none (some (d', posts)) =
            simp (known, r, on_read) at e in
          cc
      cases ctx known (Reading.returns [] connection closed) r =
          let gone : Daemon K =
            with_kernel K close can_reserve
              (record d { active_connections = erase c_fd d.active_connections })
              (release K close can_reserve (close_all K close can_reserve d.loop.kernel closed)
                connection) in
          let out : Daemon K × List Post = (gone, []) in
          let result : Daemon K × List Post = (d', posts) in
          let is : some out ≡ some result = simp (known, r, on_read) at e in
          let same : out ≡ result = cc in
          subst (λ r. IsStep K can_reserve c_fd a d r.0 r.1) same
            (idle K close can_reserve d gone c_fd a refl refl
              (λ f. erased d.active_connections c_fd f) refl refl
              (λ body c.
                received_none ctx.connection c.first c.others
                  (ap (λ x. seen (receive_data ctx.connection x)) (sym c.read) ∙ ap seen r)))
      cases ctx known (Reading.returns (b ∷ bs) connection closed) r =
          let kernel = close_all K close can_reserve d.loop.kernel closed in
          let i =
            feed-IsStep K close can_reserve (with_kernel K close can_reserve d kernel) d' c_fd a ctx
              connection b bs posts ready known
              (received_some ctx.connection a.received b bs (ap seen r))
              (simp (known, r, on_read) at e) in
          record {
            arena = i.arena;
            callbacks = i.callbacks;
            others = i.others;
            counted = i.counted;
            uncounted = i.uncounted;
          }

  peer_gone :
      (fd : ℕ) (c : Connection) (received : Received)
      → c.socket.fd ≡ some fd
      → received ≡ Received.bytes []
      → receive_data c received
        ≡ Reading.returns [] (record c { socket = record { fd = none } }) (fd ∷ [])
  unfolding receive_data disconnect move_socket close_socket
  peer_gone fd c received own gone = rw (gone, own, receive_data) refl

  -- Where `epoll_ctl` fails as its manual says (EEXIST, ENOENT) and a closed descriptor leaves the
  -- epoll instance: when the peer of a client with a callback has closed, the handler forgets the
  -- client and closes its descriptor, but its callback stays, and the next client that is accepted
  -- on the same descriptor ends the daemon by an exception of `register_event`.
  pub on_accept_again :
      (docs : IsEpoll K)
      → ((s : K.State) (fd : ℕ) → K.interest (close s fd) fd ≡ false)
      → (d : Daemon K) (fd : ℕ) (a : Answers) (ctx : ClientContext) (callback : Callback)
        (rest : List (Option ℕ))
      → find fd d.active_connections ≡ some ctx
      → ctx.connection.socket.fd ≡ some fd
      → find fd d.loop.callbacks ≡ some callback
      → a.received ≡ Received.bytes []
      → (d' : Daemon K) × (on_read K close can_reserve fd a d ≡ some (d', []))
        × (find fd d'.active_connections ≡ none)
        × (on_accept K close can_reserve (some fd ∷ rest) d' ≡ none)
  unfolding on_read on_accept close_all release close_socket displaced
  on_accept_again docs closes d fd a ctx callback rest known own registered gone =
      let d' =
        with_kernel K close can_reserve
          (record d { active_connections = erase fd d.active_connections })
          (close d.loop.kernel fd) in
      let forgotten : find fd (erase fd d.active_connections) ≡ none =
        find-erase fd fd d.active_connections ∙ ground (arith, ==_iff fd fd) in
      let fails =
        register_event_closed K docs d'.loop fd event_read callback (some Callback.read_client)
          registered (closes d.loop.kernel fd) in
      (
        d',
        simp (known, peer_gone fd ctx.connection a.received own gone, on_read) refl,
        forgotten,
        simp (forgotten, fails, on_accept) refl,
      )

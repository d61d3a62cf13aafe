-- ===== src/Lib.antt =====
-- Verification of the core engine of the network simulator platform (C++, core-engine/).
--
-- The engine receives HTTP requests on non-blocking sockets, limits and guards them, simulates
-- packets and routes, and reports metrics. The parts and the files that model them, with paths from
-- the repository's root:
--
-- Spsc models SpscRingBuffer, the queue between the packet path and the monitor
-- (core-engine/include/system/event_queue.hpp). push, pop and size keep their names; Spsc/Threads
-- has push and pop one access to memory at a time, for a producer and a consumer in any order.
-- Http models HttpSim (core-engine/include/protocols/http_sim.hpp, core-engine/src/protocols/http_sim.cpp).
-- parse_chunk is the loop consume_all over dispatch, one clause for each state; store_header is
-- the end of a header line. Http/Number has std::stoul as the C++ standard documents it.
-- Limiter models GcraRateLimiter (core-engine/include/network/rate_limiter.hpp). allow is the call of one
-- thread; Limiter/Threads has the compare-and-swap loop of any number of threads.
-- Breaker models CircuitBreaker (core-engine/include/network/circuit_breaker.hpp,
-- core-engine/src/network/circuit_breaker.cpp), each call with the readings of the clock it makes.
-- Packet models Packet (core-engine/include/core/packet.hpp, core-engine/src/core/packet.cpp).
-- Arena models MemoryArena (core-engine/include/core/memory_arena.hpp), with addresses as numbers.
-- Addressing models IPv4Address and SubnetMask (core-engine/include/network/addressing.hpp,
-- core-engine/src/network/addressing.cpp). parse is the constructor from text, of_prefix and
-- parse_mask those of a mask.
-- Node models Node (core-engine/include/network/node.hpp, core-engine/src/network/node.cpp), which uses
-- Limiter and Addressing.
-- Router models Router (core-engine/include/network/router.hpp, core-engine/src/network/router.cpp), which
-- uses Node, Addressing and Breaker: the breakers of the links and lookup_route.
-- Router/Routes models its compute_routes: search is the outer loop, expand one round, scan the
-- inner loop, price what it asks of a breaker, relax the comparison of the distances, first_hop
-- the loop along the parents and fill the loop that fills the table. The priority queue is a list
-- in order, and a map is iterated in the order of its entries.
-- Monitor models TelemetryMonitor (core-engine/include/system/monitor.hpp,
-- core-engine/src/system/monitor.cpp), a client of Spsc: count_event and drain are the inner loop,
-- tick and publish what follows it.
-- Backoff models Backoff (core-engine/include/network/backoff.hpp).
-- Arp models ArpCache (core-engine/include/network/arp.hpp, core-engine/src/network/arp.cpp); a node
-- of its list has a number, which stands for an iterator.
-- Telemetry models TelemetryHttpClient (core-engine/include/system/telemetry_http_client.hpp,
-- core-engine/src/system/telemetry_http_client.cpp): parse_endpoint and escape_json, Telemetry/Request
-- to_json and the text of a request, Telemetry/Post the calls that post_sample makes, with a trace.
-- Connection models SocketFD and Connection (core-engine/include/core/connection.hpp,
-- core-engine/src/core/connection.cpp); Connection/Opening has its constructor and connect_to, and
-- TcpServer (core-engine/include/core/tcp_server.hpp, core-engine/src/core/tcp_server.cpp).
-- EventLoop models KqueueEventLoop (core-engine/include/system/event_loop.hpp,
-- core-engine/src/system/event_loop.cpp) as compiled on Linux.
-- Daemon models the handlers and the loop of core-engine/src/main/core_engine.cpp: on_accept and on_read
-- are the two callbacks, serve the try block, rounds the endless loop. It joins EventLoop, Connection,
-- Http, Arena, Packet, Node, Spsc and Monitor's events. Daemon/Steps says what one run of a client's
-- handler may do.
--
-- Words of w bits are numbers below 2 ^ w with the wrap-around written out; a byte and a char are a
-- number. Loops are recursions on the list they run over, or they run on fuel: to_prefix_length
-- with 33 rounds for the 32 bits of a mask; the monitor's drain with one round more than there are
-- events; the search of compute_routes with the length of the heap, the sum of the distances at its
-- start, and one, since each push lowers a distance; the loop along the parents with the number of
-- nodes and one, since the parents are a tree; the loops over send with the length of the text and
-- one, since each round sends a byte.
--
-- Parameters: whether std::vector::reserve finds the memory (Http), the type double (Limiter, Monitor)
-- and how it is written (Telemetry), the readings of the clocks (Breaker, Limiter, Monitor, Router,
-- Daemon), the random draw (Backoff), the storage's address (Arena), the answers of the system calls
-- on sockets (Connection, Telemetry, Daemon) and the epoll instance (EventLoop), of which the manual's
-- EEXIST and ENOENT, and that a closed descriptor leaves the instance, are hypotheses.
--
-- Not modelled: the demo publisher, the set-up and the console of
-- core-engine/src/main/core_engine.cpp; the macOS branches of the event loop; the message class; the
-- scripted checks of core-engine/src/main/controller.cpp; and the services, tools and the dashboard in
-- other languages.
pub mod Common
pub mod Packet
pub mod Arena
pub mod Breaker
pub mod Limiter
pub mod Http
pub mod Spsc
pub mod Addressing
pub mod Node
pub mod Router
pub mod Monitor
pub mod Backoff
pub mod Telemetry
pub mod Arp
pub mod Connection
pub mod EventLoop
pub mod Daemon

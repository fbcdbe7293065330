-- ===== src/Lib.antt =====
-- A library of 0rtt, QUIC over `quiche` for polled and asynchronous programs.
--
-- The parts of the program, and the files that model them:
--
-- crates/api/src/lib.rs (Api.antt) has the types that all crates share: `Error`, `Event`, stream
-- ids. crates/api/src/acceptor.rs (Acceptor.antt, proofs in Acceptor/) mints and validates retry
-- tokens (`mint_retry_token`, `validate_address` as `validate` and `check_token`) and performs the
-- handshake of a server (`Acceptor::handshake` as `shake`).
--
-- crates/poll is a group of connections that many threads drive. readiness.rs (Readiness.antt) keeps
-- the events that are ready and those that wait for an instant: `insert`, `remove` and `poll` are
-- `insert_event`, `remove_event` and `poll`. utils.rs (Timing.antt) says when a connection has
-- something to send. conn.rs (Conn.antt, Conn/Handlers.antt, Conn/Methods.antt) is a connection with
-- its lock: an operation takes the lock (`try_lock_prv`), uses the `quiche` connection and unlocks,
-- and `unlock` retries what waited, announces streams and schedules the next packet. `close`,
-- `stream_open` and `stream_close` of it are `close_conn`, `open_stream` and `close_stream`. group.rs
-- (Group.antt, Group/Driving.antt, Group/Serving.antt) is the map of connections by token and by id:
-- `Group` joins the fields of `State` and `Group`, `lock!` is `lock`, and the drop of a guard is
-- `release`, which calls `Group::unlock`. Group/Reaching.antt has the relation of whole operations in
-- any order.
--
-- crates/ringbuff has a ring buffer (ringbuf.rs: RingBuf.antt) and a pipe over it (pipe.rs:
-- Pipe.antt); the spin lock of the pipe is the step relation of Pipe/Lock.antt. crates/fixedbuf
-- (FixedBuf.antt) is a buffer of a fixed capacity.
--
-- crates/mio binds a group to UDP sockets. udp.rs (Udp.antt) is a socket with a queue of the packets
-- that it could not send: `is_full` is `full`, the loop of `flush` is `flush_queue`, and `send_to` is
-- `send_to` with its parts `try_flush` and `enqueue`. group.rs (Mio.antt, Mio/Operations.antt,
-- Mio/Packets.antt, Mio/Looping.antt) joins `Group` and `PollState` in `Bound`: `bind`, the wrappers of
-- the operations, `on_quic_send`, `on_udp_recv` with its inner loops `serve` and `pass_on`, and the loop
-- `poll` over `mio_poll_once`; Mio/Reaching.antt has the relation of polls and of the critical sections
-- that other threads run before and between them.
--
-- crates/futures/src/lib.rs (Futures.antt, Futures/Tasks.antt, Futures/Streams.antt) serves tasks over
-- any group that has the traits `QuicPoll`, `QuicClient` and `QuicBind`, here the record `QuicBind`.
-- Its background thread dispatches the events of the group to queues and wakers (`run_once`, with
-- the poll of the group and the dispatch as one step, `dispatch_kind`, the functions `on_...`), and a future is modelled by one poll of it. A function of
-- `State` is one critical section of the mutex; where a future frees the mutex, what other threads do
-- is an argument, and Futures/Stepping.antt has the relation of all critical sections in any order.
--
-- What third-party code does is a parameter: `quiche::Connection` and the functions of its crate are
-- the records of Quiche.antt, the crate priority_queue is `PriorityQueue` of Readiness.antt, the
-- digest of the retry tokens is `sha256`, `mio::net::UdpSocket` is `UdpSocket` of Udp.antt, and what the
-- poller of mio returns is an argument. Their laws state documented behaviour. A connection is
-- taken to keep its source id, since the code never gives it another. Tests/Heap.antt and
-- Tests/Peer.antt have instances that meet all the laws.
--
-- State is passed explicitly, a `panic!`, a failed `assert!` or `unwrap` is `panic` of
-- Prelude/Panics.antt, and errors are values. Numbers are natural numbers, with the wrap-around of
-- u32 and u64 written out; a usize is a u64. HashMap and HashSet are lists: a theorem ranges over
-- all orders of iteration. Instants are numbers, one argument for each reading of the clock, random
-- bytes are arguments, and log calls are left out.
--
-- Loops: the loop of `Readiness::poll` has fuel for each event of the queue, the loops over readable
-- and writable streams for each stream of the queue, the loop of `register` for one more token than
-- there are connections; that this is enough is part of the theorems on `poll`, `unlock` and
-- `register`. The other loops are recursion on lists.
--
-- Loops that wait for the network or for another thread (`run`, `poll`, `on_udp_recv`, `serve` and
-- `pass_on`) are followed for a list of rounds, each with what the environment does in it, and have no
-- result where they still run after the last.
--
-- Not modelled: the facade crates/zerortt; the constructors of crates/futures that spawn the background
-- thread; metrics and logs. A definition of an operation of a
-- group runs its critical sections one after another; the sections of many threads in any order are the
-- step relation of Group/Interleaving.antt, where `unlock` and `deregister` are two sections each
-- (`unlock_conn`, then `remove_conn` and `forget_id`), and a guard whose connection was removed is not
-- followed any further. The pipe and the
-- tasks of crates/futures have such relations too (Pipe/Lock.antt, Futures/Stepping.antt).
-- The ring buffer is not followed past 2^64 bytes.
pub mod Prelude
pub mod Api
pub mod Net
pub mod FixedBuf
pub mod RingBuf
pub mod Pipe
pub mod Quiche
pub mod Readiness
pub mod Timing
pub mod Conn
pub mod Acceptor
pub mod Group
pub mod Futures
pub mod Udp
pub mod Mio
pub mod Tests

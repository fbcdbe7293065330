-- ===== src/Group/Serving.antt =====
-- crates/poll/src/group.rs: packets of any connection, and new connections.
use rtt.Prelude.{ℕ, Option, none, List, ◌++◌, Checked, value, panic, ◌>>=◌, drop, slice}
use rtt.Prelude.Io.{ok, err}
use rtt.Api.{quiche, retry, busy, not_found}
use rtt.Net.{SocketAddr, RecvInfo, SendInfo}
use rtt.Quiche.{Quiche, Header, Endpoint}
use rtt.Readiness.{PriorityQueue}
use rtt.Conn.{Outcome}
use rtt.Acceptor.{Acceptor, handshake, accept, shake}
use rtt.Group.{Group, register}
use rtt.Group.Driving.{recv_with_connection_id, send}

module _ (q : Quiche) (e : Endpoint q) (pq : PriorityQueue) where
  -- `QuicTransport::recv`, with the caller's buffer after the call
  unfoldable pub recv :
      Group q pq → List ℕ → RecvInfo → ℕ → Checked (Group q pq × List ℕ × Outcome q ℕ)
  recv g buf info now = elim (e.header_from_slice buf) [
    | err x ↦ value (g, buf, err (quiche x))
    | ok header ↦ (do
      (g', buf', r) ← recv_with_connection_id q pq g header.dcid buf info none now
      value (g', buf', elim r [ ok (token, size) ↦ ok size | err x ↦ err x ]))
  ]

  -- the instants that `recv_with_acceptor` reads
  pub record Clock : Type 0 where
    pub handshake_at : ℕ
    pub register_at : ℕ
    pub recv_at : ℕ
    pub send_at : ℕ
    pub unlock_at : ℕ
    pub end_at : ℕ

  abbrev pub nothing : RecvInfo → ℕ → ℕ → ℕ × SendInfo
  nothing info size now = (size, record { at = now; from = info.to; to = info.from })

  -- the match on the result of `send`
  abbrev pub settle : RecvInfo → ℕ → Outcome q (ℕ × SendInfo) → Outcome q (ℕ × SendInfo)
  settle info now (err busy) = ok (nothing info 0 now)
  settle info now (err retry) = ok (nothing info 0 now)
  settle info now r = r

  unfoldable pub send_back :
      Group q pq
      → ℕ
      → List ℕ
      → RecvInfo
      → Clock
      → Checked (Group q pq × List ℕ × Outcome q (ℕ × SendInfo))
  send_back g token buf info clock = do
    (g', buf', r) ← send q pq g token buf clock.send_at clock.unlock_at
    value (g', buf', settle info clock.end_at r)

  -- the part of `recv_with_acceptor` for a connection just accepted: `panic` at the `unreachable!`
  unfoldable pub serve_accepted :
      Group q pq
      → q.Connection
      → Header
      → List ℕ
      → ℕ
      → RecvInfo
      → Clock
      → Checked (Group q pq × List ℕ × Outcome q (ℕ × SendInfo))
  unfolding send_back
  serve_accepted g conn header buf recv_size info clock = do
    (g1, registered) ← register q pq g conn clock.register_at
    elim registered [
      | err x ↦ value (g1, buf, err x)
      | ok token ↦ (do
        packet ← slice buf 0 recv_size
        (g2, packet', r) ←
            recv_with_connection_id q pq g1 header.dcid packet info none clock.recv_at
        let buf' = packet' ++ drop recv_size buf
        elim r [
          | ok t ↦ send_back g2 token buf' info clock
          | err busy ↦ panic
          | err retry ↦ panic
          | err x ↦ value (g2, buf', err x)
        ])
    ]

  -- `recv_with_acceptor`, with the acceptor and the caller's buffer after the call
  unfoldable pub recv_with_acceptor :
      Group q pq
      → Acceptor q e
      → List ℕ
      → ℕ
      → RecvInfo
      → Option ℕ
      → Clock
      → List ℕ
      → Checked (Group q pq × Acceptor q e × List ℕ × Outcome q (ℕ × SendInfo))
  unfolding send_back serve_accepted
  recv_with_acceptor g a buf recv_size info unparker clock new_scid = do
    packet ← slice buf 0 recv_size
    elim (e.header_from_slice packet) [
      | err x ↦ value (g, a, buf, err (quiche x))
      | ok header ↦ (do
        (g1, packet', r) ←
            recv_with_connection_id q pq g header.dcid packet info unparker clock.recv_at
        let buf1 = packet' ++ drop recv_size buf
        elim r [
          | ok (token, size) ↦ (do
            (g2, buf2, sent) ← send_back g1 token buf1 info clock
            value (g2, a, buf2, sent))
          | err not_found ↦ (do
            (a', buf2, shaken) ← shake q e a header buf1 info clock.handshake_at new_scid
            elim shaken [
              | err x ↦ value (g1, a', buf2, err x)
              | ok (handshake size) ↦ value (g1, a', buf2, ok (nothing info size clock.end_at))
              | ok (accept conn) ↦ (do
                (g2, buf3, sent) ← serve_accepted g1 conn header buf2 recv_size info clock
                value (g2, a', buf3, sent))
            ])
          | err x ↦ value (g1, a, buf1, err x)
        ])
    ]

  -- `QuicClient::connect`, with the random connection id and the configuration after the call
  unfoldable pub connect :
      Group q pq
      → Option (List ℕ)
      → SocketAddr
      → SocketAddr
      → e.Config
      → List ℕ
      → ℕ
      → Checked (Group q pq × e.Config × Outcome q ℕ)
  connect g server_name local peer config id now =
      let (config', r) = e.connect config server_name id local peer in
      elim r [
        | err x ↦ value (g, config', err (quiche x))
        | ok conn ↦ (do
          (g', registered) ← register q pq g conn now
          value (g', config', registered))
      ]

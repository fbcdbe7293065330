-- ===== src/Group/Accepting.antt =====
-- crates/poll/src/group.rs: packets of any connection, and new connections keep what
-- registering, receiving and sending do.
use rtt.Prelude.{
  ℕ, inl, inr, Option, none, List, ◌++◌, Checked, value, panic, ◌>>=◌, IfReturns, IfReturns_bind,
  IfReturns_chain, IfReturns_then, drop, slice,
}
use rtt.Prelude.Io.{ok, err, Result-cases}
use rtt.Api.{quiche, retry, busy, not_found, validate_address, max_streams}
use rtt.Net.{SocketAddr, RecvInfo, SendInfo}
use rtt.Quiche.{Quiche, Header, Endpoint}
use rtt.Readiness.{PriorityQueue}
use rtt.Conn.{Outcome}
use rtt.Acceptor.{Acceptor, Handshake, handshake, accept, shake}
use rtt.Group.{Group, register}
use rtt.Group.Driving
use rtt.Group.Driving.{recv_with_connection_id}
use rtt.Group.Serving
use rtt.Group.Serving.{Clock, send_back, serve_accepted, recv_with_acceptor, connect, nothing}

-- The operations that the others call keep a property of groups.
pub record Keeps (q : Quiche) (pq : PriorityQueue) (P : Group q pq → Type 0) : Type 0 where
  pub registers :
      (g : Group q pq) (wrapped : q.Connection) (now : ℕ)
      → P g
      → IfReturns (register q pq g wrapped now) (λ t. P t.0)
  pub receives :
      (g : Group q pq) (scid buf : List ℕ) (info : RecvInfo) (unparker : Option ℕ) (now : ℕ)
      → P g
      → IfReturns (recv_with_connection_id q pq g scid buf info unparker now) (λ t. P t.0)
  pub sends :
      (g : Group q pq) (token : ℕ) (buf : List ℕ) (now unlock_now : ℕ)
      → P g
      → IfReturns (Driving.send q pq g token buf now unlock_now) (λ t. P t.0)

module _ (q : Quiche) (e : Endpoint q) (pq : PriorityQueue) (P : Group q pq → Type 0)
    (k : Keeps q pq P) where
  abbrev IsKept : {A : Type 0} → (A → Group q pq) → Checked A → Type 0
  IsKept group m = IfReturns m (λ t. P (group t))

  send_back-Keeps :
      (g : Group q pq) (token : ℕ) (buf : List ℕ) (info : RecvInfo) (clock : Clock q e pq)
      → P g
      → IsKept (λ t. t.0) (send_back q e pq g token buf info clock)
  unfolding send_back
  send_back-Keeps g token buf info clock v =
      IfReturns_bind _ (Driving.send q pq g token buf clock.send_at clock.unlock_at) _
        (k.sends g token buf clock.send_at clock.unlock_at v)

  -- the end of `serve_accepted`, for what the packet gave
  abbrev finish :
      ℕ
      → RecvInfo
      → Clock q e pq
      → Group q pq
      → List ℕ
      → Outcome q (ℕ × ℕ)
      → Checked (Group q pq × List ℕ × Outcome q (ℕ × SendInfo))
  finish token info clock g buf r = elim r [
    | ok t ↦ send_back q e pq g token buf info clock
    | err busy ↦ panic
    | err retry ↦ panic
    | err x ↦ value (g, buf, err x)
  ]

  finish-Keeps :
      (token : ℕ) (info : RecvInfo) (clock : Clock q e pq) (g : Group q pq) (buf : List ℕ)
      (r : Outcome q (ℕ × ℕ))
      → P g
      → IsKept (λ t. t.0) (finish token info clock g buf r)
  finish-Keeps token info clock g buf (ok t) v = send_back-Keeps g token buf info clock v
  finish-Keeps token info clock g buf (err busy) v = tt
  finish-Keeps token info clock g buf (err retry) v = tt
  finish-Keeps token info clock g buf (err not_found) v = v
  finish-Keeps token info clock g buf (err (quiche x)) v = v
  finish-Keeps token info clock g buf (err validate_address) v = v
  finish-Keeps token info clock g buf (err max_streams) v = v

  serve_accepted-Keeps :
      (g : Group q pq) (conn : q.Connection) (header : Header) (buf : List ℕ) (recv_size : ℕ)
      (info : RecvInfo) (clock : Clock q e pq)
      → P g
      → IsKept (λ t. t.0) (serve_accepted q e pq g conn header buf recv_size info clock)
  unfolding serve_accepted
  serve_accepted-Keeps g conn header buf recv_size info clock v =
      IfReturns_chain {P = λ t. P t.0} _ (register q pq g conn clock.register_at) _
        (k.registers g conn clock.register_at v)
        λ t v1. elim (Result-cases t.1) [
          | inr (x, h) ↦ rw h v1
          | inl (token, h) ↦ rw h (
              IfReturns_then _ (slice buf 0 recv_size) _ λ packet.
                IfReturns_chain {P = λ t. P t.0} _
                  (recv_with_connection_id q pq t.0 header.dcid packet info none clock.recv_at) _
                  (k.receives t.0 header.dcid packet info none clock.recv_at v1)
                  λ t2 v2. finish-Keeps token info clock t2.0 (t2.1 ++ drop recv_size buf) t2.2 v2)
        ]

  -- the match on the result of `shake`
  abbrev answer :
      Acceptor q e
      → Header
      → ℕ
      → RecvInfo
      → Clock q e pq
      → Group q pq
      → List ℕ
      → Outcome q (Handshake q.Connection)
      → Checked (Group q pq × Acceptor q e × List ℕ × Outcome q (ℕ × SendInfo))
  answer a header recv_size info clock g buf r = elim r [
    | err x ↦ value (g, a, buf, err x)
    | ok (handshake size) ↦ value (g, a, buf, ok (nothing q e pq info size clock.end_at))
    | ok (accept conn) ↦ (do
      (g2, buf3, sent) ← serve_accepted q e pq g conn header buf recv_size info clock
      value (g2, a, buf3, sent))
  ]

  answer-Keeps :
      (a : Acceptor q e) (header : Header) (recv_size : ℕ) (info : RecvInfo) (clock : Clock q e pq)
      (g : Group q pq) (buf : List ℕ) (r : Outcome q (Handshake q.Connection))
      → P g
      → IsKept (λ t. t.0) (answer a header recv_size info clock g buf r)
  answer-Keeps a header recv_size info clock g buf (err x) v = v
  answer-Keeps a header recv_size info clock g buf (ok (handshake size)) v = v
  answer-Keeps a header recv_size info clock g buf (ok (accept conn)) v =
      IfReturns_bind _ (serve_accepted q e pq g conn header buf recv_size info clock) _
        (serve_accepted-Keeps g conn header buf recv_size info clock v)

  -- the end of `recv_with_acceptor`, for what the packet gave
  abbrev go_on :
      Acceptor q e
      → Header
      → ℕ
      → RecvInfo
      → Clock q e pq
      → List ℕ
      → Group q pq
      → List ℕ
      → Outcome q (ℕ × ℕ)
      → Checked (Group q pq × Acceptor q e × List ℕ × Outcome q (ℕ × SendInfo))
  go_on a header recv_size info clock new_scid g buf r = elim r [
    | ok (token, size) ↦ (do
      (g2, buf2, sent) ← send_back q e pq g token buf info clock
      value (g2, a, buf2, sent))
    | err not_found ↦ (do
      (a', buf2, shaken) ← shake q e a header buf info clock.handshake_at new_scid
      answer a' header recv_size info clock g buf2 shaken)
    | err x ↦ value (g, a, buf, err x)
  ]

  go_on-Keeps :
      (a : Acceptor q e) (header : Header) (recv_size : ℕ) (info : RecvInfo) (clock : Clock q e pq)
      (new_scid : List ℕ) (g : Group q pq) (buf : List ℕ) (r : Outcome q (ℕ × ℕ))
      → P g
      → IsKept (λ t. t.0) (go_on a header recv_size info clock new_scid g buf r)
  go_on-Keeps a header recv_size info clock new_scid g buf (ok (token, size)) v =
      IfReturns_bind _ (send_back q e pq g token buf info clock) _
        (send_back-Keeps g token buf info clock v)
  go_on-Keeps a header recv_size info clock new_scid g buf (err not_found) v =
      let shaking = shake q e a header buf info clock.handshake_at new_scid in
      IfReturns_then _ shaking _ λ t. answer-Keeps t.0 header recv_size info clock g t.1 t.2 v
  go_on-Keeps a header recv_size info clock new_scid g buf (err busy) v = v
  go_on-Keeps a header recv_size info clock new_scid g buf (err retry) v = v
  go_on-Keeps a header recv_size info clock new_scid g buf (err (quiche x)) v = v
  go_on-Keeps a header recv_size info clock new_scid g buf (err validate_address) v = v
  go_on-Keeps a header recv_size info clock new_scid g buf (err max_streams) v = v

  -- A packet keeps the property of the group, whichever way it is served, if the code
  -- returns.
  pub recv_with_acceptor-Keeps :
      (g : Group q pq) (a : Acceptor q e) (buf : List ℕ) (recv_size : ℕ) (info : RecvInfo)
      (unparker : Option ℕ) (clock : Clock q e pq) (new_scid : List ℕ)
      → P g
      → IsKept (λ t. t.0) (recv_with_acceptor q e pq g a buf recv_size info unparker clock new_scid)
  unfolding recv_with_acceptor
  recv_with_acceptor-Keeps g a buf recv_size info unparker clock new_scid v =
      IfReturns_then _ (slice buf 0 recv_size) _ λ packet.
        elim (Result-cases (e.header_from_slice packet)) [
          | inr (x, h) ↦ rw h v
          | inl (header, h) ↦ rw h (
              IfReturns_chain {P = λ t. P t.0} _
                (recv_with_connection_id q pq g header.dcid packet info unparker clock.recv_at) _
                (k.receives g header.dcid packet info unparker clock.recv_at v)
                λ t v1.
                  go_on-Keeps a header recv_size info clock new_scid t.0 (t.1 ++ drop recv_size buf)
                    t.2 v1)
        ]

  pub recv-Keeps :
      (g : Group q pq) (buf : List ℕ) (info : RecvInfo) (now : ℕ)
      → P g
      → IsKept (λ t. t.0) (Serving.recv q e pq g buf info now)
  unfolding Serving.recv
  recv-Keeps g buf info now v = elim (Result-cases (e.header_from_slice buf)) [
    | inr (x, h) ↦ rw (h, Serving.recv) v
    | inl (header, h) ↦
        rw (h, Serving.recv)
          (IfReturns_bind _ (recv_with_connection_id q pq g header.dcid buf info none now) _
            (k.receives g header.dcid buf info none now v))
  ]

  pub connect-Keeps :
      (g : Group q pq) (server_name : Option (List ℕ)) (local peer : SocketAddr) (config : e.Config)
      (id : List ℕ) (now : ℕ)
      → P g
      → IsKept (λ t. t.0) (connect q e pq g server_name local peer config id now)
  unfolding connect
  connect-Keeps g server_name local peer config id now v =
      elim (Result-cases (e.connect config server_name id local peer).1) [
        | inr (x, h) ↦ rw (h, connect) v
        | inl (conn, h) ↦
            rw (h, connect)
              (IfReturns_bind _ (register q pq g conn now) _ (k.registers g conn now v))
      ]

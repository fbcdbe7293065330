-- ===== src/Mio/Keeping.antt =====
-- crates/mio/src/group.rs: the event loop keeps the sockets of a bound group, and the bounds of their
-- queues, whatever `quiche` and the network give it.
use native.Mathlib.Decide.{ℕ_discrete}
use rtt.Prelude.{
  ℕ, ◌≤◌, ◌≡◌, inl, inr, Option, some, ==_iff, ◌∙◌, subst, arith, Option-cases, length, get_elem?,
  get_elem?-set, ltb, assert, IfReturns, IfReturns_chain, IfReturns_then,
}
use rtt.Prelude.Maps.{get}
use rtt.Prelude.Io.{Result-cases}
use rtt.Net.{SocketAddr-discrete, SendInfo}
use rtt.FixedBuf.{ArrayBuf}
use rtt.FixedBuf
use rtt.Quiche.{Quiche, Endpoint}
use rtt.Readiness.{PriorityQueue}
use rtt.Acceptor.{Acceptor}
use rtt.Group.{Group}
use rtt.Group.Driving.{send}
use rtt.Group.Holding.{Shared, send-Shared}
use rtt.Udp.{UdpSocket, QuicSocket, buf_size, flush, send_to}
use rtt.Udp.Bounds.{Kept, flush-Kept, send_to-Kept}
use rtt.Mio.{Bound, queue_limit, set_socket, send_packet, on_quic_send, on_udp_send}
use rtt.Mio.Validity.{IsBound}

module _ (q : Quiche) (e : Endpoint q) (pq : PriorityQueue) (u : UdpSocket) where
  abbrev Bounds : Type 0
  Bounds = Bound q e pq u

  -- A bound group whose queues are within the limit: some
  -- guards fit its group, every address leads to the
  -- socket bound to it, and no queue has more packets than the limit that `bind` gives.
  pub record IsSound (m : Bounds) : Type 0 where
    pub group : Shared q pq m.group
    pub bound : IsBound q e pq u m.laddrs m.sockets
    pub limited :
        (index : ℕ) (s : QuicSocket u)
        → get_elem? m.sockets index ≡ some s
        → (length s.sending ≤ queue_limit q e pq u)
          × (s.sending_buffer_limits ≡ queue_limit q e pq u)

  -- The group alone changes, or the acceptor.
  pub regroup-IsSound :
      (m : Bounds) (g : Group q pq) (a : Option (Acceptor q e))
      → IsSound m
      → Shared q pq g
      → IsSound (record m { group = g; acceptor = a })
  regroup-IsSound m g a v w = record { group = w; bound = v.bound; limited = v.limited }

  pub room :
      (m : Bounds) (index : ℕ) (s : QuicSocket u)
      → IsSound m
      → get_elem? m.sockets index ≡ some s
      → length s.sending ≤ s.sending_buffer_limits
  room m index s v here = let (small, limit) = v.limited index s here in omega arith

  -- A socket after a call replaces it.
  pub Kept-IsSound :
      (m : Bounds) (index : ℕ) (s s' : QuicSocket u)
      → IsSound m
      → get_elem? m.sockets index ≡ some s
      → Kept u s s'
      → IsSound (set_socket q e pq u m index s')
  Kept-IsSound m index s s' v here k = record {
    group = v.group;
    bound = λ addr j found.
        let (t, at, bound) = v.bound addr j found in
        let all = get_elem?-set m.sockets index j s' s here in
        let same = k.address in
        elim (ℕ_discrete index j) [
          | yes one ↦ (s', ground (arith, ==_iff index j), ground arith)
          | no other ↦ (t, ground (arith, ==_iff index j), bound)
        ];
    limited = λ j t found.
        let all = get_elem?-set m.sockets index j s' s here in
        let (small, limit) = v.limited index s here in
        elim (ℕ_discrete index j) [
          | yes one ↦
              let same : s' ≡ t = ground (arith, ==_iff index j) in
              subst
                (λ (t : QuicSocket u).
                  (length t.sending ≤ queue_limit q e pq u)
                  × (t.sending_buffer_limits ≡ queue_limit q e pq u))
                same (omega (arith, k.bounded), k.limits ∙ limit)
          | no other ↦ v.limited j t (ground (arith, ==_iff index j))
        ];
  }

  send_packet-Sound :
      (m : Bounds) (buf : ArrayBuf) (info : SendInfo)
      → IsSound m
      → IfReturns (send_packet q e pq u m buf info) (λ t. IsSound t.0)
  unfolding send_packet
  send_packet-Sound m buf info v =
      elim (Option-cases (get SocketAddr-discrete info.from m.laddrs)) [
        | inl k ↦ rw (k, send_packet) tt
        | inr (index, k) ↦ elim (Option-cases (get_elem? m.sockets index)) [
          | inl l ↦ rw (k, send_packet, l) tt
          | inr (s, l) ↦
              rw (k, send_packet, l)
                (IfReturns_chain {P = λ t. Kept u s t.0} _ (send_to u s buf info.to) _
                  (send_to-Kept u s buf info.to (room m index s v l))
                  λ t f. Kept-IsSound m index s t.0 v l f)
        ]
      ]

  pub on_quic_send-Sound :
      (m : Bounds) (token now unlock_now : ℕ)
      → IsSound m
      → IfReturns (on_quic_send q e pq u m token now unlock_now) (λ t. IsSound t.0)
  unfolding on_quic_send
  on_quic_send-Sound m token now unlock_now v =
      let buf = FixedBuf.new buf_size in
      IfReturns_chain {P = λ t. Shared q pq t.0} _ (send q pq m.group token buf.buf now unlock_now)
        _ (send-Shared q pq m.group token buf.buf now unlock_now v.group)
        λ t w.
          let m' : Bounds = record m { group = t.0 } in
          let v' = regroup-IsSound m t.0 m.acceptor v w in
          elim (Result-cases t.2) [
            | inr (x, h) ↦ rw h v'
            | inl ((size, info), h) ↦ rw h (
                IfReturns_then _ (assert (ltb 0 size)) _ λ b.
                  IfReturns_then _
                    (FixedBuf.writable_consume buf_size (record buf { buf = t.1 }) size) _
                    λ buf'. send_packet-Sound m' buf' info v')
          ]

  pub on_udp_send-Sound :
      (m : Bounds) (index : ℕ)
      → IsSound m
      → IfReturns (on_udp_send q e pq u m index) (λ t. IsSound t.0)
  unfolding on_udp_send
  on_udp_send-Sound m index v = elim (Option-cases (get_elem? m.sockets index)) [
    | inl l ↦ rw (l, on_udp_send) tt
    | inr (s, l) ↦
        rw (l, on_udp_send)
          (IfReturns_chain {P = λ t. Kept u s t.0} _ (flush u s) _
            (flush-Kept u s (room m index s v l)) λ t f. Kept-IsSound m index s t.0 v l f)
  ]

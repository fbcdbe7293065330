-- ===== src/Mio/Sending.antt =====
-- crates/mio/src/group.rs: `on_quic_send`, a packet from the group to the queue of its socket, and
-- `on_udp_send`.
use native.Mathlib.Decide.{ℕ_discrete}
use rtt.Prelude.{
  ℕ, ◌≤◌, ◌<◌, ◌≡◌, refl, ◌∙◌, inl, inr, true, Option, none, some, List, sym, ap, subst, arith,
  Option-cases, ltb, lt→ltb, length, get_elem?, set, Checked, value, ◌>>=◌, ◌>>◌, assert, Returns,
  Returns_bind, Returns_weaken, ap₂,
}
use mathlib.Core.Option
use rtt.Prelude.Maps.{get, is_some}
use rtt.Prelude.Io.{Result, ok, err, IoResult}
use rtt.Api.{not_found}
use rtt.Net.{SocketAddr-discrete, SendInfo}
use rtt.FixedBuf.{ArrayBuf, writable_consume_lem, new_lem}
use rtt.FixedBuf
use rtt.Quiche.{Quiche, Endpoint}
use rtt.Readiness.{PriorityQueue}
use rtt.Conn.{Outcome}
use rtt.Group.Driving.{send}
use rtt.Group.Unlocking.{Finished, woken}
use rtt.Group.Operating.{Filled, sent, send-Filled}
use rtt.Udp.{UdpSocket, QuicSocket, QuicSocketError, Packet, buf_size, send_to}
use rtt.Udp.Queueing.{Queued, send_to-Queued}
use rtt.Mio.{Laddrs, Bound, queued, send_packet, on_quic_send}
use rtt.Mio.Validity.{IsValid, set_socket-IsValid}

module _ (q : Quiche) (e : Endpoint q) (pq : PriorityQueue) (u : UdpSocket) where
  abbrev Bounds : Type 0
  Bounds = Bound q e pq u

  -- the memory that a packet is written to
  abbrev pub blank : List ℕ
  blank = (FixedBuf.new buf_size).buf

  -- A packet fits a buffer, is not empty, and comes from an address of a socket.
  abbrev pub FitsFrom : Laddrs → List ℕ × Outcome q (ℕ × SendInfo) → Type 0
  FitsFrom laddrs (bytes, err x) = Unit {0}
  FitsFrom laddrs (bytes, ok (size, info)) =
      (0 < size)
      × (size ≤ buf_size)
      × (length bytes ≡ buf_size)
      × (is_some (get SocketAddr-discrete info.from laddrs) ≡ true)

  -- What becomes of the packet: it is handed to `send_to` of the socket of its address, and a full
  -- queue is no error; without one the sockets stay.
  abbrev pub HandsOn :
      Laddrs
      → List (QuicSocket u)
      → List ℕ × Outcome q (ℕ × SendInfo)
      → Bounds × IoResult (Unit {0})
      → Type 0
  HandsOn laddrs sockets (bytes, err x) t = (t.0.sockets ≡ sockets) × (t.1 ≡ ok tt)
  HandsOn laddrs sockets (bytes, ok (size, info)) t =
      (index : ℕ) × (s : QuicSocket u) × (r : QuicSocket u × Result QuicSocketError ℕ) × (get
          SocketAddr-discrete info.from laddrs
        ≡ some index)
      × (get_elem? sockets index ≡ some s)
      × (t.0.sockets ≡ set sockets index r.0)
      × Queued u s (record { buf = bytes; len = size }, info.to) r
      × (t.1 ≡ queued q e pq u r.1)

  send_packet-HandsOn :
      (m : Bounds) (bytes : List ℕ) (size : ℕ) (info : SendInfo)
      → IsValid q e pq u m
      → FitsFrom m.laddrs (bytes, ok (size, info))
      → Returns (send_packet q e pq u m (record { buf = bytes; len = size }) info) λ t.
        IsValid q e pq u t.0
        × (t.0.group ≡ m.group)
        × HandsOn m.laddrs m.sockets (bytes, ok (size, info)) t
  unfolding send_packet
  send_packet-HandsOn m bytes size info v fits =
      elim (Option-cases (get SocketAddr-discrete info.from m.laddrs)) [
        | inl k ↦ absurd (ground (arith, fits.3))
        | inr (index, k) ↦
            let (s, here, same) = v.bound info.from index k in
            let queue = v.queues index s here in
            let p : Packet = (record { buf = bytes; len = size }, info.to) in
            rw (k, send_packet, here)
              (Returns_bind {P = Queued u s p} _ (send_to u s p.0 p.1) _
                (send_to-Queued u s p queue.filled (omega arith) queue.bounded)
                λ r f. (
                  set_socket-IsValid q e pq u m index s r.0 v here f.address (record {
                    filled = f.filled;
                    bounded = omega (arith, f.bounded, f.limits);
                    limit = f.limits ∙ queue.limit;
                  }),
                  refl,
                  (index, s, r, refl, here, refl, f, refl),
                ))
      ]

  -- the end of `on_quic_send`
  abbrev after_send :
      Bounds → List ℕ → Outcome q (ℕ × SendInfo) → Checked (Bounds × IoResult (Unit {0}))
  after_send m bytes r = elim r [
    | err x ↦ value (m, ok tt)
    | ok (size, info) ↦ (do
      assert (ltb 0 size)
      buf' ←
          FixedBuf.writable_consume buf_size (record (FixedBuf.new buf_size) { buf = bytes }) size
      send_packet q e pq u m buf' info)
  ]

  after_send-HandsOn :
      (m : Bounds) (bytes : List ℕ) (r : Outcome q (ℕ × SendInfo))
      → IsValid q e pq u m
      → FitsFrom m.laddrs (bytes, r)
      → Returns (after_send m bytes r) λ t.
        IsValid q e pq u t.0 × (t.0.group ≡ m.group) × HandsOn m.laddrs m.sockets (bytes, r) t
  after_send-HandsOn m bytes (err x) v fits = (v, refl, (refl, refl))
  after_send-HandsOn m bytes (ok (size, info)) v fits =
      rw
        (
          lt→ltb 0 size fits.0,
          writable_consume_lem buf_size (record (FixedBuf.new buf_size) { buf = bytes }) size
              fits.1,
        )
        (send_packet-HandsOn m bytes size info v fits)

  -- the packet that `send` makes of a connection
  abbrev pub packet : ℕ → ℕ → Bounds → Option (List ℕ × Outcome q (ℕ × SendInfo))
  packet token now m = Option.map (λ c. sent q pq blank now c) (get ℕ_discrete token m.group.conns)

  abbrev pub AllFit : Bounds → Option (List ℕ × Outcome q (ℕ × SendInfo)) → Type 0
  AllFit m none = Unit {0}
  AllFit m (some p) = FitsFrom m.laddrs p

  -- what `on_quic_send` does with the packet
  abbrev pub Sends :
      Bounds
      → ℕ
      → Option (List ℕ × Outcome q (ℕ × SendInfo))
      → Bounds × IoResult (Unit {0})
      → Type 0
  Sends m token none t = (t.0 ≡ m) × (t.1 ≡ ok tt)
  Sends m token (some p) t =
      IsValid q e pq u t.0
      × Finished q pq (woken q pq m.group token) token t.0.group
      × HandsOn m.laddrs m.sockets p t

  when_known :
      (m : Bounds) (token now unlock_now : ℕ) (threads : List ℕ)
      (p : List ℕ × Outcome q (ℕ × SendInfo))
      → IsValid q e pq u m
      → FitsFrom m.laddrs p
      → Returns
          (send q pq m.group token blank now unlock_now)
          (λ t. Finished q pq threads token t.0 × (t.1 ≡ p.0) × (t.2 ≡ p.1))
      → Returns (on_quic_send q e pq u m token now unlock_now) λ t.
        IsValid q e pq u t.0
        × Finished q pq threads token t.0.group
        × HandsOn m.laddrs m.sockets p t
  unfolding on_quic_send
  when_known m token now unlock_now threads p v fits done =
      Returns_bind _ (send q pq m.group token blank now unlock_now) _ done λ t f.
        let m' : Bounds = record m { group = t.0 } in
        let v' : IsValid q e pq u m' = record {
          group = f.0.valid;
          bound = v.bound;
          queues = v.queues;
        } in
        let same : p ≡ (t.1, t.2) = sym (ap₂ (λ a b. (a, b)) f.1 f.2) in
        Returns_weaken _ _ (after_send m' t.1 t.2)
          (after_send-HandsOn m' t.1 t.2 v' (subst (FitsFrom m.laddrs) same fits))
          λ r h. (
            h.0,
            subst (Finished q pq threads token) (sym h.1) f.0,
            subst (λ p. HandsOn m.laddrs m.sockets p r) (sym same) h.2,
          )

  when_unknown :
      (m : Bounds) (token now unlock_now : ℕ)
      → Returns
          (send q pq m.group token blank now unlock_now)
          (λ t. (t.0 ≡ m.group) × (t.1 ≡ blank) × (t.2 ≡ err not_found))
      → Returns (on_quic_send q e pq u m token now unlock_now) (λ t. (t.0 ≡ m) × (t.1 ≡ ok tt))
  unfolding on_quic_send
  when_unknown m token now unlock_now done =
      Returns_bind _ (send q pq m.group token blank now unlock_now) _ done
        λ t f. rw f.2 (ap (λ g. record m { group = g }) f.0, refl)

  -- In a valid bound group `on_quic_send` never panics, provided that a packet of `quiche` is not
  -- empty, fits its buffer and comes from an address of a socket. For an unknown token nothing
  -- changes. Else the packet is handed to the queue of the socket bound to its address, a full
  -- queue is no error, without a packet the sockets stay, and the bound group is valid again.
  pub on_quic_send-Sends :
      (m : Bounds) (token now unlock_now : ℕ)
      → IsValid q e pq u m
      → AllFit m (packet token now m)
      → Returns (on_quic_send q e pq u m token now unlock_now) (Sends m token (packet token now m))
  on_quic_send-Sends m token now unlock_now v fits =
      let done = send-Filled q pq m.group token blank now unlock_now v.group in
      elim (Option-cases (get ℕ_discrete token m.group.conns)) [
        | inl k ↦ rw k (
            when_unknown m token now unlock_now (
              Returns_weaken _ _ (send q pq m.group token blank now unlock_now) done
                λ t f. rw (Filled, k) at f))
        | inr (c, k) ↦ rw k (
            when_known m token now unlock_now (woken q pq m.group token) (sent q pq blank now c) v
              (rw (packet, k) at fits)
              (Returns_weaken _ _ (send q pq m.group token blank now unlock_now) done
                λ t f. rw (Filled, k) at f))
      ]

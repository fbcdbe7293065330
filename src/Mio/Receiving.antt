-- ===== src/Mio/Receiving.antt =====
-- crates/mio/src/group.rs: `on_udp_recv` and what it calls keep a bound group sound, while other
-- threads act on the group.
use rtt.Prelude.{
  ℕ, ◌≡◌, ◌∙◌, ==_refl, inl, inr, Option, none, some, List, [], ◌∷◌, ◌==◌, Bool-cases, Option-cases,
  get_elem?, get_elem?-set, Checked, value, ◌>>=◌, IfReturns, IfReturns_chain, IfReturns_then,
  IfReturns_if,
}
use rtt.Prelude.Io.{ok, err, IoResult, Poll, ready, pending, Result-cases}
use rtt.Api.{io_would_block}
use rtt.Net.{SocketAddr, RecvInfo, SendInfo}
use rtt.FixedBuf.{ArrayBuf, readable_buf}
use rtt.FixedBuf
use rtt.Quiche.{Quiche, Endpoint}
use rtt.Readiness.{PriorityQueue}
use rtt.Conn.{Outcome}
use rtt.Acceptor.{Acceptor}
use rtt.Group.{Group}
use rtt.Group.Driving.{recv_with_connection_id}
use rtt.Group.Serving.{recv_with_acceptor}
use rtt.Group.Holding.{Shared, Shared-Keeps, recv_with_connection_id-Shared}
use rtt.Group.Sharing.{Guards, IsShared}
use rtt.Group.Accepting.{recv_with_acceptor-Keeps}
use rtt.Group.Interleaving.{Reach, Reach-IsShared}
use rtt.Udp.{UdpSocket, QuicSocket, buf_size, send_to, recv_from, from_socket}
use rtt.Udp.Bounds.{Kept, send_to-Kept, recv_from-Kept}
use rtt.Mio.{Bound, set_socket}
use rtt.Mio.Packets.{
  Try, serve, pass_on, must_park, answer, serve_packet, pass_packet, on_packet, on_udp_recv,
}
use rtt.Mio.Keeping.{IsSound, regroup-IsSound, room, Kept-IsSound}

module _ (q : Quiche) (e : Endpoint q) (pq : PriorityQueue) (u : UdpSocket) where
  abbrev Bounds : Type 0
  Bounds = Bound q e pq u

  -- What other threads do to a group, whatever guards are held, is critical sections.
  abbrev pub AreActs : Group q pq → Group q pq → Type 0
  AreActs g t = (held : Guards) → IsShared q pq g held → (left : Guards) × Reach q pq g held t left

  pub acted : (g t : Group q pq) → AreActs g t → Shared q pq g → Shared q pq t
  acted g t h (held, v) = let (left, r) = h held v in (left, Reach-IsShared q pq r v)

  -- What other threads did to the group, in each of the tries, was critical sections on it.
  abbrev pub AreSteps : List (Try q e pq u) → Type 0
  AreSteps [] = Unit {0}
  AreSteps (t ∷ ts) = ((g : Group q pq) → AreActs g (t.others g)) × AreSteps ts

  abbrev pub AllSteps : List (List (Try q e pq u)) → Type 0
  AllSteps [] = Unit {0}
  AllSteps (tries ∷ more) = AreSteps tries × AllSteps more

  serve-Keeps :
      (tries : List (Try q e pq u)) (g : Group q pq) (a : Acceptor q e) (buf : List ℕ) (size : ℕ)
      (info : RecvInfo) (thread : ℕ)
      → AreSteps tries
      → Shared q pq g
      → IfReturns (serve q e pq u tries g a buf size info thread) (λ t. Shared q pq t.0)
  unfolding serve
  serve-Keeps [] g a buf size info thread h v = v
  serve-Keeps (t ∷ ts) g a buf size info thread h v =
      IfReturns_chain {P = λ t. Shared q pq t.0} _
        (recv_with_acceptor q e pq (t.others g) a buf size info (some thread) t.clock t.new_scid) _
        (recv_with_acceptor-Keeps q e pq (Shared q pq) (Shared-Keeps q pq) (t.others g) a buf size
          info (some thread) t.clock t.new_scid (acted g (t.others g) (h.0 g) v))
        λ s w. elim (Bool-cases (must_park q e pq u s.3)) [
          | inl parks ↦ rw parks (serve-Keeps ts s.0 s.1 s.2 size info thread h.1 w)
          | inr ends ↦ rw ends w
        ]

  pass_on-Keeps :
      (tries : List (Try q e pq u)) (g : Group q pq) (dcid packet : List ℕ) (info : RecvInfo)
      (thread : ℕ)
      → AreSteps tries
      → Shared q pq g
      → IfReturns (pass_on q e pq u tries g dcid packet info thread) (λ t. Shared q pq t.0)
  unfolding pass_on
  pass_on-Keeps [] g dcid packet info thread h v = v
  pass_on-Keeps (t ∷ ts) g dcid packet info thread h v =
      IfReturns_chain {P = λ t. Shared q pq t.0} _
        (recv_with_connection_id q pq (t.others g) dcid packet info (some thread) t.clock.recv_at) _
        (recv_with_connection_id-Shared q pq (t.others g) dcid packet info (some thread)
          t.clock.recv_at (acted g (t.others g) (h.0 g) v))
        λ s w. elim (Bool-cases (must_park q e pq u s.2)) [
          | inl parks ↦ rw parks (pass_on-Keeps ts s.0 dcid s.1 info thread h.1 w)
          | inr ends ↦ rw ends w
        ]

  answer-Sound :
      (m : Bounds) (index : ℕ) (s : QuicSocket u) (buf : ArrayBuf) (r : Outcome q (ℕ × SendInfo))
      → IsSound q e pq u m
      → get_elem? m.sockets index ≡ some s
      → IfReturns (answer q e pq u m index s buf r) (λ t. IsSound q e pq u t.0)
  unfolding answer
  answer-Sound m index s buf (err x) v here = v
  answer-Sound m index s buf (ok (size, info)) v here =
      IfReturns_if _ (size == 0) _ _ (λ k. v)
        λ k. IfReturns_then _ (FixedBuf.writable_consume buf_size buf size) _ λ buf'.
          IfReturns_chain {P = λ t. Kept u s t.0} _ (send_to u s buf' info.to) _
            (send_to-Kept u s buf' info.to (room q e pq u m index s v here))
            λ t f. Kept-IsSound q e pq u m index s t.0 v here f

  serve_packet-Sound :
      (tries : List (Try q e pq u)) (m : Bounds) (a : Acceptor q e) (index : ℕ) (s : QuicSocket u)
      (buf : ArrayBuf) (info : RecvInfo) (thread : ℕ)
      → AreSteps tries
      → IsSound q e pq u m
      → get_elem? m.sockets index ≡ some s
      → IfReturns
          (serve_packet q e pq u tries m a index s buf info thread)
          (λ t. IsSound q e pq u t.0)
  unfolding serve_packet
  serve_packet-Sound tries m a index s buf info thread h v here =
      IfReturns_chain {P = λ t. Shared q pq t.0} _
        (serve q e pq u tries m.group a buf.buf buf.len info thread) _
        (serve-Keeps tries m.group a buf.buf buf.len info thread h v.group)
        λ t w.
          let m' : Bounds = record m { group = t.0; acceptor = some t.1 } in
          let v' = regroup-IsSound q e pq u m t.0 (some t.1) v w in
          elim (Option-cases t.3) [
            | inl k ↦ rw k v'
            | inr (result, k) ↦ rw k (
                IfReturns_chain {P = λ t. IsSound q e pq u t.0} _
                  (answer q e pq u m' index s (record buf { buf = t.2 }) result) _
                  (answer-Sound m' index s (record buf { buf = t.2 }) result v' here) (λ r f. f))
          ]

  pass_packet-Sound :
      (tries : List (Try q e pq u)) (m : Bounds) (buf : ArrayBuf) (info : RecvInfo) (thread : ℕ)
      → AreSteps tries
      → IsSound q e pq u m
      → IfReturns (pass_packet q e pq u tries m buf info thread) (λ t. IsSound q e pq u t.0)
  unfolding pass_packet
  pass_packet-Sound tries m buf info thread h v = IfReturns_then _ (readable_buf buf) _ λ packet.
      elim (Result-cases (e.header_from_slice packet)) [
        | inr (x, k) ↦ rw k v
        | inl (header, k) ↦ rw k (
            IfReturns_chain {P = λ t. Shared q pq t.0} _
              (pass_on q e pq u tries m.group header.dcid packet info thread) _
              (pass_on-Keeps tries m.group header.dcid packet info thread h v.group)
              λ t w. regroup-IsSound q e pq u m t.0 m.acceptor v w)
      ]

  on_packet-Sound :
      (tries : List (Try q e pq u)) (m : Bounds) (index : ℕ) (s : QuicSocket u) (buf : ArrayBuf)
      (from : SocketAddr) (thread : ℕ)
      → AreSteps tries
      → IsSound q e pq u m
      → get_elem? m.sockets index ≡ some s
      → IfReturns (on_packet q e pq u tries m index s buf from thread) (λ t. IsSound q e pq u t.0)
  unfolding on_packet
  on_packet-Sound tries m index s buf from thread h v here =
      let info : RecvInfo = record { from = from; to = s.local_addr } in
      elim (Option-cases m.acceptor) [
        | inl k ↦ rw (k, on_packet) (pass_packet-Sound tries m buf info thread h v)
        | inr (a, k) ↦
            rw (k, on_packet) (serve_packet-Sound tries m a index s buf info thread h v here)
      ]

  -- The rest of `on_udp_recv`, for what came of a packet, and for what the socket gave.
  abbrev go_on :
      List (List (Try q e pq u))
      → ℕ
      → ℕ
      → Bounds
      → Option (IoResult (Unit {0}))
      → Checked (Bounds × Option (IoResult (Unit {0})))
  go_on more index thread m result = elim result [
    | none ↦ value (m, none)
    | some (err x) ↦ value (m, some (err x))
    | some (ok t) ↦ on_udp_recv q e pq u more m index thread
  ]

  abbrev received :
      List (Try q e pq u)
      → List (List (Try q e pq u))
      → ℕ
      → ℕ
      → Bounds
      → QuicSocket u
      → ArrayBuf
      → Poll (IoResult SocketAddr)
      → Checked (Bounds × Option (IoResult (Unit {0})))
  received tries more index thread m s buf r = elim r [
    | pending ↦ value (m, some (ok tt))
    | ready (err x) ↦ value (m, some (err x))
    | ready (ok from) ↦ (do
      (m2, result) ← on_packet q e pq u tries m index s buf from thread
      go_on more index thread m2 result)
  ]

  abbrev KeepsOn : List (List (Try q e pq u)) → ℕ → ℕ → Type 0
  KeepsOn more index thread =
      (m : Bounds)
      → IsSound q e pq u m
      → IfReturns (on_udp_recv q e pq u more m index thread) (λ t. IsSound q e pq u t.0)

  go_on-Sound :
      (more : List (List (Try q e pq u))) (index thread : ℕ) (m : Bounds)
      (result : Option (IoResult (Unit {0})))
      → KeepsOn more index thread
      → IsSound q e pq u m
      → IfReturns (go_on more index thread m result) (λ t. IsSound q e pq u t.0)
  go_on-Sound more index thread m none k v = v
  go_on-Sound more index thread m (some (err x)) k v = v
  go_on-Sound more index thread m (some (ok t)) k v = k m v

  received-Sound :
      (tries : List (Try q e pq u)) (more : List (List (Try q e pq u))) (index thread : ℕ)
      (m : Bounds) (s : QuicSocket u) (buf : ArrayBuf) (r : Poll (IoResult SocketAddr))
      → AreSteps tries
      → KeepsOn more index thread
      → IsSound q e pq u m
      → get_elem? m.sockets index ≡ some s
      → IfReturns (received tries more index thread m s buf r) (λ t. IsSound q e pq u t.0)
  received-Sound tries more index thread m s buf pending h k v here = v
  received-Sound tries more index thread m s buf (ready (err x)) h k v here = v
  received-Sound tries more index thread m s buf (ready (ok from)) h k v here =
      IfReturns_chain {P = λ t. IsSound q e pq u t.0} _
        (on_packet q e pq u tries m index s buf from thread) _
        (on_packet-Sound tries m index s buf from thread h v here)
        λ t w. go_on-Sound more index thread t.0 t.1 k w

  -- Receiving the packets of a socket keeps a bound group sound, if it returns.
  pub on_udp_recv-Sound :
      (packets : List (List (Try q e pq u))) (m : Bounds) (index thread : ℕ)
      → AllSteps packets
      → IsSound q e pq u m
      → IfReturns (on_udp_recv q e pq u packets m index thread) (λ t. IsSound q e pq u t.0)
  unfolding on_udp_recv
  on_udp_recv-Sound [] m index thread h v = v
  on_udp_recv-Sound (tries ∷ more) m index thread h v =
      elim (Option-cases (get_elem? m.sockets index)) [
        | inl l ↦ rw (l, on_udp_recv) tt
        | inr (s, l) ↦
            rw (l, on_udp_recv)
              (IfReturns_chain {P = λ t. Kept u s t.0} _ (recv_from u s (FixedBuf.new buf_size)) _
                (recv_from-Kept u s (FixedBuf.new buf_size) (room q e pq u m index s v l))
                λ t f.
                  received-Sound tries more index thread (set_socket q e pq u m index t.0) t.0 t.1
                    (io_would_block (from_socket t.2)) h.0
                    (λ m' w. on_udp_recv-Sound more m' index thread h.1 w)
                    (Kept-IsSound q e pq u m index s t.0 v l f)
                    (get_elem?-set m.sockets index index t.0 s l ∙ rw (==_refl index)))
      ]

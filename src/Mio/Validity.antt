-- ===== src/Mio/Validity.antt =====
-- crates/mio/src/group.rs: what holds of a bound group between its operations.
use native.Mathlib.Decide.{ℕ_discrete}
use rtt.Prelude.{
  ℕ, ◌≤◌, ◌≡◌, refl, inl, inr, Option, some, List, [], ◌∷◌, ◌++◌, ==_iff, sym, subst, arith, length,
  get_elem?, get_elem?-set, get_elem?-snoc, get_elem?-lt,
}
use rtt.Prelude.Maps.{get, put, put_cases}
use rtt.Prelude.Io.{ok, err, IoResult, Result-cases}
use rtt.Net.{SocketAddr, SocketAddr-discrete}
use rtt.Quiche.{Quiche, Endpoint}
use rtt.Readiness.{PriorityQueue}
use rtt.Acceptor.{Acceptor}
use rtt.Group.Validity
use rtt.Udp.{UdpSocket, QuicSocket, io, io_error}
use rtt.Udp
use rtt.Udp.Flushing.{AreFilled}
use rtt.Mio.{Laddrs, Bound, Binding, bind_one, bind_all, bind, set_socket, queue_limit}

module _ (q : Quiche) (e : Endpoint q) (pq : PriorityQueue) (u : UdpSocket) where
  -- The queue of a socket is within the limit that `bind` gives, and its packets have their bytes.
  pub record IsQueue (s : QuicSocket u) : Type 0 where
    pub filled : AreFilled s.sending
    pub bounded : length s.sending ≤ s.sending_buffer_limits
    pub limit : s.sending_buffer_limits ≡ queue_limit q e pq u

  -- Every address leads to the socket bound to it.
  abbrev pub IsBound : Laddrs → List (QuicSocket u) → Type 0
  IsBound laddrs sockets =
      (addr : SocketAddr) (index : ℕ)
      → get SocketAddr-discrete addr laddrs ≡ some index
      → (s : QuicSocket u) × (get_elem? sockets index ≡ some s) × (s.local_addr ≡ addr)

  abbrev pub AreQueues : List (QuicSocket u) → Type 0
  AreQueues sockets = (index : ℕ) (s : QuicSocket u) → get_elem? sockets index ≡ some s → IsQueue s

  pub record IsValid (m : Bound q e pq u) : Type 0 where
    pub group : Validity.IsValid q pq m.group
    pub bound : IsBound m.laddrs m.sockets
    pub queues : AreQueues m.sockets

  -- A socket is replaced by one of its address.
  pub set_socket-IsValid :
      (m : Bound q e pq u) (index : ℕ) (s s' : QuicSocket u)
      → IsValid m
      → get_elem? m.sockets index ≡ some s
      → s'.local_addr ≡ s.local_addr
      → IsQueue s'
      → IsValid (set_socket q e pq u m index s')
  set_socket-IsValid m index s s' v here same queue = record {
    group = v.group;
    bound = λ addr j found.
        let (t, at, bound) = v.bound addr j found in
        let all = get_elem?-set m.sockets index j s' s here in
        elim (ℕ_discrete index j) [
          | yes one ↦ (s', ground (arith, ==_iff index j), ground arith)
          | no other ↦ (t, ground (arith, ==_iff index j), bound)
        ];
    queues = λ j t found.
        let all = get_elem?-set m.sockets index j s' s here in
        elim (ℕ_discrete index j) [
          | yes one ↦ subst IsQueue (ground (arith, ==_iff index j)) queue
          | no other ↦ v.queues j t (ground (arith, ==_iff index j))
        ];
  }

  -- What the sockets bound so far are.
  abbrev AreBound : IoResult (Laddrs × List (QuicSocket u)) → Type 0
  AreBound (err x) = Unit {0}
  AreBound (ok (laddrs, sockets)) = IsBound laddrs sockets × AreQueues sockets

  one_more :
      (laddrs : Laddrs) (sockets : List (QuicSocket u)) (s : QuicSocket u)
      → IsBound laddrs sockets
      → AreQueues sockets
      → s.sending ≡ []
      → s.sending_buffer_limits ≡ queue_limit q e pq u
      → AreBound
          (ok (put SocketAddr-discrete s.local_addr (length sockets) laddrs, sockets ++ (s ∷ [])))
  one_more laddrs sockets s bound queues empty limit = (
    λ addr index found.
        elim (put_cases SocketAddr-discrete s.local_addr addr (length sockets) index laddrs found) [
          | inl (same, last) ↦ (
            s,
            ground (arith, get_elem?-snoc sockets s index, ==_iff (length sockets) index),
            sym same,
          )
          | inr (apart, old) ↦
              let (t, at, is) = bound addr index old in
              (t, ground (arith, get_elem?-snoc sockets s index, get_elem?-lt sockets index t), is)
        ],
    λ index t found. elim (ℕ_discrete (length sockets) index) [
      | yes last ↦
          let same : s ≡ t =
            ground (arith, get_elem?-snoc sockets s index, ==_iff (length sockets) index) in
          subst IsQueue same
            (record { filled = rw empty tt; bounded = rw empty (omega arith); limit = limit })
      | no other ↦
          queues index t
            (ground (arith, get_elem?-snoc sockets s index, ==_iff (length sockets) index))
    ],
  )

  bind_one-AreBound :
      (b : Binding q e pq u) (laddrs : Laddrs) (sockets : List (QuicSocket u))
      → AreBound (ok (laddrs, sockets))
      → AreBound (bind_one q e pq u b laddrs sockets)
  unfolding bind_one Udp.new
  bind_one-AreBound b laddrs sockets h = elim (Result-cases b.bound) [
    | inr (x, k) ↦ rw (k, bind_one) tt
    | inl (socket, k) ↦ elim (Result-cases (u.local_addr socket)) [
      | inr (x, l) ↦ rw (k, bind_one, l) tt
      | inl (local_addr, l) ↦ elim (Result-cases b.registered) [
        | inr (x, r) ↦ rw (k, bind_one, l, r) tt
        | inl (t, r) ↦
            let s : QuicSocket u = record {
              sending_buffer_limits = queue_limit q e pq u;
              sending = [];
              socket = socket;
              local_addr = local_addr;
            } in
            rw (k, bind_one, l, r, l) (one_more laddrs sockets s h.0 h.1 refl refl)
      ]
    ]
  ]

  bind_all-AreBound :
      (bs : List (Binding q e pq u)) (laddrs : Laddrs) (sockets : List (QuicSocket u))
      → AreBound (ok (laddrs, sockets))
      → AreBound (bind_all q e pq u bs laddrs sockets)
  unfolding bind_all
  bind_all-AreBound [] laddrs sockets h = h
  bind_all-AreBound (b ∷ bs) laddrs sockets h =
      let one = bind_one-AreBound b laddrs sockets h in
      elim (Result-cases (bind_one q e pq u b laddrs sockets)) [
        | inr (x, k) ↦ rw (k, bind_all) tt
        | inl ((laddrs', sockets'), k) ↦
            rw (k, bind_all) (bind_all-AreBound bs laddrs' sockets' (subst AreBound k one))
      ]

  -- a bound group, or the error of binding it
  abbrev pub Binds : IoResult (Bound q e pq u) → Type 0
  Binds (err x) = Unit {0}
  Binds (ok m) = IsValid m

  -- A group that `bind` returns is valid: every address leads to the socket that is bound to it,
  -- the queues are within the limit of 1024 packets, and the group is valid. The addresses may repeat.
  pub bind-IsValid :
      (bindings : List (Binding q e pq u)) (waker : IoResult (Unit {0}))
      (acceptor : Option (Acceptor q e))
      → Binds (bind q e pq u bindings waker acceptor)
  unfolding bind get
  bind-IsValid bindings waker acceptor =
      let all = bind_all-AreBound bindings [] [] ((λ addr index k. cc), (λ index s k. cc)) in
      elim (Result-cases (bind_all q e pq u bindings [] [])) [
        | inr (x, k) ↦ rw (k, bind) tt
        | inl ((laddrs, sockets), k) ↦
            let bound : AreBound (ok (laddrs, sockets)) = subst AreBound k all in
            elim (Result-cases waker) [
              | inr (x, w) ↦ rw (k, bind, w) tt
              | inl (t, w) ↦
                  rw (k, bind, w)
                    (record {
                      group = Validity.new-IsValid q pq;
                      bound = bound.0;
                      queues = bound.1;
                    })
            ]
      ]

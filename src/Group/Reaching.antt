-- ===== src/Group/Reaching.antt =====
-- crates/poll/src/group.rs: the groups that the operations lead to, in any order.
use rtt.Prelude.{ℕ, ◌≡◌, Bool, Option, List, [], value, IfReturns_at, Returns_at}
use rtt.Api.{StreamKind, Event}
use rtt.Net.{SocketAddr, RecvInfo, SendInfo}
use rtt.Quiche.{Quiche, Endpoint}
use rtt.Readiness.{PriorityQueue}
use rtt.Conn.{Outcome}
use rtt.Acceptor.{Acceptor}
use rtt.Group.{Group, new, register, deregister}
use rtt.Group.Driving.{
  close, stream_open, stream_shutdown, stream_send, stream_recv, send, poll,
  recv_with_connection_id,
}
use rtt.Group.Serving.{Clock, recv, recv_with_acceptor, connect}
use rtt.Group.Validity.{IsValid, new-IsValid}
use rtt.Group.Operating.{stream_send-Answered, stream_recv-Filled}
use rtt.Group.Closing.{close-Served, stream_shutdown-Served, stream_open-Served}
use rtt.Group.Keeping.{
  Answered-IsValid, Served-IsValid, Filled-IsValid, recv_with_connection_id-Keeps, send-Keeps,
  deregister-Keeps, register-Keeps, poll-Keeps, IsValid-Keeps,
}
use rtt.Group.Accepting.{recv_with_acceptor-Keeps, recv-Keeps, connect-Keeps}

module _ (q : Quiche) (e : Endpoint q) (pq : PriorityQueue) where
  -- One operation that returned, whatever its result: the trait methods of the group, and the two that
  -- an event loop calls for a packet.
  pub data Step : Group q pq → Group q pq → Type 0 where
    registers :
        {g t : Group q pq} {r : Outcome q ℕ} (wrapped : q.Connection) (now : ℕ)
        → register q pq g wrapped now ≡ value (t, r)
        → Step g t
    deregisters :
        {g t : Group q pq} {r : Outcome q q.Connection} (token : ℕ)
        → deregister q pq g token ≡ value (t, r)
        → Step g t
    closes :
        {g t : Group q pq} {r : Outcome q (Unit {0})} (token : ℕ) (app : Bool) (x : ℕ)
        (reason : List ℕ) (now : ℕ)
        → close q pq g token app x reason now ≡ value (t, r)
        → Step g t
    opens :
        {g t : Group q pq} {r : Outcome q (Option ℕ)} (token : ℕ) (kind : StreamKind)
        (non_blocking : Bool) (now : ℕ)
        → stream_open q pq g token kind non_blocking now ≡ value (t, r)
        → Step g t
    shuts :
        {g t : Group q pq} {r : Outcome q (Unit {0})} (token stream_id x now : ℕ)
        → stream_shutdown q pq g token stream_id x now ≡ value (t, r)
        → Step g t
    writes :
        {g t : Group q pq} {r : Outcome q ℕ} (token stream_id : ℕ) (buf : List ℕ) (fin : Bool)
        (now : ℕ)
        → stream_send q pq g token stream_id buf fin now ≡ value (t, r)
        → Step g t
    reads :
        {g t : Group q pq} {b : List ℕ} {r : Outcome q (ℕ × Bool)} (token stream_id : ℕ)
        (buf : List ℕ) (now : ℕ)
        → stream_recv q pq g token stream_id buf now ≡ value (t, b, r)
        → Step g t
    sends :
        {g t : Group q pq} {b : List ℕ} {r : Outcome q (ℕ × SendInfo)} (token : ℕ) (buf : List ℕ)
        (now unlock_now : ℕ)
        → send q pq g token buf now unlock_now ≡ value (t, b, r)
        → Step g t
    polls :
        {g t : Group q pq} {b : List Event} {r : Option ℕ} (now : ℕ)
        → poll q pq g [] now ≡ value (t, b, r)
        → Step g t
    receives :
        {g t : Group q pq} {b : List ℕ} {r : Outcome q ℕ} (buf : List ℕ) (info : RecvInfo) (now : ℕ)
        → recv q e pq g buf info now ≡ value (t, b, r)
        → Step g t
    takes :
        {g t : Group q pq} {b : List ℕ} {r : Outcome q (ℕ × ℕ)} (scid buf : List ℕ)
        (info : RecvInfo) (unparker : Option ℕ) (now : ℕ)
        → recv_with_connection_id q pq g scid buf info unparker now ≡ value (t, b, r)
        → Step g t
    serves :
        {g t : Group q pq} {c : Acceptor q e} {b : List ℕ} {r : Outcome q (ℕ × SendInfo)}
        (a : Acceptor q e) (buf : List ℕ) (recv_size : ℕ) (info : RecvInfo) (unparker : Option ℕ)
        (clock : Clock q e pq) (new_scid : List ℕ)
        → recv_with_acceptor q e pq g a buf recv_size info unparker clock new_scid
          ≡ value (t, c, b, r)
        → Step g t
    connects :
        {g t : Group q pq} {b : e.Config} {r : Outcome q ℕ} (server_name : Option (List ℕ))
        (local peer : SocketAddr) (config : e.Config) (id : List ℕ) (now : ℕ)
        → connect q e pq g server_name local peer config id now ≡ value (t, b, r)
        → Step g t

  pub data Reach (g : Group q pq) : Group q pq → Type 0 where
    here : Reach g g
    next : {t u : Group q pq} → Reach g t → Step t u → Reach g u

  Step-IsValid : {g t : Group q pq} → Step g t → IsValid q pq g → IsValid q pq t
  Step-IsValid {g} {t} (registers wrapped now h) v =
      IfReturns_at (λ s. IsValid q pq s.0) _ (register-Keeps q pq g wrapped now v) h
  Step-IsValid {g} {t} (deregisters token h) v =
      IfReturns_at (λ s. IsValid q pq s.0) _ (deregister-Keeps q pq g token v) h
  Step-IsValid {g} {t} (closes {r = r} token app x reason now h) v =
      Served-IsValid q pq g token _ (t, r) v
        (Returns_at _ _ (close-Served q pq g token app x reason now v) h)
  Step-IsValid {g} {t} (opens {r = r} token kind non_blocking now h) v =
      Served-IsValid q pq g token _ (t, r) v
        (Returns_at _ _ (stream_open-Served q pq g token kind non_blocking now v) h)
  Step-IsValid {g} {t} (shuts {r = r} token stream_id x now h) v =
      Served-IsValid q pq g token _ (t, r) v
        (Returns_at _ _ (stream_shutdown-Served q pq g token stream_id x now v) h)
  Step-IsValid {g} {t} (writes {r = r} token stream_id buf fin now h) v =
      Answered-IsValid q pq g token _ (t, r) v
        (Returns_at _ _ (stream_send-Answered q pq g token stream_id buf fin now v) h)
  Step-IsValid {g} {t} (reads {b = b} {r} token stream_id buf now h) v =
      Filled-IsValid q pq g token buf _ (t, b, r) v
        (Returns_at _ _ (stream_recv-Filled q pq g token stream_id buf now v) h)
  Step-IsValid {g} {t} (sends token buf now unlock_now h) v =
      IfReturns_at (λ s. IsValid q pq s.0) _ (send-Keeps q pq g token buf now unlock_now v) h
  Step-IsValid {g} {t} (polls now h) v =
      IfReturns_at (λ s. IsValid q pq s.0) _ (poll-Keeps q pq g now v) h
  Step-IsValid {g} {t} (receives buf info now h) v =
      IfReturns_at (λ s. IsValid q pq s.0) _
        (recv-Keeps q e pq (IsValid q pq) (IsValid-Keeps q pq) g buf info now v) h
  Step-IsValid {g} {t} (takes scid buf info unparker now h) v =
      IfReturns_at (λ s. IsValid q pq s.0) _
        (recv_with_connection_id-Keeps q pq g scid buf info unparker now v) h
  Step-IsValid {g} {t} (serves a buf recv_size info unparker clock new_scid h) v =
      IfReturns_at (λ s. IsValid q pq s.0) _
        (recv_with_acceptor-Keeps q e pq (IsValid q pq) (IsValid-Keeps q pq) g a buf recv_size info
          unparker clock new_scid v)
        h
  Step-IsValid {g} {t} (connects server_name local peer config id now h) v =
      IfReturns_at (λ s. IsValid q pq s.0) _
        (connect-Keeps q e pq (IsValid q pq) (IsValid-Keeps q pq) g server_name local peer config id
          now v)
        h

  pub Reach-IsValid_from : {g t : Group q pq} → Reach g t → IsValid q pq g → IsValid q pq t
  Reach-IsValid_from here v = v
  Reach-IsValid_from (next r st) v = Step-IsValid st (Reach-IsValid_from r v)

  -- However operations that return follow one another from a new group, the group between them is
  -- valid: every connection is unlocked, carries its token, is found by its id and has no
  -- readers, only operations that can be retried wait for a retry, no event is both ready and
  -- delayed or ready twice, and the next token is below 2^32.
  pub Reach-IsValid : {g : Group q pq} → Reach (new q pq) g → IsValid q pq g
  Reach-IsValid r = Reach-IsValid_from r (new-IsValid q pq)

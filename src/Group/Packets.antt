-- ===== src/Group/Packets.antt =====
-- crates/poll/src/group.rs: `recv_with_acceptor` on a packet that no connection knows.
use rtt.Prelude.{
  ℕ, ◌≤◌, ◌-◌, ◌≡◌, ap, ◌∙◌, ◌++◌, true, slice, Option, none, List, value, panic, arith, length,
  take, drop, slice_lem,
}
use rtt.Prelude.Maps.{get}
use rtt.Prelude.Io.{ok, err}
use rtt.Api.{not_found}
use rtt.Net.{RecvInfo}
use rtt.Quiche.{Quiche, Header, Endpoint}
use rtt.Readiness.{PriorityQueue}
use rtt.Acceptor.{Acceptor}
use rtt.Acceptor.Tokens.{shake_without_token}
use rtt.Group.{Group, id_discrete}
use rtt.Group.Driving.{recv_with_connection_id}
use rtt.Group.Serving.{Clock, recv_with_acceptor}

module _ (q : Quiche) (e : Endpoint q) (pq : PriorityQueue) where
  recv_unknown :
      (g : Group q pq) (scid buf : List ℕ) (info : RecvInfo) (unparker : Option ℕ) (now : ℕ)
      → get id_discrete scid g.scids ≡ none
      → recv_with_connection_id q pq g scid buf info unparker now ≡ value (g, buf, err not_found)
  unfolding recv_with_connection_id
  recv_unknown g scid buf info unparker now e = rw (e, recv_with_connection_id)

  -- In `recv_with_acceptor` a packet that `quiche` parses, of a supported version and without a
  -- token, whose destination id leads to no connection, panics.
  pub recv_without_token :
      (g : Group q pq) (a : Acceptor q e) (buf : List ℕ) (recv_size : ℕ) (info : RecvInfo)
      (unparker : Option ℕ) (clock : Clock q e pq) (new_scid : List ℕ) (header : Header)
      → recv_size ≤ length buf
      → e.header_from_slice (take recv_size buf) ≡ ok header
      → get id_discrete header.dcid g.scids ≡ none
      → e.version_is_supported header.version ≡ true
      → header.token ≡ none
      → recv_with_acceptor q e pq g a buf recv_size info unparker clock new_scid ≡ panic
  unfolding recv_with_acceptor
  recv_without_token g a buf recv_size info unparker clock new_scid header fits parsed unknown
        supported missing =
      let whole : recv_size - 0 ≡ recv_size = omega arith in
      let packet : slice buf 0 recv_size ≡ value (take recv_size buf) =
        slice_lem buf 0 recv_size (omega arith) fits ∙ ap (λ n. value (take n buf)) whole in
      let shaken =
        shake_without_token q e a header (take recv_size buf ++ drop recv_size buf) new_scid info
          clock.handshake_at supported missing in
      rw (
        packet,
        parsed,
        recv_unknown g header.dcid (take recv_size buf) info unparker clock.recv_at unknown,
        shaken,
      )

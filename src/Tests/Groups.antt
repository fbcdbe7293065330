-- ===== src/Tests/Groups.antt =====
-- A group of one connection, on small inputs.
use native.Mathlib.Decide.{ℕ_discrete}
use rtt.Prelude.{◌≡◌, refl, true, false, none, some, [], ◌∷◌, panic, Returns, arith, length}
use rtt.Prelude.Collections.{list_discrete}
use rtt.Prelude.Maps.{get, put, erase}
use rtt.Prelude.Io.{err, ok}
use rtt.Api.{uni}
use rtt.Readiness.{Readiness}
use rtt.Readiness
use rtt.Readiness.View.{new-IsValid}
use rtt.Conn.{LocKind, LocKind-discrete, recv, Conn, LockContext, stream_close_prv}
use rtt.Conn.Opening.{answer}
use rtt.Group.{Group, new, id_discrete, set_conn, register, deregister, unlock}
use rtt.Group.Driving.{stream_send, stream_recv, send, send_result, stream_open}
use rtt.Group.Validity.{
  Registered, IsValid, new-IsValid as new_group-IsValid, IsGuarded, set_conn-IsValid,
}
use rtt.Group.Guards.{locked-IsGuarded}
use rtt.Group.Unlocking.{woken, Finished, unlock-Finished}
use rtt.Group.Operating.{
  Answered, Filled, stream_send-Answered, received, stream_recv-Filled, sent, send-Filled,
}
use rtt.Group.Closing.{Served, stream_open-Served, deregister_guarded}
use rtt.Group.Registering.{named-IsValid, Joined, register-Joined}
use rtt.Net.{RecvInfo}
use rtt.Group.Serving.{Clock, recv_with_acceptor}
use rtt.Prelude.{◌++◌}
use rtt.Api.{busy}
use rtt.Group.Driving.{recv_with_connection_id}
use rtt.Group.Receiving.{recv_parked-Woken, Delivered, recv-Delivered}
use rtt.Group.Packets.{recv_without_token}
use rtt.Tests.Tokens.{acceptor}
use rtt.Tests.Heap.{heap}
use rtt.Tests.Peer.{peers, endpoints, some_address, server_peer}
use rtt.Tests.Connections.{fresh, fresh-IsLockValid, fresh_unlocked}

abbrev pub Groups : Type 0
Groups = Group peers heap

abbrev pub empty : Groups
empty = new peers heap

empty-IsValid : IsValid peers heap empty
empty-IsValid = new_group-IsValid peers heap

-- the group with the id of `fresh`, and with `fresh` too
abbrev pub named : Groups
named = record empty { token_next = 1; scids = put id_discrete (7 ∷ 7 ∷ []) 0 [] }

abbrev pub one : Groups
one = record (set_conn peers heap named 0 fresh) { readiness = Readiness.new heap }

fresh-Registered : Registered peers heap named.scids 0 fresh
unfolding rtt.Conn.new get ℕ_discrete list_discrete
fresh-Registered = record { same_token = refl; lock = fresh-IsLockValid; scid = refl }

pub one-IsValid : IsValid peers heap one
unfolding new get
one-IsValid =
    set_conn-IsValid peers heap named 0 fresh (Readiness.new heap)
      (named-IsValid peers heap empty (7 ∷ 7 ∷ []) 0 1 empty-IsValid (omega arith) refl)
      fresh-Registered fresh_unlocked (new-IsValid heap)

pub one_found : get ℕ_discrete 0 one.conns ≡ some fresh
unfolding get ℕ_discrete
one_found = refl

-- the group while a receiver holds a guard for `fresh`
abbrev guard : LockContext
guard = record { token = 0; lock_count = fresh.lock_count; send_done = false }

abbrev guarded : Groups
guarded =
    set_conn peers heap (set_conn peers heap one 0 (record fresh { locker = recv })) 0
      (record fresh { locker = recv; wrapped = server_peer })

guarded-IsGuarded :
    IsGuarded peers heap guarded guard (record fresh { locker = recv; wrapped = server_peer })
unfolding LocKind-discrete rtt.Conn.new
guarded-IsGuarded =
    locked-IsGuarded peers heap one 0 fresh recv server_peer false one-IsValid one_found refl refl
      refl

unlock-Finished_example :
    Returns (unlock peers heap guarded guard 5) (Finished peers heap (woken peers heap guarded 0) 0)
unlock-Finished_example =
    unlock-Finished peers heap guarded guard (record fresh { locker = recv; wrapped = server_peer })
      5 guarded-IsGuarded

deregister_guarded_example :
    Returns
      (deregister peers heap guarded 0)
      λ t. (t.1 ≡ ok server_peer) × (unlock peers heap t.0 guard 5 ≡ panic)
deregister_guarded_example =
    deregister_guarded peers heap guarded guard
      (record fresh { locker = recv; wrapped = server_peer }) 5 guarded-IsGuarded

one_few : length one.conns ≡ 1
unfolding new erase
one_few = refl

new_id : get id_discrete (8 ∷ []) one.scids ≡ none
unfolding new get ℕ_discrete list_discrete erase
new_id = refl

register-Joined_example :
    Returns
      (register peers heap one (record server_peer { id = 8 ∷ [] }) 5)
      (Joined peers heap one (record server_peer { id = 8 ∷ [] }))
register-Joined_example =
    register-Joined peers heap one (record server_peer { id = 8 ∷ [] }) 5 one-IsValid
      (omega (arith, one_few)) new_id

stream_send-Answered_example : Returns (stream_send peers heap one 0 4 (1 ∷ 2 ∷ []) true 5) (
    Answered peers heap one 0
      λ c. send_result peers heap (peers.stream_send c.wrapped 4 (1 ∷ 2 ∷ []) true).1)
stream_send-Answered_example =
    stream_send-Answered peers heap one 0 4 (1 ∷ 2 ∷ []) true 5 one-IsValid

stream_recv-Filled_example :
    Returns
      (stream_recv peers heap one 0 4 (0 ∷ []) 5)
      (Filled peers heap one 0 (0 ∷ []) (received peers heap (0 ∷ []) 4))
stream_recv-Filled_example = stream_recv-Filled peers heap one 0 4 (0 ∷ []) 5 one-IsValid

send-Filled_example :
    Returns
      (send peers heap one 0 (0 ∷ []) 5 6)
      (Filled peers heap one 0 (0 ∷ []) (sent peers heap (0 ∷ []) 5))
send-Filled_example = send-Filled peers heap one 0 (0 ∷ []) 5 6 one-IsValid

stream_open-Served_example :
    Returns
      (stream_open peers heap one 0 uni true 5)
      (Served peers heap one 0 λ c. answer peers heap c uni true)
stream_open-Served_example = stream_open-Served peers heap one 0 uni true 5 one-IsValid

abbrev clock : Clock peers endpoints heap
clock = record {
  handshake_at = 1;
  register_at = 1;
  recv_at = 1;
  send_at = 1;
  unlock_at = 1;
  end_at = 1;
}

abbrev info : RecvInfo
info = record { from = some_address; to = some_address }

-- the header that the peers read off this packet has no token
stranger : get id_discrete (6 ∷ 6 ∷ []) one.scids ≡ none
unfolding new get ℕ_discrete list_discrete erase
stranger = refl

recv_without_token_example :
    recv_with_acceptor peers endpoints heap one acceptor (6 ∷ 6 ∷ 0 ∷ []) 2 info none clock (3 ∷ [])
    ≡ panic
recv_without_token_example =
    recv_without_token peers endpoints heap one acceptor (6 ∷ 6 ∷ 0 ∷ []) 2 info none clock (3 ∷ [])
      (record { version = 1; scid = []; dcid = 6 ∷ 6 ∷ []; token = none }) (omega arith) refl
      stranger refl refl

known : get id_discrete (7 ∷ 7 ∷ []) guarded.scids ≡ some 0
unfolding new get ℕ_discrete list_discrete
known = refl

recv_parked-Woken_example :
    Returns (recv_with_connection_id peers heap guarded (7 ∷ 7 ∷ []) (1 ∷ []) info (some 12) 5) λ t.
      (t.1 ≡ 1 ∷ [])
      × (t.2 ≡ err busy)
      × Returns
          (unlock peers heap t.0 guard 6)
          (Finished peers heap (guarded.unparked ++ (12 ∷ [])) 0)
recv_parked-Woken_example =
    recv_parked-Woken peers heap guarded guard
      (record fresh { locker = recv; wrapped = server_peer }) (7 ∷ 7 ∷ []) (1 ∷ []) info 12 5 6
      guarded-IsGuarded known

recv-Delivered_example :
    Returns
      (recv_with_connection_id peers heap one (7 ∷ 7 ∷ []) (1 ∷ []) info none 5)
      (Delivered peers heap one (1 ∷ []) info (get id_discrete (7 ∷ 7 ∷ []) one.scids))
recv-Delivered_example = recv-Delivered peers heap one (7 ∷ 7 ∷ []) (1 ∷ []) info none 5 one-IsValid

-- ===== src/Tests/Reaching.antt =====
-- Groups that operations lead to, on small inputs.
use native.Mathlib.Decide.{ℕ_discrete}
use rtt.Prelude.{◌≡◌, refl, Bool, false, List, [], ◌∷◌, Checked, value, panic}
use rtt.Prelude.Collections.{list_discrete}
use rtt.Prelude.Maps.{get, erase}
use rtt.Prelude.Io.{ok}
use rtt.Conn.{LocKind-discrete, stream_close_prv}
use rtt.Group.{new, register, deregister, unlock, unlock_conn}
use rtt.Group.Driving.{stream_send}
use rtt.Group.Validity.{IsValid}
use rtt.Group.Reaching.{Reach, here, next, registers, writes, Reach-IsValid}
use rtt.Prelude.Maps.{put}
use rtt.Conn.{recv, Conn, LockContext}
use rtt.Group.{set_conn}
use rtt.Group.Driving.{lock}
use rtt.Group.Sharing.{Guards, no_guards}
use rtt.Group.Interleaving
use rtt.Tests.Connections.{fresh}
use rtt.Tests.Groups.{one}
use rtt.Tests.Heap.{heap}
use rtt.Tests.Peer.{peers, endpoints, server_peer}
use rtt.Tests.Groups.{Groups, empty}

-- the group after an operation that returned
abbrev after : {A : Type 0} → Checked (Groups × A) → Groups
after (value t) = t.0
after panic = empty

-- after registering a connection, and after writing to a stream of it
abbrev pub first : Groups
first = after (register peers heap empty server_peer 5)

abbrev pub second : Groups
second = after (stream_send peers heap first 0 4 (1 ∷ 2 ∷ []) false 6)

pub registered : register peers heap empty server_peer 5 ≡ value (first, ok 0)
unfolding register rtt.Group.register_loop rtt.Group.register_at new get erase rtt.Conn.new
    rtt.Conn.try_lock_prv LocKind-discrete rtt.Conn.Methods.unlock rtt.Conn.Methods.after_unlock
    rtt.Conn.Handlers.handle_retry_events rtt.Conn.Handlers.handle_retries
    rtt.Conn.Methods.free_lock rtt.Conn.Handlers.handle_stream_state_changed
    rtt.Conn.Handlers.writable_loop rtt.Conn.Handlers.readable_loop
    rtt.Conn.Handlers.handle_readable rtt.Api.is_local rtt.Api.is_bidi
registered = refl

wrote : stream_send peers heap first 0 4 (1 ∷ 2 ∷ []) false 6 ≡ value (second, ok 2)
unfolding stream_send register rtt.Group.register_loop rtt.Group.register_at new get erase
    rtt.Conn.new rtt.Conn.try_lock_prv LocKind-discrete rtt.Conn.Methods.unlock
    rtt.Conn.Methods.after_unlock rtt.Conn.Handlers.handle_retry_events
    rtt.Conn.Handlers.handle_retries rtt.Conn.Methods.free_lock
    rtt.Conn.Handlers.handle_stream_state_changed rtt.Conn.Handlers.writable_loop
    rtt.Conn.Handlers.readable_loop rtt.Conn.Handlers.handle_readable rtt.Api.is_local
    rtt.Api.is_bidi ℕ_discrete rtt.Api.StreamKind-discrete rtt.Conn.Handlers.handle_accept
    rtt.Conn.Handlers.handle_established rtt.Conn.Handlers.handle_retry
    rtt.Conn.Handlers.handle_send rtt.Conn.Handlers.handle_state_changed rtt.Conn.need_retry
    rtt.Conn.refused rtt.Conn.shutdown_send rtt.Conn.stop_receive stream_close_prv
    rtt.Conn.try_lock_from rtt.Group.Driving.lock deregister unlock unlock_conn rtt.Group.unpark
    rtt.Prelude.Collections.contains rtt.Prelude.Collections.insert list_discrete
    rtt.Timing.delay_send rtt.Timing.min_of_some
wrote = refl

pub to_second : Reach peers endpoints heap empty second
to_second =
    next (next here (registers server_peer 5 registered)) (writes 0 4 (1 ∷ 2 ∷ []) false 6 wrote)

Reach-IsValid_example : IsValid peers heap second
Reach-IsValid_example = Reach-IsValid peers endpoints heap to_second

-- One thread holds the connection to receive, and another parks for it.
abbrev holding : Groups
holding = set_conn peers heap one 0 (record fresh { locker = recv })

abbrev guard : LockContext
guard = record { token = 0; lock_count = fresh.lock_count; send_done = false }

abbrev guarded : Guards
guarded = record no_guards { locks = put ℕ_discrete 0 fresh.lock_count [] }

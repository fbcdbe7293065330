-- ===== src/Tests/Connections.antt =====
-- A connection, on small inputs.
use rtt.Prelude.{◌≡◌, ◌≢◌, refl, true, false, Returns, arith}
use rtt.Prelude.Collections.{contains}
use rtt.Api.{bidi}
use rtt.Conn.{unlocked, recv, stream_send, Conn, new, try_lock_prv}
use rtt.Conn.Handlers.{handle_accept}
use rtt.Conn.Methods.{unlock, open_stream}
use rtt.Conn.Locking.{IsLockValid, Tried, try_lock_prv-Tried}
use rtt.Conn.Unlocking.{Unlocked, unlock-Unlocked}
use rtt.Conn.StreamIds.{new-IsIds, Numbered, open_stream-Numbered}
use rtt.Conn.Accepting.{Accepted, handle_accept-Accepted}
use rtt.Tests.Heap.{heap}
use rtt.Tests.Peer.{peers, server_peer}
use rtt.Tests.Events.{two_waiting, two_waiting-IsValid}

-- a new connection, and one that a receiver holds while two others wait
abbrev pub fresh : Conn peers
fresh = new peers 0 server_peer

pub fresh-IsLockValid : IsLockValid peers fresh
unfolding new contains
fresh-IsLockValid = record {
  readers = λ e. ground arith;
  no_readers = λ e. refl;
  small = omega arith;
  retries = λ kind e. cc;
}

pub fresh_unlocked : fresh.locker ≡ unlocked
unfolding new
fresh_unlocked = refl

abbrev held : Conn peers
held = record fresh { locker = recv }

held-IsLockValid : IsLockValid peers held
unfolding new contains
held-IsLockValid = record {
  readers = λ e. ground arith;
  no_readers = λ e. refl;
  small = omega arith;
  retries = λ kind e. cc;
}

held_locked : held.locker ≢ unlocked
held_locked e = ground arith

try_lock_prv-Tried_example :
    Returns (try_lock_prv peers held (stream_send 4 100)) (Tried peers held (stream_send 4 100))
try_lock_prv-Tried_example = try_lock_prv-Tried peers held (stream_send 4 100) held-IsLockValid

unlock-Unlocked_example :
    Returns (unlock peers heap held held.lock_count true 5 two_waiting) (Unlocked peers heap held)
unlock-Unlocked_example =
    unlock-Unlocked peers heap held true 5 two_waiting held-IsLockValid held_locked
      two_waiting-IsValid

open_stream-Numbered_example :
    Returns
      (open_stream peers heap fresh bidi false 5 two_waiting)
      (Numbered peers heap fresh bidi false)
open_stream-Numbered_example =
    open_stream-Numbered peers heap fresh bidi false 5 two_waiting fresh-IsLockValid fresh_unlocked
      two_waiting-IsValid (new-IsIds peers heap 0 server_peer)

handle_accept-Accepted_example :
    Accepted peers heap fresh two_waiting 4 (handle_accept peers heap fresh two_waiting 4)
handle_accept-Accepted_example = handle_accept-Accepted peers heap fresh two_waiting 4

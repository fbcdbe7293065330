-- ===== src/Group/Keeping.antt =====
-- crates/poll/src/group.rs: every operation that returns keeps a group valid, also where it ends early
-- with an error.
use native.Mathlib.Decide.{ℕ_discrete}
use rtt.Prelude.{
  ℕ, zero, suc, ◌+◌, ◌%◌, ◌≡◌, ◌<◌, sym, subst, inl, inr, Option, none, some, List, arith,
  Option-cases, IfReturns, IfReturns_of, IfReturns_bind, [], length,
}
use rtt.Prelude.Maps.{get}
use rtt.Net.{RecvInfo}
use rtt.Quiche.{Quiche}
use rtt.Readiness.{PriorityQueue}
use rtt.Conn.{Conn, Outcome}
use rtt.Group.{
  Group, release_timer_threshold, id_discrete, u32_mod, register_at, register_loop, register,
  deregister,
}
use rtt.Group.Removing.{deregister_unknown}
use rtt.Group.Driving.{recv_with_connection_id, send, poll}
use rtt.Group.Accepting.{Keeps}
use rtt.Readiness.Polling.{poll-Polled}
use rtt.Readiness
use rtt.Group.Validity.{IsValid, deregister-IsValid}
use rtt.Group.Operating.{Answered, Filled, send-Filled}
use rtt.Group.Closing.{Served}
use rtt.Group.Receiving.{Delivered, recv-Delivered}
use rtt.Group.Registering.{register_at-Joined}

module _ (q : Quiche) (pq : PriorityQueue) where
  pub Answered-IsValid :
      {A : Type 0} (g : Group q pq) (token : ℕ) (result : Conn q → Outcome q A)
      (t : Group q pq × Outcome q A)
      → IsValid q pq g
      → Answered q pq g token result t
      → IsValid q pq t.0
  Answered-IsValid g token result t v h = elim (Option-cases (get ℕ_discrete token g.conns)) [
    | inl e ↦ let (same, r) = (rw (Answered, e) at h) in subst (IsValid q pq) (sym same) v
    | inr (c, e) ↦ let (f, r) = (rw (Answered, e) at h) in f.valid
  ]

  pub Served-IsValid :
      {A : Type 0} (g : Group q pq) (token : ℕ) (result : Conn q → Outcome q A)
      (t : Group q pq × Outcome q A)
      → IsValid q pq g
      → Served q pq g token result t
      → IsValid q pq t.0
  Served-IsValid g token result t v h = elim (Option-cases (get ℕ_discrete token g.conns)) [
    | inl e ↦ let (same, r) = (rw (Served, e) at h) in subst (IsValid q pq) (sym same) v
    | inr (c, e) ↦ let (f, r) = (rw (Served, e) at h) in f
  ]

  pub Filled-IsValid :
      {A : Type 0} (g : Group q pq) (token : ℕ) (buf : List ℕ)
      (result : Conn q → List ℕ × Outcome q A) (t : Group q pq × List ℕ × Outcome q A)
      → IsValid q pq g
      → Filled q pq g token buf result t
      → IsValid q pq t.0
  Filled-IsValid g token buf result t v h = elim (Option-cases (get ℕ_discrete token g.conns)) [
    | inl e ↦ let (same, b, r) = (rw (Filled, e) at h) in subst (IsValid q pq) (sym same) v
    | inr (c, e) ↦ let (f, b, r) = (rw (Filled, e) at h) in f.valid
  ]

  Delivered-IsValid :
      (g : Group q pq) (buf : List ℕ) (info : RecvInfo) (token : Option ℕ)
      (t : Group q pq × List ℕ × Outcome q (ℕ × ℕ))
      → IsValid q pq g
      → Delivered q pq g buf info token t
      → IsValid q pq t.0
  Delivered-IsValid g buf info none t v h = subst (IsValid q pq) (sym h.0) v
  Delivered-IsValid g buf info (some token) t v h =
      elim (Option-cases (get ℕ_discrete token g.conns)) [
        | inl e ↦ let (same, b, r) = (rw (Delivered, e) at h) in subst (IsValid q pq) (sym same) v
        | inr (c, e) ↦ let (f, b, r) = (rw (Delivered, e) at h) in f.valid
      ]

  pub recv_with_connection_id-Keeps :
      (g : Group q pq) (scid buf : List ℕ) (info : RecvInfo) (unparker : Option ℕ) (now : ℕ)
      → IsValid q pq g
      → IfReturns
          (recv_with_connection_id q pq g scid buf info unparker now)
          (λ t. IsValid q pq t.0)
  recv_with_connection_id-Keeps g scid buf info unparker now v =
      IfReturns_of _ _ (recv_with_connection_id q pq g scid buf info unparker now)
        (recv-Delivered q pq g scid buf info unparker now v)
        (λ t f. Delivered-IsValid g buf info _ t v f)

  pub send-Keeps :
      (g : Group q pq) (token : ℕ) (buf : List ℕ) (now unlock_now : ℕ)
      → IsValid q pq g
      → IfReturns (send q pq g token buf now unlock_now) (λ t. IsValid q pq t.0)
  send-Keeps g token buf now unlock_now v =
      IfReturns_of _ _ (send q pq g token buf now unlock_now)
        (send-Filled q pq g token buf now unlock_now v) (λ t f. Filled-IsValid g token buf _ t v f)

  pub deregister-Keeps :
      (g : Group q pq) (token : ℕ)
      → IsValid q pq g
      → IfReturns (deregister q pq g token) (λ t. IsValid q pq t.0)
  deregister-Keeps g token v = elim (Option-cases (get ℕ_discrete token g.conns)) [
    | inl e ↦ rw (deregister_unknown q pq g token e) v
    | inr (c, e) ↦
        IfReturns_of _ _ (deregister q pq g token) (deregister-IsValid q pq g token c v e)
          (λ t f. f.1)
  ]

  -- a known id: `register_at` panics
  register_at-Keeps :
      (g : Group q pq) (wrapped : q.Connection) (token next now : ℕ)
      → IsValid q pq g
      → next < u32_mod
      → get ℕ_discrete token g.conns ≡ none
      → IfReturns
          (register_at q pq (record g { token_next = next }) token wrapped now)
          (λ t. IsValid q pq t.0)
  unfolding register_at
  register_at-Keeps g wrapped token next now v small free =
      let id = q.source_id wrapped in
      elim (Option-cases (get id_discrete id g.scids)) [
        | inl new ↦
            IfReturns_of _ _ (register_at q pq (record g { token_next = next }) token wrapped now)
              (register_at-Joined q pq g wrapped token next now v small new free) (λ t j. j.valid)
        | inr (other, known) ↦ rw (known, register_at) tt
      ]

  register_loop-Keeps :
      (fuel : ℕ) (g : Group q pq) (wrapped : q.Connection) (next now : ℕ)
      → IsValid q pq g
      → next < u32_mod
      → IfReturns
          (register_loop q pq fuel (record g { token_next = next }) wrapped now)
          (λ t. IsValid q pq t.0)
  unfolding register_loop
  register_loop-Keeps zero g wrapped next now v small = tt
  register_loop-Keeps (suc fuel) g wrapped next now v small =
      let after = (next + 1) % u32_mod in
      elim (Option-cases (get ℕ_discrete next g.conns)) [
        | inl free ↦ rw free (register_at-Keeps g wrapped next after now v (omega arith) free)
        | inr (c, taken) ↦ rw taken (register_loop-Keeps fuel g wrapped after now v (omega arith))
      ]

  pub register-Keeps :
      (g : Group q pq) (wrapped : q.Connection) (now : ℕ)
      → IsValid q pq g
      → IfReturns (register q pq g wrapped now) (λ t. IsValid q pq t.0)
  unfolding register
  register-Keeps g wrapped now v =
      register_loop-Keeps (suc (length g.conns)) g wrapped g.token_next now v v.next

  pub poll-Keeps :
      (g : Group q pq) (now : ℕ)
      → IsValid q pq g
      → IfReturns (poll q pq g [] now) (λ t. IsValid q pq t.0)
  unfolding poll
  poll-Keeps g now v =
      let polling = Readiness.poll pq g.readiness now release_timer_threshold [] in
      IfReturns_bind _ polling _ (
        IfReturns_of _ _ polling
          (poll-Polled pq now release_timer_threshold g.readiness v.readiness)
          λ t p. record {
            next = v.next;
            readiness = p.valid;
            registered = v.registered;
            idle = v.idle;
          })

  pub IsValid-Keeps : Keeps q pq (IsValid q pq)
  IsValid-Keeps = record {
    registers = register-Keeps;
    receives = recv_with_connection_id-Keeps;
    sends = send-Keeps;
  }

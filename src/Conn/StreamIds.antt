-- ===== src/Conn/StreamIds.antt =====
-- crates/poll/src/conn.rs: the stream ids that `stream_open` gives.
use rtt.Prelude.{
  ℕ, ◌%◌, ◌≡◌, refl, sym, ap, ◌∙◌, inl, inr, Bool, true, false, Option, List, ◌==◌, if◌then◌else◌,
  arith, Bool-cases, Returns, Returns_weaken, add64, ◌&&◌, not,
}
use rtt.Prelude.Collections.{beq}
use rtt.Api.{StreamKind, uni, bidi, StreamKind-discrete, is_local, is_bidi, stream_kind}
use rtt.Quiche.{Quiche, endpoint}
use rtt.Readiness.{PriorityQueue, Readiness}
use rtt.Readiness.View.{IsValid}
use rtt.Conn.{unlocked, Conn, Outcome, new, stream_open_prv, create_stream}
use rtt.Conn.Locking.{IsLockValid}
use rtt.Conn.Methods.{open_stream}
use rtt.Conn.Opening.{streams_left, next_id, opening, answer, open_stream-Released}

-- the first id of a kind that an endpoint gives
abbrev pub first_id : Bool → StreamKind → ℕ
first_id is_server uni = if is_server then 3 else 2
first_id is_server bidi = if is_server then 1 else 0

step_mod : (b : Bool) (n : ℕ) → (if b then add64 n 4 else n) % 4 ≡ n % 4
step_mod true n = omega arith
step_mod false n = refl

module _ (q : Quiche) (pq : PriorityQueue) where
  -- The next ids have the two low bits of their endpoint and kind.
  pub IsIds : Conn q → Type 0
  IsIds c = (kind : StreamKind) → next_id q pq c kind % 4 ≡ first_id (q.is_server c.wrapped) kind

  pub new-IsIds : (token : ℕ) (conn : q.Connection) → IsIds (new q token conn)
  unfolding IsIds new
  new-IsIds token conn uni = ground arith
  new-IsIds token conn bidi = ground arith

  -- What `stream_open` does to the ids, and what it returns.
  pub record Numbered (c : Conn q) (kind : StreamKind) (non_blocking : Bool)
      (t : Conn q × Readiness pq × Outcome q (Option ℕ)) : Type 0 where
    pub returned : t.2 ≡ answer q pq c kind non_blocking
    pub own : is_local (next_id q pq c kind) (q.is_server c.wrapped) ≡ true
    pub same_kind : stream_kind (next_id q pq c kind) ≡ kind
    pub next :
        (other : StreamKind)
        → next_id q pq t.0 other ≡ (
            if beq StreamKind-discrete other kind && not (streams_left q pq c kind == 0)
            then add64 (next_id q pq c other) 4
            else next_id q pq c other)
    pub ids : IsIds t.0

  opening-next :
      (c : Conn q) (kind other : StreamKind)
      → next_id q pq (opening q pq c kind) other ≡ (
          if beq StreamKind-discrete other kind && not (streams_left q pq c kind == 0)
          then add64 (next_id q pq c other) 4
          else next_id q pq c other)
  unfolding stream_open_prv create_stream StreamKind-discrete
  opening-next c uni uni = elim (Bool-cases (streams_left q pq c uni == 0)) [
    | inl z ↦ rw z
    | inr more ↦ rw more
  ]
  opening-next c uni bidi = elim (Bool-cases (streams_left q pq c uni == 0)) [
    | inl z ↦ rw z
    | inr more ↦ rw more
  ]
  opening-next c bidi uni = elim (Bool-cases (streams_left q pq c bidi == 0)) [
    | inl z ↦ rw z
    | inr more ↦ rw more
  ]
  opening-next c bidi bidi = elim (Bool-cases (streams_left q pq c bidi == 0)) [
    | inl z ↦ rw z
    | inr more ↦ rw more
  ]

  pub opening_same :
      (c : Conn q) (kind : StreamKind)
      → endpoint q (opening q pq c kind).wrapped ≡ endpoint q c.wrapped
  unfolding stream_open_prv create_stream
  opening_same c uni = elim (Bool-cases (streams_left q pq c uni == 0)) [
    | inl z ↦ rw z
    | inr more ↦ rw more (q.stream_priority_same c.wrapped _ 255 true)
  ]
  opening_same c bidi = elim (Bool-cases (streams_left q pq c bidi == 0)) [
    | inl z ↦ rw z
    | inr more ↦ rw more (q.stream_priority_same c.wrapped _ 255 true)
  ]

  pub opening_token : (c : Conn q) (kind : StreamKind) → (opening q pq c kind).token ≡ c.token
  unfolding stream_open_prv create_stream
  opening_token c uni = elim (Bool-cases (streams_left q pq c uni == 0)) [
    | inl z ↦ rw z
    | inr more ↦ rw more
  ]
  opening_token c bidi = elim (Bool-cases (streams_left q pq c bidi == 0)) [
    | inl z ↦ rw z
    | inr more ↦ rw more
  ]

  first_id_own :
      (id : ℕ) (kind : StreamKind) (is_server : Bool)
      → id % 4 ≡ first_id is_server kind
      → (is_local id is_server ≡ true) × (stream_kind id ≡ kind)
  unfolding is_local is_bidi stream_kind
  first_id_own id uni true h = (ground arith, ground arith)
  first_id_own id uni false h = (ground arith, ground arith)
  first_id_own id bidi true h = (ground arith, ground arith)
  first_id_own id bidi false h = (ground arith, ground arith)

  -- Opening a stream on an idle connection whose next ids carry its role and their kind never
  -- panics. It returns the next id of the kind, or the error of `quiche`, and moves that next id
  -- on by four (modulo 2^64); if the peer takes no more streams it returns nothing or asks for a
  -- retry, and the ids stay. The id is local, of the kind asked for, and the next ids carry the
  -- role and kind again.
  pub open_stream-Numbered :
      (c : Conn q) (kind : StreamKind) (non_blocking : Bool) (now : ℕ) (r : Readiness pq)
      → IsLockValid q c
      → c.locker ≡ unlocked
      → IsValid pq r
      → IsIds c
      → Returns (open_stream q pq c kind non_blocking now r) (Numbered c kind non_blocking)
  unfolding IsIds
  open_stream-Numbered c kind non_blocking now r v free ready ids =
      let own = first_id_own (next_id q pq c kind) kind (q.is_server c.wrapped) (ids kind) in
      Returns_weaken _ _ (open_stream q pq c kind non_blocking now r)
        (open_stream-Released q pq c kind non_blocking now r v free ready)
        λ t f.
          let same : (other : StreamKind)
              → next_id q pq t.0 other ≡ next_id q pq (opening q pq c kind) other =
            λ other.
              elim other as (λ o. next_id q pq t.0 o ≡ next_id q pq (opening q pq c kind) o) [
                | uni ↦ f.uni_next
                | bidi ↦ f.bidi_next
              ] in
          record {
            returned = f.returned;
            own = own.0;
            same_kind = own.1;
            next = λ other. same other ∙ opening-next c kind other;
            ids = λ other.
                ap (λ n. n % 4) (same other ∙ opening-next c kind other)
                ∙ step_mod _ (next_id q pq c other)
                ∙ ids other
                ∙ ap (λ (e : Bool × List ℕ). first_id e.0 other)
                    (sym (f.same ∙ opening_same c kind));
          }

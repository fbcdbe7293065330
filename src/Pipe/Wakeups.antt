-- ===== src/Pipe/Wakeups.antt =====
-- crates/ringbuff/src/pipe.rs: no wake-up is lost.
use rtt.Prelude.{
  ℕ, ◌+◌, ◌<◌, ◌≡◌, refl, ◌⊎◌, inl, inr, none, List, [], ◌++◌, arith, length, false, ◌==◌,
  Bool-cases, u64_mod, min, ==_iff, Returns,
}
use rtt.RingBuf.{RingBuf, capacity, readable, writable}
use rtt.RingBuf.Contents.{IsValid, readable_lem, writable_lem}
use rtt.RingBuf.Write.{Appended, write-Appended}
use rtt.RingBuf.Read.{Removed, read-Removed}
use rtt.Pipe.{
  Pipe, read, write, poll_read, poll_write, close, wake, Call, reads, writes, poll_reads,
  poll_writes, closes, Outcome, call,
}

-- A parked reader means that there is nothing to read, a parked writer that there is no room, and
-- either that the pipe is open.
pub record Parked (p : Pipe) : Type 0 where
  pub reader_waits : (p.reader ≡ none) ⊎ ((readable p.ring_buf ≡ 0) × (p.closed ≡ false))
  pub writer_waits : (p.writer ≡ none) ⊎ ((writable p.ring_buf ≡ 0) × (p.closed ≡ false))

-- The buffer of a call is not empty.
abbrev pub HasRoom : Call → Type 0
HasRoom (reads buf) = 0 < length buf
HasRoom (writes buf) = 0 < length buf
HasRoom (poll_reads waker buf) = 0 < length buf
HasRoom (poll_writes waker buf) = 0 < length buf
HasRoom closes = Unit {0}

-- After a read: nothing is readable if the read found nothing; the reader's slot is as it was.
read-Parked :
    {p : Pipe} {r' : RingBuf} (n l : ℕ)
    → IsValid p.ring_buf
    → 0 < l
    → n ≡ min (readable p.ring_buf) l
    → Removed p.ring_buf n r'
    → Parked p
    → Parked (record p { ring_buf = r'; writer = none })
read-Parked {p} {r'} n l v pos e m h = record {
  reader_waits = keep h.reader_waits;
  writer_waits = inl refl;
}
  where
    keep :
        (p.reader ≡ none) ⊎ ((readable p.ring_buf ≡ 0) × (p.closed ≡ false))
        → (p.reader ≡ none) ⊎ ((readable r' ≡ 0) × (p.closed ≡ false))
    keep (inl q) = inl q
    keep (inr (q, c)) =
        inr (omega (arith, readable_lem v, readable_lem m.valid, m.same_write, m.count), c)

write-Parked :
    {p : Pipe} {r' : RingBuf} (n l : ℕ) (src : List ℕ)
    → IsValid p.ring_buf
    → 0 < l
    → n ≡ min (writable p.ring_buf) l
    → Appended p.ring_buf n src r'
    → Parked p
    → Parked (record p { ring_buf = r'; reader = none })
write-Parked {p} {r'} n l src v pos e m h = record {
  reader_waits = inl refl;
  writer_waits = keep h.writer_waits;
}
  where
    keep :
        (p.writer ≡ none) ⊎ ((writable p.ring_buf ≡ 0) × (p.closed ≡ false))
        → (p.writer ≡ none) ⊎ ((writable r' ≡ 0) × (p.closed ≡ false))
    keep (inl q) = inl q
    keep (inr (q, c)) = inr (
      omega (arith, writable_lem v, writable_lem m.valid, m.same_read, m.count, m.same_capacity),
      c,
    )

-- A call with a buffer that is not empty, on a valid pipe where a parked reader has nothing to
-- read, a parked writer no room, and neither is parked on a closed pipe, returns, and leaves a
-- pipe where this holds, as long as the write cursor with the capacity is below 2^64.
pub call-Parked :
    (p : Pipe) (c : Call)
    → IsValid p.ring_buf
    → p.ring_buf.write_pos + capacity p.ring_buf < u64_mod
    → HasRoom c
    → Parked p
    → Returns (call p c) λ o. Parked o.after
unfolding call read write poll_read poll_write close
call-Parked p (reads buf) v far room h =
    let n = min (readable p.ring_buf) (length buf) in
    let (r', runs, m) = read-Removed p.ring_buf buf v far in
    rw runs (read-Parked n (length buf) v room refl m h)
call-Parked p (writes buf) v far room h = elim (Bool-cases p.closed) [
  | inl shut ↦ simp shut h
  | inr live ↦
      let (r', runs, m) = write-Appended p.ring_buf buf v in
      let after =
        write-Parked (min (writable p.ring_buf) (length buf)) (length buf) buf v room refl m h in
      simp (live, runs) (rw live at after)
]
call-Parked p (poll_reads waker buf) v far room h =
    let n = min (readable p.ring_buf) (length buf) in
    let (r', runs, m) = read-Removed p.ring_buf buf v far in
    let after = read-Parked n (length buf) v room refl m h in
    elim (Bool-cases (n == 0)) [
      | inl z ↦
          let none_read = (==_iff n 0).0 z in
          elim (Bool-cases p.closed) [
            | inl shut ↦ simp (runs, z, shut) (rw shut at after)
            | inr live ↦
                let dry : readable r' ≡ 0 =
                  omega (arith, readable_lem v, readable_lem m.valid, m.same_write, m.count) in
                simp (runs, z, live)
                  (record { reader_waits = inr (dry, refl); writer_waits = inl refl })
          ]
      | inr nz ↦ rw runs (rw nz after)
    ]
call-Parked p (poll_writes waker buf) v far room h = elim (Bool-cases p.closed) [
  | inl shut ↦ simp shut h
  | inr live ↦
      let n = min (writable p.ring_buf) (length buf) in
      let (r', runs, m) = write-Appended p.ring_buf buf v in
      elim (Bool-cases (n == 0)) [
        | inl z ↦
            let none_written = (==_iff n 0).0 z in
            let full : writable r' ≡ 0 = omega (
              arith,
              writable_lem v,
              writable_lem m.valid,
              m.same_read,
              m.count,
              m.same_capacity,
            ) in
            simp (live, runs, z)
              (record { reader_waits = inl refl; writer_waits = inr (full, refl) })
        | inr nz ↦
            simp (live, runs, nz) (rw live at (write-Parked n (length buf) buf v room refl m h))
      ]
]
call-Parked p closes v far room h = record { reader_waits = inl refl; writer_waits = inl refl }

-- Whom a call wakes: the parked reader if it put bytes in, the parked writer if it gave bytes out,
-- and both, the writer first, if it closed the pipe.
pub record Wakes (p : Pipe) (o : Outcome) : Type 0 where
  pub reader : (o.put ≡ []) ⊎ (o.woken ≡ wake p.reader)
  pub writer : (o.got ≡ []) ⊎ (o.woken ≡ wake p.writer)
  pub both : (o.after.closed ≡ p.closed) ⊎ (o.woken ≡ wake p.writer ++ wake p.reader)

-- A call on a valid pipe wakes the parked reader if it put bytes in, the parked writer if it gave
-- bytes out, and both, the writer first, if it closed the pipe, as long as the write cursor with
-- the capacity is below 2^64.
pub call-Wakes :
    (p : Pipe) (c : Call)
    → IsValid p.ring_buf
    → p.ring_buf.write_pos + capacity p.ring_buf < u64_mod
    → Returns (call p c) λ o. Wakes p o
unfolding call read write poll_read poll_write close
call-Wakes p (reads buf) v far =
    let (r', runs, m) = read-Removed p.ring_buf buf v far in
    rw runs (record { reader = inl refl; writer = inr refl; both = inl refl })
call-Wakes p (writes buf) v far = elim (Bool-cases p.closed) [
  | inl shut ↦ rw shut (record { reader = inl refl; writer = inl refl; both = inl refl })
  | inr live ↦
      let (r', runs, m) = write-Appended p.ring_buf buf v in
      rw (live, runs) (record { reader = inr refl; writer = inl refl; both = inl refl })
]
call-Wakes p (poll_reads waker buf) v far =
    let n = min (readable p.ring_buf) (length buf) in
    let (r', runs, m) = read-Removed p.ring_buf buf v far in
    elim (Bool-cases (n == 0)) [
      | inl z ↦ elim (Bool-cases p.closed) [
        | inl shut ↦
            rw runs
              (rw (z, shut) (record { reader = inl refl; writer = inr refl; both = inl refl }))
        | inr live ↦
            rw runs
              (rw (z, live) (record { reader = inl refl; writer = inr refl; both = inl refl }))
      ]
      | inr nz ↦ rw runs (rw nz (record { reader = inl refl; writer = inr refl; both = inl refl }))
    ]
call-Wakes p (poll_writes waker buf) v far = elim (Bool-cases p.closed) [
  | inl shut ↦ rw shut (record { reader = inl refl; writer = inl refl; both = inl refl })
  | inr live ↦
      let n = min (writable p.ring_buf) (length buf) in
      let (r', runs, m) = write-Appended p.ring_buf buf v in
      elim (Bool-cases (n == 0)) [
        | inl z ↦
            rw (live, runs)
              (rw z (record { reader = inr refl; writer = inl refl; both = inl refl }))
        | inr nz ↦
            rw (live, runs)
              (rw nz (record { reader = inr refl; writer = inl refl; both = inl refl }))
      ]
]
call-Wakes p closes v far = record { reader = inl refl; writer = inl refl; both = inr refl }

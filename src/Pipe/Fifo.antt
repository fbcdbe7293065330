-- ===== src/Pipe/Fifo.antt =====
-- crates/ringbuff/src/pipe.rs: the bytes come out of a pipe as they went in.
use rtt.Prelude.{
  ℕ, ◌+◌, ◌≤◌, ◌<◌, ◌≡◌, refl, ap, ◌∙◌, sym, inl, inr, Option, none, some, List, [], ◌∷◌, ◌++◌,
  arith, length, take, drop, value, Bool, true, ◌==◌, Bool-cases, u64_mod, min, take-append-drop,
  take-take-append, append-nil, append_assoc, length-take, if◌then◌else◌, ==_iff, Returns,
  Returns_bind,
}
use rtt.Prelude.Io.{IoResult, ok, err, broken_pipe}
use rtt.RingBuf.{RingBuf, capacity, readable, writable}
use rtt.RingBuf.Contents.{IsValid, contents, length-contents}
use rtt.RingBuf.Write.{Appended, write-Appended}
use rtt.RingBuf.Read.{Removed, read-Removed}
use rtt.Pipe.{
  Pipe, read, write, poll_read, poll_write, close, wake, Call, reads, writes, poll_reads,
  poll_writes, closes, count, Outcome, call, run,
}

-- What a call keeps: the ring is valid, its write cursor counts the bytes put in, and the bytes that
-- were there with those put in are the bytes given out with those that are there now.
pub record Kept (p : Pipe) (o : Outcome) : Type 0 where
  pub valid : IsValid o.after.ring_buf
  pub same_capacity : capacity o.after.ring_buf ≡ capacity p.ring_buf
  pub cursor : o.after.ring_buf.write_pos ≡ p.ring_buf.write_pos + length o.put
  pub fifo : contents p.ring_buf ++ o.put ≡ o.got ++ contents o.after.ring_buf

got-Kept :
    {p : Pipe} {r' : RingBuf} (n : ℕ) (buf : List ℕ) (reader writer : Option ℕ) (closed : Bool)
    (woken : List ℕ) (k : ℕ)
    → IsValid p.ring_buf
    → n ≤ readable p.ring_buf
    → k ≡ n
    → Removed p.ring_buf n r'
    → Kept p (record {
      after = record { ring_buf = r'; reader = reader; writer = writer; closed = closed };
      put = [];
      got = take k (take n (contents p.ring_buf) ++ drop n buf);
      woken = woken;
    })
got-Kept {p} n buf reader writer closed woken k v h e m = record {
  valid = m.valid;
  same_capacity = m.same_capacity;
  cursor = omega (arith, m.same_write);
  fifo =
      rw
        (
          append-nil,
          e,
          take-take-append n (contents p.ring_buf) (drop n buf) (omega (arith, length-contents v)),
          m.bytes,
        )
        (sym (take-append-drop n (contents p.ring_buf)));
}

put-Kept :
    {p : Pipe} {r' : RingBuf} (n : ℕ) (src : List ℕ) (reader writer : Option ℕ) (closed : Bool)
    (woken : List ℕ) (k : ℕ)
    → n ≤ length src
    → k ≡ n
    → Appended p.ring_buf n src r'
    → Kept p (record {
      after = record { ring_buf = r'; reader = reader; writer = writer; closed = closed };
      put = take k src;
      got = [];
      woken = woken;
    })
put-Kept {p} n src reader writer closed woken k h e m = record {
  valid = m.valid;
  same_capacity = m.same_capacity;
  cursor = rw e (omega (arith, m.count, length-take n src));
  fifo = rw e (sym m.bytes);
}

idle-Kept :
    (p : Pipe) (reader writer : Option ℕ) (closed : Bool) (woken : List ℕ)
    → IsValid p.ring_buf
    → Kept p (record {
      after = record p { reader = reader; writer = writer; closed = closed };
      put = [];
      got = [];
      woken = woken;
    })
idle-Kept p reader writer closed woken v = record {
  valid = v;
  same_capacity = refl;
  cursor = omega arith;
  fifo = append-nil _;
}

-- the bytes that a call offers to the pipe
abbrev pub size : Call → ℕ
size (writes buf) = length buf
size (poll_writes waker buf) = length buf
size (reads buf) = 0
size (poll_reads waker buf) = 0
size closes = 0

abbrev pub offered : List Call → ℕ
offered [] = 0
offered (c ∷ cs) = size c + offered cs

-- A call runs, and keeps what `Kept` says.
pub call-Kept :
    (p : Pipe) (c : Call)
    → IsValid p.ring_buf
    → p.ring_buf.write_pos + capacity p.ring_buf < u64_mod
    → (o : Outcome) × (call p c ≡ value o) × Kept p o × (length o.put ≤ size c)
unfolding call read write poll_read poll_write close
call-Kept p (reads buf) v far =
    let n = min (readable p.ring_buf) (length buf) in
    let (r', runs, m) = read-Removed p.ring_buf buf v far in
    let result : IoResult ℕ =
      if n == 0 then (if p.closed then err broken_pipe else ok 0) else ok n in
    let counts : count result ≡ n = ground arith in
    (
      _,
      rw runs,
      got-Kept n buf p.reader none p.closed (wake p.writer) (count result) v (omega arith) counts m,
      omega arith,
    )
call-Kept p (writes buf) v far = elim (Bool-cases p.closed) [
  | inl shut ↦ (_, rw shut, idle-Kept p p.reader p.writer p.closed [] v, omega arith)
  | inr live ↦
      let n = min (writable p.ring_buf) (length buf) in
      let (r', runs, m) = write-Appended p.ring_buf buf v in
      let result : IoResult ℕ = if n == 0 then ok 0 else ok n in
      let counts : count result ≡ n = ground arith in
      (
        _,
        rw (live, runs),
        put-Kept n buf none p.writer p.closed (wake p.reader) (count result) (omega arith) counts m,
        omega (arith, length-take (count result) buf),
      )
]
call-Kept p (poll_reads waker buf) v far =
    let n = min (readable p.ring_buf) (length buf) in
    let (r', runs, m) = read-Removed p.ring_buf buf v far in
    elim (Bool-cases (n == 0)) [
      | inl z ↦
          let zero_read : 0 ≡ n = sym ((==_iff n 0).0 z) in
          elim (Bool-cases p.closed) [
            | inl shut ↦ (
              _,
              rw runs (rw (z, shut)),
              got-Kept n buf p.reader none p.closed (wake p.writer) 0 v (omega arith) zero_read m,
              omega arith,
            )
            | inr live ↦ (
              _,
              rw runs (rw (z, live)),
              got-Kept n buf (some waker) none p.closed (wake p.writer) 0 v (omega arith) zero_read
                  m,
              omega arith,
            )
          ]
      | inr nz ↦ (
        _,
        rw runs (rw nz),
        got-Kept n buf p.reader none p.closed (wake p.writer) n v (omega arith) refl m,
        omega arith,
      )
    ]
call-Kept p (poll_writes waker buf) v far = elim (Bool-cases p.closed) [
  | inl shut ↦ (_, rw shut, idle-Kept p p.reader p.writer p.closed [] v, omega arith)
  | inr live ↦
      let n = min (writable p.ring_buf) (length buf) in
      let (r', runs, m) = write-Appended p.ring_buf buf v in
      elim (Bool-cases (n == 0)) [
        | inl z ↦ (
          _,
          rw (live, runs) (rw z),
          put-Kept n buf none (some waker) p.closed (wake p.reader) 0 (omega arith)
              (sym ((==_iff n 0).0 z)) m,
          omega arith,
        )
        | inr nz ↦ (
          _,
          rw (live, runs) (rw nz),
          put-Kept n buf none p.writer p.closed (wake p.reader) n (omega arith) refl m,
          omega (arith, length-take n buf),
        )
      ]
]
call-Kept p closes v far = (_, refl, idle-Kept p none none true _ v, omega arith)

join : (c d e a b g h : List ℕ) → c ++ a ≡ g ++ d → d ++ b ≡ h ++ e → c ++ (a ++ b) ≡ (g ++ h) ++ e
join c d e a b g h p q =
    sym (append_assoc c a b)
    ∙ ap (λ t. t ++ b) p
    ∙ append_assoc g d b
    ∙ ap (◌++◌ g) q
    ∙ sym (append_assoc g h e)

-- Any sequence of reads, writes, polled reads and writes and closings of a valid pipe runs
-- without a panic, and the bytes that it held with those that the calls report as written are, in
-- order, those that the calls report as read with those that it holds then, as long as the
-- cursors with all bytes offered stay below 2^64.
pub run_fifo :
    (p : Pipe) (cs : List Call)
    → IsValid p.ring_buf
    → p.ring_buf.write_pos + capacity p.ring_buf + offered cs < u64_mod
    → Returns (run p cs) λ t.
      let (q, puts, gots) = t in
      IsValid q.ring_buf × (contents p.ring_buf ++ puts ≡ gots ++ contents q.ring_buf)
unfolding run
run_fifo p [] v far = (v, append-nil _)
run_fifo p (c ∷ cs) v far =
    let (o, runs, k, small) = call-Kept p c v (omega arith) in
    let far' : o.after.ring_buf.write_pos + capacity o.after.ring_buf + offered cs < u64_mod =
      omega (arith, k.cursor, k.same_capacity) in
    rw runs (
      Returns_bind _ (run o.after cs) _ (run_fifo o.after cs k.valid far') λ t h. (
        h.0,
        join (contents p.ring_buf) (contents o.after.ring_buf) (contents t.0.ring_buf) o.put t.1
            o.got t.2 k.fifo h.1,
      ))

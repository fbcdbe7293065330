-- ===== src/RingBuf/Contents.antt =====
-- crates/ringbuff/src/ringbuf.rs: the invariant of the ring buffer, and the bytes that it holds.
use native.Mathlib.Nat.{mod-add-mod, mod-eq_of_lt, mod-eq-sub-mod}
use rtt.Prelude.{
  ℕ, zero, suc, ◌+◌, ◌-◌, ◌%◌, ◌≤◌, ◌<◌, ◌≡◌, refl, ap, List, [], ◌∷◌, arith, length, get_or,
  u64_mod, ◌∙◌, sym,
}
use rtt.RingBuf.{RingBuf, capacity, readable, writable}

-- The cursors are in order, no further apart than the capacity, and `read_pos + capacity` fits u64.
pub record IsValid (r : RingBuf) : Type 0 where
  pub nonempty : 0 < capacity r
  pub order : r.read_pos ≤ r.write_pos
  pub within : r.write_pos ≤ r.read_pos + capacity r
  pub room : r.read_pos + capacity r < u64_mod

-- the `n` bytes of `memory` from cursor `pos` on
abbrev pub window : List ℕ → ℕ → ℕ → List ℕ
window memory pos zero = []
window memory pos (suc n) = get_or memory (pos % length memory) 0 ∷ window memory (suc pos) n

-- The readable bytes, oldest first.
abbrev pub contents : RingBuf → List ℕ
contents r = window r.memory_block r.read_pos (r.write_pos - r.read_pos)

pub length-window : (m : List ℕ) (p n : ℕ) → length (window m p n) ≡ n
length-window m p zero = refl
length-window m p (suc n) = ap suc (length-window m (suc p) n)

pub get_or-window :
    (m : List ℕ) (p n i : ℕ) → i < n → get_or (window m p n) i 0 ≡ get_or m ((p + i) % length m) 0
get_or-window m p zero i h = elim h [ ]
get_or-window m p (suc n) zero h =
    let e : p % length m ≡ (p + 0) % length m = ap (λ k. k % length m) (omega arith) in
    ap (λ k. get_or m k 0) e
get_or-window m p (suc n) (suc i) h =
    let e : (suc p + i) % length m ≡ (p + suc i) % length m =
      ap (λ k. k % length m) (omega arith) in
    get_or-window m (suc p) n i (omega arith) ∙ ap (λ k. get_or m k 0) e

pub readable_lem : {r : RingBuf} → IsValid r → readable r ≡ r.write_pos - r.read_pos
unfolding readable
readable_lem v = omega arith

pub writable_lem : {r : RingBuf} → IsValid r → writable r ≡ r.read_pos + capacity r - r.write_pos
unfolding writable
writable_lem v = omega arith

pub length-contents : {r : RingBuf} → IsValid r → length (contents r) ≡ readable r
length-contents {r} v =
    omega
      (arith, readable_lem v, length-window r.memory_block r.read_pos (r.write_pos - r.read_pos))

-- Adding at most the capacity to a cursor moves its index on, or round once.
pub mod_in : (p i cap : ℕ) → p % cap + i < cap → (p + i) % cap ≡ p % cap + i
mod_in p i cap h = sym (mod-add-mod p cap i) ∙ mod-eq_of_lt h

pub mod_round :
    (p i cap : ℕ) → 0 < cap → i ≤ cap → cap ≤ p % cap + i → (p + i) % cap ≡ p % cap + i - cap
mod_round p i cap h k l =
    sym (mod-add-mod p cap i)
    ∙ mod-eq-sub-mod {n = p % cap + i} {m = cap} l
    ∙ mod-eq_of_lt {n = p % cap + i - cap} {m = cap} (omega arith)

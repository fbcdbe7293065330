-- ===== src/Group/Sharing.antt =====
-- crates/poll/src/group.rs: threads that take guards, use them and drop them in any order. Between
-- `lock!` and the drop of a guard the mutex of the group is free, and others act on the group.
use native.Mathlib.Decide.{ℕ_discrete}
use rtt.Prelude.{
  ℕ, ◌<◌, ◌≡◌, ◌≢◌, sym, ap, subst, ◌∙◌, inl, inr, Bool, true, Option, none, some, List, [], arith,
  Returns,
}
use rtt.Prelude.Maps.{
  get, put, erase, is_some, get-erase_other, get-put_self, get-put_other, put_cases, erase_found,
}
use rtt.Quiche.{Quiche, endpoint}
use rtt.Readiness.{PriorityQueue, Readiness}
use rtt.Readiness.View
use rtt.Conn.{unlocked, read_lock, Conn}
use rtt.Group.{u32_mod, Group, id_discrete, set_conn, forget_id}
use rtt.Group.Removing.{forget_id_found}
use rtt.Group.Validity.{Registered, IsValid}

-- What threads are about to do: the guards that they hold of registered connections, by the token of
-- the connection and with the lock count of the guard; and the ids that they are about to forget, each
-- with the token of the connection that was removed.
pub record Guards : Type 0 where
  pub locks : List (ℕ × ℕ)
  pub ids : List (List ℕ × ℕ)

abbrev pub no_guards : Guards
no_guards = record { locks = []; ids = [] }

module _ (q : Quiche) (pq : PriorityQueue) where
  -- How a connection is locked: not at all without a guard, else by no reader, and the guard has its
  -- lock count.
  abbrev pub Agrees : Conn q → Option ℕ → Type 0
  Agrees c none = c.locker ≡ unlocked
  Agrees c (some count) = (c.lock_count ≡ count) × (c.locker ≢ unlocked) × (c.locker ≢ read_lock)

  -- The connections are registered, and locked exactly where a guard is held; an id that is about to be
  -- forgotten is there still, and no connection has it.
  pub record IsShared (g : Group q pq) (held : Guards) : Type 0 where
    pub next : g.token_next < u32_mod
    pub readiness : View.IsValid pq g.readiness
    pub registered :
        (token : ℕ) (c : Conn q)
        → get ℕ_discrete token g.conns ≡ some c
        → Registered q pq g.scids token c
    pub locks :
        (token : ℕ) (c : Conn q)
        → get ℕ_discrete token g.conns ≡ some c
        → Agrees c (get ℕ_discrete token held.locks)
    pub guards :
        (token count : ℕ)
        → get ℕ_discrete token held.locks ≡ some count
        → is_some (get ℕ_discrete token g.conns) ≡ true
    pub leaving :
        (id : List ℕ) (token : ℕ)
        → get id_discrete id held.ids ≡ some token
        → get id_discrete id g.scids ≡ some token
    pub apart :
        (id : List ℕ) (token t : ℕ) (c : Conn q)
        → get id_discrete id held.ids ≡ some token
        → get ℕ_discrete t g.conns ≡ some c
        → q.source_id c.wrapped ≢ id

  pub IsValid-IsShared : (g : Group q pq) → IsValid q pq g → IsShared g no_guards
  unfolding get
  IsValid-IsShared g v = record {
    next = v.next;
    readiness = v.readiness;
    registered = v.registered;
    locks = v.idle;
    guards = λ token count h. cc;
    leaving = λ id token h. cc;
    apart = λ id token t c h. cc;
  }

  -- the same, of a group that differs elsewhere
  pub same-IsShared :
      (g : Group q pq) (held : Guards) (r : Readiness pq) (unparkers : List (ℕ × ℕ))
      (unparked : List ℕ)
      → IsShared g held
      → View.IsValid pq r
      → IsShared (record g { readiness = r; unparkers = unparkers; unparked = unparked }) held
  same-IsShared g held r unparkers unparked v ready = record {
    next = v.next;
    readiness = ready;
    registered = v.registered;
    locks = v.locks;
    guards = v.guards;
    leaving = v.leaving;
    apart = v.apart;
  }

  -- A connection is replaced by one of the same id, and its guard with it.
  pub replace-IsShared :
      (g : Group q pq) (token : ℕ) (c : Conn q) (r : Readiness pq) (held : Guards)
      (locks : List (ℕ × ℕ))
      → IsShared g held
      → Registered q pq g.scids token c
      → ((id : List ℕ) (t : ℕ) → get id_discrete id held.ids ≡ some t → q.source_id c.wrapped ≢ id)
      → View.IsValid pq r
      → ((t : ℕ) → t ≢ token → get ℕ_discrete t locks ≡ get ℕ_discrete t held.locks)
      → Agrees c (get ℕ_discrete token locks)
      → IsShared
          (record (set_conn q pq g token c) { readiness = r })
          (record held { locks = locks })
  replace-IsShared g token c r held locks v new named ready others own = record {
    next = v.next;
    readiness = ready;
    registered = λ t d e. elim (put_cases ℕ_discrete token t c d g.conns e) [
      | inl (same, is) ↦ rw (same, is) new
      | inr (other, old) ↦ v.registered t d old
    ];
    locks = λ t d e. elim (put_cases ℕ_discrete token t c d g.conns e) [
      | inl (same, is) ↦ rw (same, is) own
      | inr (other, old) ↦ subst (Agrees d) (sym (others t other)) (v.locks t d old)
    ];
    guards = λ t count h. elim (ℕ_discrete t token) [
      | yes same ↦ rw same (ap is_some (get-put_self ℕ_discrete token c g.conns))
      | no other ↦
          ap is_some (get-put_other ℕ_discrete token t c g.conns other)
          ∙ v.guards t count (sym (others t other) ∙ h)
    ];
    leaving = v.leaving;
    apart = λ id k t d h e. elim (put_cases ℕ_discrete token t c d g.conns e) [
      | inl (same, is) ↦ rw is (named id k h)
      | inr (other, old) ↦ v.apart id k t d h old
    ];
  }

  -- the id of a connection that took the place of one with the same id
  pub same_apart :
      (g : Group q pq) (held : Guards) (token : ℕ) (c : Conn q) (conn : q.Connection)
      → IsShared g held
      → get ℕ_discrete token g.conns ≡ some c
      → endpoint q conn ≡ endpoint q c.wrapped
      → (id : List ℕ) (t : ℕ) → get id_discrete id held.ids ≡ some t
      → q.source_id conn ≢ id
  same_apart g held token c conn v here same id t h e =
      v.apart id t token c h here (ap (λ (e : Bool × List ℕ). e.1) (sym same) ∙ e)

  -- A connection is removed, and a guard of it is one of a registered connection no more.
  pub remove-IsShared :
      (g : Group q pq) (token : ℕ) (c : Conn q) (held : Guards)
      → IsShared g held
      → get ℕ_discrete token g.conns ≡ some c
      → IsShared
          (record g { conns = erase ℕ_discrete token g.conns })
          (record {
            locks = erase ℕ_discrete token held.locks;
            ids = put id_discrete (q.source_id c.wrapped) token held.ids;
          })
  remove-IsShared g token c held v here = record {
    next = v.next;
    readiness = v.readiness;
    registered = λ t d e. v.registered t d (erase_found ℕ_discrete token t d g.conns e).1;
    locks = λ t d e.
        let (other, old) = erase_found ℕ_discrete token t d g.conns e in
        subst (Agrees d) (sym (get-erase_other ℕ_discrete token t held.locks other))
          (v.locks t d old);
    guards = λ t count h.
        let (other, old) = erase_found ℕ_discrete token t count held.locks h in
        ap is_some (get-erase_other ℕ_discrete token t g.conns other) ∙ v.guards t count old;
    leaving = λ id k h. elim (put_cases id_discrete (q.source_id c.wrapped) id token k held.ids h) [
      | inl (same, is) ↦ rw (same, is) ((v.registered token c here).scid)
      | inr (other, old) ↦ v.leaving id k old
    ];
    apart = λ id k t d h e same_id.
        let (other, old) = erase_found ℕ_discrete token t d g.conns e in
        elim (put_cases id_discrete (q.source_id c.wrapped) id token k held.ids h) [
          | inl (same, is) ↦
              let one = (v.registered token c here).scid in
              let two = (v.registered t d old).scid in
              let three = ap (λ k. get id_discrete k g.scids) (same_id ∙ same) in
              absurd (ground arith)
          | inr (apart, older) ↦ v.apart id k t d older old same_id
        ];
  }

  -- The id of a removed connection is forgotten.
  pub forget-IsShared :
      (g : Group q pq) (id : List ℕ) (token : ℕ) (held : Guards)
      → IsShared g held
      → get id_discrete id held.ids ≡ some token
      → Returns
          (forget_id q pq g id token)
          (λ t. IsShared t (record held { ids = erase id_discrete id held.ids }))
  forget-IsShared g id token held v mine =
      rw (forget_id_found q pq g id token (v.leaving id token mine)) (record {
        next = v.next;
        readiness = v.readiness;
        registered = λ t d e.
            let reg = v.registered t d e in
            record {
              same_token = reg.same_token;
              lock = reg.lock;
              scid =
                  get-erase_other id_discrete id (q.source_id d.wrapped) g.scids
                    (v.apart id token t d mine e)
                  ∙ reg.scid;
            };
        locks = v.locks;
        guards = v.guards;
        leaving = λ other k h.
            let (apart, old) = erase_found id_discrete id other k held.ids h in
            get-erase_other id_discrete id other g.scids apart ∙ v.leaving other k old;
        apart = λ other k t d h e.
            v.apart other k t d (erase_found id_discrete id other k held.ids h).1 e;
      })

-- ===== src/Tests/Heap.antt =====
-- A priority queue that meets what the readiness asks of one: a list without repeated events, whose
-- least entry is looked for.
use rtt.Prelude.{
  ℕ, ◌+◌, ◌≤◌, ◌≡◌, refl, sym, ap, ◌∙◌, inl, inr, Option, none, some, List, [], ◌∷◌, leb,
  if◌then◌else◌, arith, length, Bool-cases, Option-cases,
}
use rtt.Prelude.Collections.{beq, beq_iff}
use rtt.Prelude.Maps.{get, erase, put, get-put, get-erase, get-erase_self}
use rtt.Api.{Event, Event-discrete}
use rtt.Readiness.{PriorityQueue}

abbrev pub Entries : Type 0
Entries = List (Event × ℕ)

-- no event twice
abbrev pub IsMap : Entries → Type 0
IsMap [] = Unit {0}
IsMap ((e, t) ∷ rest) = (get Event-discrete e rest ≡ none) × IsMap rest

pub erase-IsMap : (e : Event) (m : Entries) → IsMap m → IsMap (erase Event-discrete e m)
unfolding erase
erase-IsMap e [] d = tt
erase-IsMap e ((f, t) ∷ rest) d = elim (Bool-cases (beq Event-discrete f e)) [
  | inl same ↦ rw same (erase-IsMap e rest d.1)
  | inr other ↦
      rw other (ground (arith, get-erase Event-discrete e f rest, d.0), erase-IsMap e rest d.1)
]

pub injective : {A : Type 0} {a b : A} → some a ≡ some b → a ≡ b
injective {A} {a} h = ap (λ (o : Option A). elim o [ none ↦ a | some x ↦ x ]) h

-- the earlier of an entry and one that may be there
abbrev pub earlier : Event × ℕ → Option (Event × ℕ) → Event × ℕ
earlier x none = x
earlier x (some y) = if leb x.1 y.1 then x else y

abbrev pub least : Entries → Option (Event × ℕ)
least [] = none
least (x ∷ rest) = some (earlier x (least rest))

pub least-none : (m : Entries) (e : Event) → least m ≡ none → get Event-discrete e m ≡ none
unfolding get
least-none [] e h = refl
least-none (x ∷ rest) e h = ground arith

pub least-some :
    (m : Entries) (e : Event) (t : ℕ)
    → IsMap m
    → least m ≡ some (e, t)
    → get Event-discrete e m ≡ some t
unfolding get
least-some [] e t d h = ground arith
least-some ((f, u) ∷ rest) e t d h = elim (Option-cases (least rest)) [
  | inl n ↦
      let is : ◌≡◌ {A = Event × ℕ} (f, u) (e, t) = injective (sym (rw n) ∙ h) in
      ground (
        arith,
        beq_iff Event-discrete f e,
        ap (λ (x : Event × ℕ). x.0) is,
        ap (λ (x : Event × ℕ). x.1) is,
      )
  | inr ((g, w), s) ↦
      let ih = least-some rest g w d.1 s in
      elim (Bool-cases (leb u w)) [
        | inl first ↦
            let is : ◌≡◌ {A = Event × ℕ} (f, u) (e, t) = injective (sym (rw (s, first)) ∙ h) in
            ground (
              arith,
              beq_iff Event-discrete f e,
              ap (λ (x : Event × ℕ). x.0) is,
              ap (λ (x : Event × ℕ). x.1) is,
            )
        | inr later ↦
            let is : ◌≡◌ {A = Event × ℕ} (g, w) (e, t) = injective (sym (rw (s, later)) ∙ h) in
            let found : get Event-discrete e rest ≡ some t =
              ap (λ k. get Event-discrete k rest) (sym (ap (λ (x : Event × ℕ). x.0) is))
              ∙ ih
              ∙ ap (λ (x : Event × ℕ). some x.1) is in
            let new = d.0 in
            elim (Bool-cases (beq Event-discrete f e)) [
              | inl same ↦
                  let none_here =
                    ap (λ k. get Event-discrete k rest) (sym ((beq_iff Event-discrete f e).0 same))
                    ∙ new in
                  absurd (ground arith)
              | inr other ↦ rw other found
            ]
      ]
]

pub least_le :
    (m : Entries) (e f : Event) (t u : ℕ)
    → least m ≡ some (e, t)
    → get Event-discrete f m ≡ some u
    → t ≤ u
unfolding get
least_le [] e f t u h k = ground arith
least_le ((g, v) ∷ rest) e f t u h k =
    let head = ap (λ (x : Event × ℕ). x.1) (injective h) in
    elim (Option-cases (least rest)) [
      | inl n ↦
          let at : v ≡ t = ap (λ o. (earlier (g, v) o).1) (sym n) ∙ head in
          let gone = least-none rest f n in ground arith
      | inr ((g', w), s) ↦
          let ih : get Event-discrete f rest ≡ some u → w ≤ u = least_le rest g' f w u s in
          let at : (earlier (g, v) (some (g', w))).1 ≡ t =
            ap (λ o. (earlier (g, v) o).1) (sym s) ∙ head in
          ground arith
    ]

pub absent_erase :
    (m : Entries) (e : Event) → get Event-discrete e m ≡ none → erase Event-discrete e m ≡ m
unfolding get erase
absent_erase [] e h = refl
absent_erase ((f, u) ∷ rest) e h = elim (Bool-cases (beq Event-discrete f e)) [
  | inl same ↦ absurd (ground arith)
  | inr other ↦ rw other (ap (◌∷◌ (f, u)) (absent_erase rest e (sym (rw other) ∙ h)))
]

pub length-erase_map :
    (m : Entries) (e : Event) (t : ℕ)
    → IsMap m
    → get Event-discrete e m ≡ some t
    → length (erase Event-discrete e m) + 1 ≡ length m
unfolding get erase
length-erase_map [] e t d h = ground arith
length-erase_map ((f, u) ∷ rest) e t d h =
    let kept = absent_erase rest f d.0 in
    elim (Bool-cases (beq Event-discrete f e)) [
      | inl same ↦ rw same (
          ap (λ m. length m + 1)
            (ap (λ k. erase Event-discrete k rest) (sym ((beq_iff Event-discrete f e).0 same))
              ∙ kept)
          ∙ omega arith)
      | inr other ↦
          let ih = length-erase_map rest e t d.1 (sym (rw other) ∙ h) in rw other (omega arith)
    ]

pub record Heap : Type 0 where
  pub entries : Entries
  pub distinct : IsMap entries

abbrev pub delete : Heap → Event → Heap
delete h e = record {
  entries = erase Event-discrete e h.entries;
  distinct = erase-IsMap e h.entries h.distinct;
}

abbrev pub push : Heap → Event → ℕ → Heap
push h e t = record {
  entries = put Event-discrete e t h.entries;
  distinct = (get-erase_self Event-discrete e h.entries, erase-IsMap e h.entries h.distinct);
}

abbrev pub pop : Heap → Option ((Event × ℕ) × Heap)
pop h = elim (least h.entries) [ none ↦ none | some x ↦ some (x, delete h x.0) ]

pub new_lem : (e : Event) → get {V = ℕ} Event-discrete e [] ≡ none
unfolding get
new_lem e = refl

abbrev pub heap : PriorityQueue
heap = record {
  Queue = Heap;
  new = record { entries = []; distinct = tt };
  push = push;
  delete = delete;
  peek = λ h. least h.entries;
  pop = pop;
  get_priority = λ h e. get Event-discrete e h.entries;
  len = λ h. length h.entries;
  get_priority-new = new_lem;
  get_priority-push = λ h e t f. get-put Event-discrete e f t h.entries;
  get_priority-delete = λ h e f. get-erase Event-discrete e f h.entries;
  peek_none = λ h e. least-none h.entries e;
  peek_some = λ h e t. least-some h.entries e t h.distinct;
  peek_least = λ h e f t u. least_le h.entries e f t u;
  pop_peek = λ h e t p. (
    delete h e,
    rw (p, pop),
    λ f. get-erase Event-discrete e f h.entries,
    length-erase_map h.entries e t h.distinct (least-some h.entries e t h.distinct p),
  );
}

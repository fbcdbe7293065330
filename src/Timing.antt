-- ===== src/Timing.antt =====
-- crates/poll/src/utils.rs: when a connection next has something to send. Instants and durations are
-- numbers of one unit.
use rtt.Prelude.{ℕ, ◌-◌, min, Bool, Option, none, some, ltb, if◌then◌else◌}
use rtt.Quiche.{Quiche}

unfoldable pub min_of_some : Option ℕ → Option ℕ → Option ℕ
min_of_some (some a) (some b) = some (min a b)
min_of_some (some v) none = some v
min_of_some none (some v) = some v
min_of_some none none = none

-- `release_time.filter(|time| …)` of `release_time`
unfoldable pub filter_later : ℕ → ℕ → Option ℕ → Option ℕ
filter_later now threshold none = none
filter_later now threshold (some t) = if ltb threshold (t - now) then some t else none

module _ (q : Quiche) where
  unfoldable pub delay_send : q.Connection → ℕ → Bool → Option ℕ
  delay_send conn now send_done =
      let release = q.next_release conn now in
      if send_done
      then min_of_some (q.timeout_instant conn) release
      else elim release [ some t ↦ min_of_some (q.timeout_instant conn) (some t) | none ↦ none ]

  unfoldable pub release_time : q.Connection → ℕ → ℕ → Option ℕ
  release_time conn now threshold = filter_later now threshold (q.next_release conn now)

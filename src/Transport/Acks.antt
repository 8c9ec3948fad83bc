-- ===== src/Transport/Acks.antt =====
-- src/triage/transport.py: ack, ack_by_event_ids and outstanding.
use vh26_crackers.Base.{
  ℕ, ◌-◌, Bool, List, [], ◌∷◌, ◌++◌, drop, length, String, Option, none, some, Floats, ◌≤?◌, ◌⊖◌,
  ◌⊗◌, of_int, str_eq, ◌==◌, sort, if◌then◌else◌, get, has, put, pop, values,
}
use vh26_crackers.Contracts.{Event}
use vh26_crackers.Transport.{DispatchRecord, Transport, latency_window, set_add, grouped}

module _ {F : Type 0} ⦃fl : Floats F⦄ where
  -- `del latencies[: len(latencies) - LATENCY_WINDOW]`, when there are too many
  abbrev pub bounded : List F → List F
  bounded xs = drop (length xs - latency_window) xs

  -- one turn of the loop of `ack`, on the record that it holds
  unfoldable pub resolve_one :
      F → String → DispatchRecord F × Transport F → DispatchRecord F × Transport F
  unfolding has pop set_add
  resolve_one now k (r, s) =
      if has str_eq k r.events
      then (
        record r { events = pop str_eq k r.events },
        record s {
          latency_ms = bounded (s.latency_ms ++ (now ⊖ r.dispatched_ts) ⊗ of_int 1000 ∷ []);
          event_index = pop str_eq k s.event_index;
          resolved = set_add k s.resolved;
        },
      )
      else (r, s)

  unfoldable pub resolve_all :
      F → List String → DispatchRecord F × Transport F → DispatchRecord F × Transport F
  unfolding resolve_one
  resolve_all now [] held = held
  resolve_all now (k ∷ ks) held = resolve_all now ks (resolve_one now k held)

  -- a record without events is deleted
  unfoldable pub settle_as :
      List (String × Event F) → ℕ → DispatchRecord F → Transport F → Transport F
  unfolding put pop
  settle_as [] n r s = record s { outstanding = pop ◌==◌ n s.outstanding }
  settle_as (x ∷ xs) n r s = record s { outstanding = put ◌==◌ n r s.outstanding }

  unfoldable pub settle : ℕ → DispatchRecord F → Transport F → Transport F
  unfolding settle_as
  settle n r s = settle_as r.events n r s

  unfoldable pub ack_record :
      Option (DispatchRecord F) → Transport F → ℕ → List String → F → Transport F
  unfolding resolve_all settle
  ack_record none s n ids now = s
  ack_record (some r) s n ids now =
      settle n (resolve_all now ids (r, s)).0 (resolve_all now ids (r, s)).1

  unfoldable pub ack : Transport F → ℕ → List String → F → Transport F
  unfolding ack_record get
  ack s n ids now = ack_record (get ◌==◌ n s.outstanding) s n ids now

  unfoldable pub ack_groups : Transport F → List (ℕ × List String) → F → Transport F
  unfolding ack
  ack_groups s [] now = s
  ack_groups s (g ∷ gs) now = ack_groups (ack s g.0 g.1 now) gs now

  unfoldable pub ack_by_event_ids : Transport F → List String → F → Transport F
  unfolding grouped ack_groups
  ack_by_event_ids s ids now = ack_groups s (grouped s.event_index ids []) now

  -- `sorted(..., key=dispatched_ts)` of the records of a server, and their events
  unfoldable pub records_of : String → List (ℕ × DispatchRecord F) → List (DispatchRecord F)
  records_of server [] = []
  records_of server (x ∷ xs) =
      let rest = records_of server xs in if str_eq x.1.server server then x.1 ∷ rest else rest

  unfoldable pub all_events : List (DispatchRecord F) → List (Event F)
  all_events [] = []
  all_events (r ∷ rs) = values r.events ++ all_events rs

  abbrev pub older : DispatchRecord F → DispatchRecord F → Bool
  older a b = a.dispatched_ts ≤? b.dispatched_ts

  unfoldable pub outstanding_of : Transport F → String → List (Event F)
  unfolding records_of all_events
  outstanding_of s server = all_events (sort older (records_of server s.outstanding))

-- ===== src/Transport.antt =====
-- src/triage/transport.py: class Transport. A dispatch id `dispatch-<n>` is taken as its number n.
--
-- A coroutine runs alone from one `await` to the next. The only calls that wait are those of the
-- delivery function, which is code from elsewhere: `Wire` says of each dispatch whether its
-- delivery returns or raises, and what other coroutines do while it is awaited.
pub mod Acks
pub mod Batcher
pub mod Flushing
pub mod Batches
pub mod Sweep
pub mod Held
pub mod Safety
pub mod Resending
pub mod Identity
use vh26_crackers.Base.{
  ℕ, zero, ◌+◌, ◌-◌, Bool, true, false, not, ◌&&◌, List, [], ◌∷◌, ◌++◌, map, drop, length, String,
  Option, none, some, Floats, ◌≤?◌, ◌⊖◌, ◌⊗◌, ◌⊘◌, of_int, str_eq, ◌==◌, sort, if◌then◌else◌, get,
  has, put, pop, values, keys,
}
use vh26_crackers.Contracts.{Event}
use vh26_crackers.Dedup.{member}

pub record DispatchRecord (F : Type 0) : Type 0 where
  pub server : String
  pub dispatched_ts : F
  pub events : List (String × Event F)

-- The sets of ids are lists in which no id is added twice.
pub record Transport (F : Type 0) : Type 0 where
  pub ack_timeout_ms : F
  pub outstanding : List (ℕ × DispatchRecord F)
  pub event_index : List (String × ℕ)
  pub next_id : ℕ
  pub latency_ms : List F
  pub dispatched : List String
  pub resolved : List String
  pub total_redispatched : ℕ

-- What another coroutine does between two of its own awaits.
pub data Segment (F : Type 0) : Type 0 where
  recorded : String → List (Event F) → F → Segment F
  acked : ℕ → List String → F → Segment F
  events_acked : List String → F → Segment F

pub record Wire (F : Type 0) : Type 0 where
  pub clock : ℕ → F
  pub delivers : ℕ → Bool
  pub meanwhile : ℕ → List (Segment F)

pub data DispatchResult : Type 0 where
  dispatched_as : ℕ → DispatchResult
  value_error : DispatchResult
  delivery_error : DispatchResult

pub data SweepResult : Type 0 where
  redispatched : ℕ → SweepResult
  key_error : SweepResult
  failed_delivery : SweepResult

pub record DispatchStats : Type 0 where
  pub dispatched : ℕ
  pub resolved : ℕ
  pub outstanding : ℕ
  pub redispatched : ℕ

abbrev pub latency_window : ℕ
latency_window = 4096

unfoldable pub set_add : String → List String → List String
unfolding member
set_add k xs = if member k xs then xs else xs ++ k ∷ []

unfoldable pub set_update : List String → List String → List String
unfolding set_add
set_update [] xs = xs
set_update (k ∷ ks) xs = set_update ks (set_add k xs)

-- `index[k] = n` for each of the keys
unfoldable pub index_all : List String → ℕ → List (String × ℕ) → List (String × ℕ)
unfolding put
index_all [] n index = index
index_all (k ∷ ks) n index = index_all ks n (put str_eq k n index)

unfoldable pub unindex_all : List String → List (String × ℕ) → List (String × ℕ)
unfolding pop
unindex_all [] index = index
unindex_all (k ∷ ks) index = unindex_all ks (pop str_eq k index)

-- `by_dispatch.setdefault(n, []).append(k)`
unfoldable pub append_at : ℕ → String → List (ℕ × List String) → List (ℕ × List String)
append_at n k [] = (n, k ∷ []) ∷ []
append_at n k (g ∷ gs) = if g.0 == n then (n, g.1 ++ k ∷ []) ∷ gs else g ∷ append_at n k gs

unfoldable pub grouped :
    List (String × ℕ) → List String → List (ℕ × List String) → List (ℕ × List String)
unfolding append_at get
grouped index [] groups = groups
grouped index (k ∷ ks) groups = elim (get str_eq k index) [
  | none ↦ grouped index ks groups
  | some n ↦ grouped index ks (append_at n k groups)
]

module _ {F : Type 0} where
  abbrev pub event_ids : List (Event F) → List String
  event_ids es = map (λ e. e.event_id) es

  -- `{e.event_id: e for e in events}`, on top of what is there
  unfoldable pub by_event_id : List (Event F) → List (String × Event F) → List (String × Event F)
  unfolding put
  by_event_id [] d = d
  by_event_id (e ∷ es) d = by_event_id es (put str_eq e.event_id e d)

  -- `__init__`
  abbrev pub init : F → Transport F
  init ack_timeout_ms = record {
    ack_timeout_ms = ack_timeout_ms;
    outstanding = [];
    event_index = [];
    next_id = 0;
    latency_ms = [];
    dispatched = [];
    resolved = [];
    total_redispatched = 0;
  }

  unfoldable pub reset : Transport F → Transport F
  reset s = init s.ack_timeout_ms

  unfoldable pub dispatch_stats : Transport F → DispatchStats
  dispatch_stats s = record {
    dispatched = length s.dispatched;
    resolved = length s.resolved;
    outstanding = length s.event_index;
    redispatched = s.total_redispatched;
  }

  -- what `dispatch` does before it awaits the delivery; there is at least one event
  unfoldable pub record_batch : Transport F → String → List (Event F) → F → Transport F
  unfolding by_event_id index_all set_update put
  record_batch s server events now = record s {
    next_id = s.next_id + 1;
    outstanding =
        put ◌==◌ (s.next_id + 1)
          (record { server = server; dispatched_ts = now; events = by_event_id events [] })
          s.outstanding;
    event_index = index_all (event_ids events) (s.next_id + 1) s.event_index;
    dispatched = set_update (event_ids events) s.dispatched;
  }

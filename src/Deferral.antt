-- ===== src/Deferral.antt =====
-- src/triage/deferral.py: the durable buffer of parked events, and one tick of its drainer. The
-- JSON text of a row is taken as the event that it encodes; `already_deferred` is a list of ids.
pub mod Delete
pub mod Batch
pub mod Backlog
pub mod Parked
use vh26_crackers.Base.{
  ℕ, zero, suc, ◌+◌, ◌≤◌, Bool, true, false, not, ◌&&◌, ◌||◌, leb, ltb, ◌==◌, str_eq, ℤ, pos, ◌+ℤ◌,
  ◌-ℤ◌, List, [], ◌∷◌, ◌++◌, map, take, length, String, Option, none, some, Floats, ◌≤?◌, ◌<?◌,
  if◌then◌else◌, ℕ_discrete, sort, ◌≢◌, filter, ◌⊖◌, ◌⊘◌,
}
use vh26_crackers.Contracts.{Event, EventType, Tier, p0, p1, p2, is_p0}

pub data Origin : Type 0 where
  local server2 : Origin

-- One row of `deferred_buffer`.
pub record Row (F R : Type 0) : Type 0 where
  pub defer_id : ℕ
  pub event_id : String
  pub dedup_key : String
  pub seq : ℕ
  pub partition_key : String
  pub idempotency_key : String
  pub event_type : EventType
  pub tier : Tier
  pub deadline_ts : F
  pub deferred_ts : F
  pub ready_at : F
  pub defer_reason : R
  pub event : Event F
  pub schema_version : ℕ
  pub origin : Origin

-- `_pending_count` is an int that the store keeps beside the table.
pub record DeferralStore (F R : Type 0) : Type 0 where
  pub rows : List (Row F R)
  pub pending : ℤ
  pub total_deferred : ℕ
  pub total_drained : ℕ
  pub drain_timestamps : List F
  pub already_deferred : List String

pub data Result {ℓ} (A : Type ℓ) : Type ℓ where
  ok : A → Result A
  value_error : Result A

unfoldable pub known : String → List String → Bool
known k [] = false
known k (x ∷ xs) = str_eq x k || known k xs

-- `tier ASC` compares the texts 'P1' and 'P2'
abbrev pub tier_order : Tier → ℕ
tier_order p0 = 0
tier_order p1 = 1
tier_order p2 = 2

abbrev pub same_origin : Origin → Origin → Bool
same_origin local local = true
same_origin server2 server2 = true
same_origin _ _ = false

abbrev pub drain_batch_per_tick : ℕ
drain_batch_per_tick = 25

unfoldable pub stamps {ℓ} : {F : Type ℓ} → ℕ → F → List F
stamps zero now = []
stamps (suc n) now = now ∷ stamps n now

module _ {F : Type 0} ⦃fl : Floats F⦄ where
  abbrev pub drain_pressure_threshold : F
  drain_pressure_threshold = fl.lit 35 2

  -- the loop of `drain_rate` that drops what left the window
  unfoldable pub drop_before : F → List F → List F
  drop_before cutoff [] = []
  drop_before cutoff (t ∷ ts) =
      let rest = drop_before cutoff ts in if t <? cutoff then rest else t ∷ ts

module _ {F R : Type 0} where
  -- SQLite gives a new row the id after the largest.
  unfoldable pub next_id : List (Row F R) → ℕ
  next_id [] = 1
  next_id (r ∷ rs) = let n = next_id rs in if ltb r.defer_id n then n else suc r.defer_id

  unfoldable pub new_row : ℕ → Event F → R → F → Origin → Row F R
  new_row id e reason now origin = record {
    defer_id = id;
    event_id = e.event_id;
    dedup_key = e.dedup_key;
    seq = e.seq;
    partition_key = e.partition_key;
    idempotency_key = e.idempotency_key;
    event_type = e.type;
    tier = e.tier;
    deadline_ts = e.deadline_ts;
    deferred_ts = now;
    ready_at = now;
    defer_reason = reason;
    event = e;
    schema_version = e.schema_version;
    origin = origin;
  }

  -- `ON CONFLICT(event_id) DO UPDATE SET`: the columns not named there stay
  unfoldable pub refresh : Row F R → Event F → R → F → Origin → Row F R
  refresh r e reason now origin = record r {
    seq = e.seq;
    deadline_ts = e.deadline_ts;
    deferred_ts = now;
    ready_at = now;
    defer_reason = reason;
    event = e;
    origin = origin;
  }

  unfoldable pub has_event : String → List (Row F R) → Bool
  has_event k [] = false
  has_event k (r ∷ rs) = str_eq r.event_id k || has_event k rs

  unfoldable pub refresh_in : List (Row F R) → Event F → R → F → Origin → List (Row F R)
  unfolding refresh
  refresh_in [] e reason now origin = []
  refresh_in (r ∷ rs) e reason now origin =
      if str_eq r.event_id e.event_id
      then refresh r e reason now origin ∷ rs
      else r ∷ refresh_in rs e reason now origin

  unfoldable pub upsert : List (Row F R) → Event F → R → F → Origin → List (Row F R)
  unfolding has_event refresh_in new_row next_id
  upsert rows e reason now origin =
      if has_event e.event_id rows
      then refresh_in rows e reason now origin
      else rows ++ new_row (next_id rows) e reason now origin ∷ []

  unfoldable pub defer : DeferralStore F R → Event F → R → F → Origin → Result (DeferralStore F R)
  unfolding upsert known
  defer s e reason now origin =
      if is_p0 e.tier
      then value_error
      else let seen = known e.event_id s.already_deferred in
        ok (record s {
          rows = upsert s.rows e reason now origin;
          pending = if seen then s.pending else s.pending +ℤ pos 1;
          total_deferred = s.total_deferred + 1;
          already_deferred = if seen then s.already_deferred else e.event_id ∷ s.already_deferred;
        })

  -- `WHERE origin = ?`, if an origin is given
  unfoldable pub of_origin : Option Origin → List (Row F R) → List (Row F R)
  of_origin none rows = rows
  of_origin (some o) [] = []
  of_origin (some o) (r ∷ rs) =
      let rest = of_origin (some o) rs in if same_origin r.origin o then r ∷ rest else rest

  unfoldable pub pending_count_by_origin : DeferralStore F R → Origin → ℕ
  unfolding of_origin
  pending_count_by_origin s o = length (of_origin (some o) s.rows)

  pub dec_other : (i : ℕ) (r : Row F R) → Dec (r.defer_id ≢ i)
  dec_other i r = elim (ℕ_discrete r.defer_id i) [ yes h ↦ no (λ k. k h) | no h ↦ yes h ]

  -- `DELETE ... WHERE defer_id IN (...)`
  unfoldable pub delete_ids : List ℕ → List (Row F R) → List (Row F R)
  unfolding dec_other
  delete_ids [] rows = rows
  delete_ids (i ∷ is) rows = delete_ids is (filter (dec_other i) rows)

module _ {F R : Type 0} ⦃fl : Floats F⦄ where
  -- `ORDER BY ready_at ASC, tier ASC, deadline_ts ASC, seq ASC`
  unfoldable pub before : Row F R → Row F R → Bool
  before a b =
      if a.ready_at <? b.ready_at
      then true
      else if b.ready_at <? a.ready_at
      then false
      else if ltb (tier_order a.tier) (tier_order b.tier)
      then true
      else if ltb (tier_order b.tier) (tier_order a.tier)
      then false
      else if a.deadline_ts <? b.deadline_ts
      then true
      else if b.deadline_ts <? a.deadline_ts
      then false
      else leb a.seq b.seq

  unfoldable pub ready : DeferralStore F R → ℕ → Option Origin → List (Row F R)
  unfolding of_origin before
  ready s limit origin = take limit (sort before (of_origin origin s.rows))

  -- An empty batch deletes nothing, so the early return has no branch of its own.
  unfoldable pub pop_ready_batch :
      DeferralStore F R → ℕ → Option Origin → DeferralStore F R × List (Event F)
  unfolding ready delete_ids
  pop_ready_batch s limit origin =
      let batch = ready s limit origin in
      (
        record s {
          rows = delete_ids (map (λ r. r.defer_id) batch) s.rows;
          pending = s.pending -ℤ pos (length batch);
        },
        map (λ r. r.event) batch,
      )

  -- One turn of `run_drainer` past its wait: the store, and the events handed to `replay`.
  unfoldable pub drain_tick :
      DeferralStore F R → F → F → Option Origin → DeferralStore F R × List (Event F)
  unfolding pop_ready_batch stamps
  drain_tick s pressure now origin =
      if drain_pressure_threshold ≤? pressure
      then (s, [])
      else let (popped, batch) = pop_ready_batch s drain_batch_per_tick origin in
        (
          record popped {
            total_drained = popped.total_drained + length batch;
            drain_timestamps = popped.drain_timestamps ++ stamps (length batch) now;
          },
          batch,
        )

  unfoldable pub drain_rate : DeferralStore F R → F → DeferralStore F R × F
  unfolding drop_before
  drain_rate s now =
      let kept = drop_before (now ⊖ fl.lit 50 1) s.drain_timestamps in
      (record s { drain_timestamps = kept }, fl.int (pos (length kept)) ⊘ fl.lit 50 1)

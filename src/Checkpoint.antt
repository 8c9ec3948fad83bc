-- ===== src/Checkpoint.antt =====
-- src/triage/checkpoint.py: the table of events that a worker is serving. The JSON text of a row
-- is taken as the event that it encodes.
pub mod ExactlyOnce
pub mod Workers
use vh26_crackers.Base.{
  ℕ, suc, ◌+◌, Bool, true, false, not, ◌&&◌, ◌||◌, ltb, str_eq, ℤ, eq_ℤ, List, [], ◌∷◌, ◌++◌, map,
  String, length, if◌then◌else◌,
}
use vh26_crackers.Contracts.{Event}

pub record Row (F : Type 0) : Type 0 where
  pub event : Event F
  pub idempotency_key : String
  pub worker_id : ℤ
  pub started_ts : F

-- The rows of `in_flight_checkpoint`, in the order of insertion. `event_id` is the primary key.
pub record CheckpointStore (F : Type 0) : Type 0 where
  pub rows : List (Row F)

unfoldable pub has_worker : ℤ → List ℤ → Bool
has_worker w [] = false
has_worker w (v ∷ vs) = eq_ℤ v w || has_worker w vs

module _ {F : Type 0} where
  abbrev pub row_id : Row F → String
  row_id r = r.event.event_id

  unfoldable pub has_row : String → List (Row F) → Bool
  has_row k [] = false
  has_row k (r ∷ rs) = str_eq (row_id r) k || has_row k rs

  -- `DELETE ... WHERE event_id = ?`
  unfoldable pub delete_row : String → List (Row F) → List (Row F)
  delete_row k [] = []
  delete_row k (r ∷ rs) =
      let rest = delete_row k rs in if str_eq (row_id r) k then rest else r ∷ rest

  -- `SELECT ... WHERE worker_id = ?`, and `DELETE` of the same rows
  unfoldable pub rows_of : ℤ → List (Row F) → List (Row F)
  rows_of w [] = []
  rows_of w (r ∷ rs) = let rest = rows_of w rs in if eq_ℤ r.worker_id w then r ∷ rest else rest

  unfoldable pub rows_without : ℤ → List (Row F) → List (Row F)
  rows_without w [] = []
  rows_without w (r ∷ rs) =
      let rest = rows_without w rs in if eq_ℤ r.worker_id w then rest else r ∷ rest

  -- an `IntegrityError` leaves the row that is there
  unfoldable pub begin : CheckpointStore F → Event F → ℤ → F → CheckpointStore F × Bool
  unfolding has_row
  begin s event worker_id now = if has_row event.event_id s.rows then (s, false) else (
    record s {
      rows =
          s.rows
          ++ record {
            event = event;
            idempotency_key = event.idempotency_key;
            worker_id = worker_id;
            started_ts = now;
          }
            ∷ [];
    },
    true,
  )

  -- `cur.rowcount > 0`
  unfoldable pub mark_done : CheckpointStore F → String → CheckpointStore F × Bool
  unfolding delete_row
  mark_done s event_id = (
    record s { rows = delete_row event_id s.rows },
    ltb (length (delete_row event_id s.rows)) (length s.rows),
  )

  unfoldable pub recover_worker : CheckpointStore F → ℤ → CheckpointStore F × List (Event F)
  unfolding rows_of rows_without
  recover_worker s worker_id = (
    record s { rows = rows_without worker_id s.rows },
    map (λ r. r.event) (rows_of worker_id s.rows),
  )

  unfoldable pub in_flight_count : CheckpointStore F → ℕ
  in_flight_count s = length s.rows

  unfoldable pub is_in_flight : CheckpointStore F → String → Bool
  unfolding has_row
  is_in_flight s event_id = has_row event_id s.rows

  -- `SELECT DISTINCT worker_id`
  unfoldable pub worker_ids : List (Row F) → List ℤ
  unfolding has_worker
  worker_ids [] = []
  worker_ids (r ∷ rs) =
      let rest = worker_ids rs in if has_worker r.worker_id rest then rest else r.worker_id ∷ rest

  unfoldable pub busy_worker_ids : CheckpointStore F → List ℤ
  unfolding worker_ids
  busy_worker_ids s = worker_ids s.rows

-- ===== src/Sink/Rollups.antt =====
-- src/triage/sink.py: the table `rollups`, and the counter that the sink keeps for its ids. A key
-- `rollup-<type>-<n>` is taken as the pair of its two parts.
pub mod Keys
pub mod Window
use vh26_crackers.Base.{
  ℕ, ◌+◌, Bool, false, not, ◌&&◌, ◌||◌, ltb, ◌==◌, List, [], ◌∷◌, ◌++◌, length, Floats, ◌≤?◌, ◌<?◌,
  of_int, if◌then◌else◌,
}
use vh26_crackers.Contracts.{EventType}
use vh26_crackers.Costmodel.{same_type}
use vh26_crackers.Ladder.Reservoir.{Rollup}

pub record RollupId : Type 0 where
  pub kind : EventType
  pub number : ℕ

pub record RollupRow (F : Type 0) : Type 0 where
  pub rollup_id : RollupId
  pub rollup : Rollup F
  pub created_ts : F
  pub schema_version : ℕ

-- the table, and `_rollup_seq`, which is not stored
pub record RollupSink (F : Type 0) : Type 0 where
  pub rows : List (RollupRow F)
  pub rollup_seq : ℕ

pub data WriteResult : Type 0 where
  written : RollupId → WriteResult
  integrity_error : WriteResult

abbrev pub schema_version_now : ℕ
schema_version_now = 1

unfoldable pub same_id : RollupId → RollupId → Bool
unfolding same_type
same_id a b = same_type a.kind b.kind && a.number == b.number

module _ {F : Type 0} ⦃fl : Floats F⦄ where
  abbrev pub same_time : F → F → Bool
  same_time a b = a ≤? b && b ≤? a

  -- the index `idx_rollups_type_window`
  unfoldable pub same_window : Rollup F → Rollup F → Bool
  unfolding same_type
  same_window a b =
      same_type a.event_type b.event_type
      && (same_time a.window_start b.window_start && same_time a.window_end b.window_end)

  -- the CHECK constraints; those on counts hold of any natural number
  unfoldable pub passes_checks : Rollup F → Bool
  passes_checks r =
      r.window_start <? r.window_end
      && (of_int 1 ≤? r.sample_weight && not (ltb r.seq_high r.seq_low))

  unfoldable pub has_id : RollupId → List (RollupRow F) → Bool
  unfolding same_id
  has_id k [] = false
  has_id k (x ∷ xs) = same_id x.rollup_id k || has_id k xs

  unfoldable pub has_window : Rollup F → List (RollupRow F) → Bool
  unfolding same_window
  has_window r [] = false
  has_window r (x ∷ xs) = same_window x.rollup r || has_window r xs

  -- what makes the INSERT fail
  unfoldable pub refused : List (RollupRow F) → RollupId → Rollup F → Bool
  unfolding passes_checks has_id has_window
  refused rows k r = not (passes_checks r) || (has_id k rows || has_window r rows)

  abbrev pub row_of : RollupId → Rollup F → F → RollupRow F
  row_of k r now = record {
    rollup_id = k;
    rollup = r;
    created_ts = now;
    schema_version = schema_version_now;
  }

  -- the id that the next call makes
  abbrev pub next_key : RollupSink F → Rollup F → RollupId
  next_key s r = record { kind = r.event_type; number = s.rollup_seq + 1 }

  -- the counter moves before the INSERT, whether or not that succeeds
  unfoldable pub write_rollup : RollupSink F → Rollup F → F → RollupSink F × WriteResult
  unfolding refused
  write_rollup s r now =
      if refused s.rows (next_key s r) r
      then (record s { rollup_seq = s.rollup_seq + 1 }, WriteResult.integrity_error)
      else (
        record { rows = s.rows ++ row_of (next_key s r) r now ∷ []; rollup_seq = s.rollup_seq + 1 },
        WriteResult.written (next_key s r),
      )

  unfoldable pub rollup_count : RollupSink F → ℕ
  rollup_count s = length s.rows

  -- `__init__` on a database that is there: the tables stay, and the counter starts again
  unfoldable pub reopen : RollupSink F → RollupSink F
  reopen s = record s { rollup_seq = 0 }

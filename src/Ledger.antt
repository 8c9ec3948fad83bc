-- ===== src/Ledger.antt =====
-- src/triage/ledger.py: the hash-chained audit table. SHA-256, the printing of numbers and
-- `round(x, 4)` are Python's and are parameters. The table is kept in the order of its key,
-- `ledger_id`, as SQLite keeps it.
pub mod Chain
pub mod Tampering
use vh26_crackers.Base.{
  ℕ, suc, ◌+◌, leb, ◌==◌, Bool, true, false, not, ◌&&◌, ◌||◌, str_eq, List, [], ◌∷◌, String, Option,
  none, some, Floats, if◌then◌else◌, insert, length,
}
use vh26_crackers.Contracts.{
  Tier, p0, p1, p2, Decision, stream_now, micro_batch, defer, sample_rollup, shed,
}

-- One row of `audit_ledger`.
pub record Row (F : Type 0) : Type 0 where
  pub ledger_id : ℕ
  pub recorded_ts : F
  pub seq : ℕ
  pub decision : Decision
  pub reason : String
  pub pressure : F
  pub tier : Tier
  pub prev_hash : String
  pub row_hash : String

-- What `_canonical_bytes`, `_hash` and `record` take from Python: `str(n)` of an int, `"%.6f"` of a
-- float, `round(x, 4)`, `"|".join(fields)` as the bytes of its text, and the hex digest of bytes.
pub record Printing (F Bytes : Type 0) : Type 0 where
  pub digits : ℕ → String
  pub fixed6 : F → String
  pub round4 : F → F
  pub joined : List String → Bytes
  pub hexdigest : Bytes → String

pub record SqliteLedger (F : Type 0) : Type 0 where
  pub table : List (Row F)
  pub last_hash : String
  pub next_id : ℕ
  pub total_recorded : ℕ

-- `broken_at`, and which of the two sentences is the reason
pub data ChainVerification : Type 0 where
  ok : ChainVerification
  prev_hash_mismatch : ℕ → ChainVerification
  row_hash_mismatch : ℕ → ChainVerification

abbrev pub genesis_hash : String
genesis_hash = "0000000000000000000000000000000000000000000000000000000000000000"

-- `decision.value` and `tier.value`
abbrev pub decision_value : Decision → String
decision_value stream_now = "STREAM_NOW"
decision_value micro_batch = "MICRO_BATCH"
decision_value defer = "DEFER"
decision_value sample_rollup = "SAMPLE_ROLLUP"
decision_value shed = "SHED"

abbrev pub tier_value : Tier → String
tier_value p0 = "P0"
tier_value p1 = "P1"
tier_value p2 = "P2"

module _ {F : Type 0} where
  -- The constraints of the table: `ledger_id` is the key, and `row_hash` is unique.
  unfoldable pub conflicts : ℕ → String → List (Row F) → Bool
  conflicts id hash [] = false
  conflicts id hash (r ∷ rs) = (r.ledger_id == id || str_eq r.row_hash hash) || conflicts id hash rs

  abbrev pub by_id : Row F → Row F → Bool
  by_id a b = leb a.ledger_id b.ledger_id

  -- the three loaders of a ledger that opens a table
  unfoldable pub load_last_hash : List (Row F) → String
  load_last_hash [] = genesis_hash
  load_last_hash (r ∷ []) = r.row_hash
  load_last_hash (r ∷ q ∷ rs) = load_last_hash (q ∷ rs)

  unfoldable pub load_next_id : List (Row F) → ℕ
  load_next_id [] = 1
  load_next_id (r ∷ []) = r.ledger_id + 1
  load_next_id (r ∷ q ∷ rs) = load_next_id (q ∷ rs)

  unfoldable pub init : List (Row F) → SqliteLedger F
  unfolding load_last_hash load_next_id
  init table = record {
    table = table;
    last_hash = load_last_hash table;
    next_id = load_next_id table;
    total_recorded = length table;
  }

module _ {F Bytes : Type 0} (py : Printing F Bytes) where
  unfoldable pub canonical_bytes : ℕ → F → ℕ → Decision → String → F → Tier → String → Bytes
  canonical_bytes ledger_id recorded_ts seq decision reason pressure tier prev_hash = py.joined (
      py.digits ledger_id
      ∷ py.fixed6 recorded_ts
      ∷ py.digits seq
      ∷ decision_value decision
      ∷ reason
      ∷ py.fixed6 pressure
      ∷ tier_value tier
      ∷ prev_hash
      ∷ [])

  -- `_hash(_canonical_bytes(...))` of the columns of a row
  unfoldable pub recomputed : Row F → String
  unfolding canonical_bytes
  recomputed r = py.hexdigest (
      canonical_bytes r.ledger_id r.recorded_ts r.seq r.decision r.reason r.pressure r.tier
        r.prev_hash)

  unfoldable pub new_row : SqliteLedger F → ℕ → Decision → String → F → Tier → F → Row F
  unfolding canonical_bytes
  new_row l seq decision reason pressure tier now = record {
    ledger_id = l.next_id;
    recorded_ts = now;
    seq = seq;
    decision = decision;
    reason = reason;
    pressure = py.round4 pressure;
    tier = tier;
    prev_hash = l.last_hash;
    row_hash =
        py.hexdigest
          (canonical_bytes l.next_id now seq decision reason (py.round4 pressure) tier l.last_hash);
  }

  -- `record`. `stored` says whether SQLite could write at all: an error of the disk and a violated
  -- constraint are caught alike.
  unfoldable pub record_row :
      Bool → SqliteLedger F → ℕ → Decision → String → F → Tier → F → SqliteLedger F
  unfolding new_row conflicts
  record_row stored l seq decision reason pressure tier now =
      let row = new_row l seq decision reason pressure tier now in
      if stored && not (conflicts row.ledger_id row.row_hash l.table)
      then record {
        table = insert by_id row l.table;
        last_hash = row.row_hash;
        next_id = l.next_id + 1;
        total_recorded = l.total_recorded + 1;
      }
      else l

  -- the loop of `verify_chain`
  unfoldable pub verify_from : String → List (Row F) → ChainVerification
  unfolding recomputed
  verify_from expected_prev [] = ok
  verify_from expected_prev (r ∷ rs) =
      let rest = verify_from r.row_hash rs in
      if not (str_eq r.prev_hash expected_prev)
      then prev_hash_mismatch r.ledger_id
      else if not (str_eq (recomputed r) r.row_hash)
      then row_hash_mismatch r.ledger_id
      else rest

  unfoldable pub verify_chain : SqliteLedger F → ChainVerification
  unfolding verify_from
  verify_chain l = verify_from genesis_hash l.table

-- ===== src/Metrics/State.antt =====
-- The variables of src/triage/metrics.py, and the small updates that its observation points share.
-- The windows of latencies are lists, the oldest first; what was recent is listed latest first.
use vh26_crackers.Base.{
  ℕ, ◌+◌, ◌-◌, Bool, true, false, str_eq, List, [], ◌∷◌, ◌++◌, drop, length, String, if◌then◌else◌,
}
use vh26_crackers.Contracts.{
  Tier, p0, p1, p2, Decision, stream_now, micro_batch, defer, sample_rollup, shed, DecisionTrace,
  ShedRecord, Mode,
}
use vh26_crackers.Codel.{CoDelController}
use vh26_crackers.Metrics.Rate.{Ewma}

-- a dictionary with a key for each tier
pub record PerTier (A : Type 0) : Type 0 where
  pub p0_of : A
  pub p1_of : A
  pub p2_of : A

unfoldable pub at_tier : {A : Type 0} → (A → A) → Tier → PerTier A → PerTier A
at_tier f p0 d = record d { p0_of = f d.p0_of }
at_tier f p1 d = record d { p1_of = f d.p1_of }
at_tier f p2 d = record d { p2_of = f d.p2_of }

-- `_counters`
pub record Counters : Type 0 where
  pub ingested : ℕ
  pub processed : ℕ
  pub in_queue : ℕ
  pub in_flight : ℕ
  pub sampled_out : ℕ
  pub shed : ℕ
  pub true_click_count : ℕ
  pub retries : ℕ
  pub exactly_once_violations : ℕ
  pub duplicates_caught : ℕ

pub record Metrics (F R : Type 0) : Type 0 where
  pub counters : Counters
  pub queue_depth : PerTier ℕ
  pub latency_ms : PerTier (List F)
  pub latency_ms_all : List F
  pub queue_wait_ms : PerTier (List F)
  pub queue_wait_ms_all : List F
  pub sla_met : PerTier ℕ
  pub sla_missed : PerTier ℕ
  pub value_delivered : F
  pub value_shed : F
  pub weighted_click_count : F
  pub ladder_rung : PerTier ℕ
  pub recent_decisions : List (DecisionTrace F R)
  pub recent_sheds : List (ShedRecord F R)
  pub critical_failure_count : ℕ
  pub replay_admitted_at : List (String × F)
  pub arrival_rate : Ewma F
  pub service_rate : Ewma F
  pub offered_rate : Ewma F
  pub admitted_rate : Ewma F
  pub codel : CoDelController F
  pub mode : Mode
  pub pressure_cache : F
  pub pressure_cache_ts : F
  pub started_at : F

-- the two calls of ledger.py
pub data LedgerCall (F R : Type 0) : Type 0 where
  record_trace : DecisionTrace F R → LedgerCall F R
  record_row : ℕ → Decision → R → F → Tier → LedgerCall F R

abbrev pub window_size : ℕ
window_size = 4096

abbrev pub recent_size : ℕ
recent_size = 50

-- `append` to a deque of bounded length drops the first element of a full one
unfoldable pub push_bounded : {A : Type 0} → ℕ → List A → A → List A
push_bounded n xs x = drop (length xs + 1 - n) (xs ++ x ∷ [])

unfoldable pub lookup : {A : Type 0} → String → A → List (String × A) → A
lookup k default [] = default
lookup k default ((j, x) ∷ rest) =
    let found = lookup k default rest in if str_eq j k then x else found

unfoldable pub without : {A : Type 0} → String → List (String × A) → List (String × A)
without k [] = []
without k ((j, x) ∷ rest) = let kept = without k rest in if str_eq j k then kept else (j, x) ∷ kept

-- `max(0, n - 1)`
abbrev pub pred : ℕ → ℕ
pred n = n - 1

abbrev pub is_stream_now : Decision → Bool
is_stream_now stream_now = true
is_stream_now micro_batch = false
is_stream_now defer = false
is_stream_now sample_rollup = false
is_stream_now shed = false

abbrev pub is_shed : Decision → Bool
is_shed shed = true
is_shed stream_now = false
is_shed micro_batch = false
is_shed defer = false
is_shed sample_rollup = false

unfoldable pub count_ingest : Bool → Counters → Counters
count_ingest click c = record c {
  ingested = c.ingested + 1;
  in_queue = c.in_queue + 1;
  true_click_count = if click then c.true_click_count + 1 else c.true_click_count;
}

unfoldable pub count_dequeue : Counters → Counters
count_dequeue c = record c { in_queue = pred c.in_queue; in_flight = c.in_flight + 1 }

unfoldable pub count_complete : Counters → Counters
count_complete c = record c { in_flight = pred c.in_flight; processed = c.processed + 1 }

unfoldable pub count_decision : Decision → Counters → Counters
count_decision shed c = record c { shed = c.shed + 1 }
count_decision sample_rollup c = record c { sampled_out = c.sampled_out + 1 }
count_decision _ c = c

-- ===== src/Decision.antt =====
-- src/triage/decision.py: ordering (`score`), system state (`pressure`), routing (`decide`) and
-- the size and the price of a batch. Floats are the interface of Base/Float.
pub mod Ordering
pub mod Pressure
pub mod Routing
pub mod Batching
pub mod Weights
use vh26_crackers.Base.{
  ℕ, ℤ, pos, neg_part, pos_part, ◌+◌, leb, ltb, Bool, Option, none, some, List, [], ◌∷◌, Floats,
  ◌≤?◌, ◌<?◌, ◌⊕◌, ◌⊖◌, ◌⊗◌, ◌⊘◌, of_int, fmin, fmax, if◌then◌else◌, le_ℤ, sub_ℕ,
}
use vh26_crackers.Contracts.{Event, Decision, Tier, is_p0, stream_now, micro_batch, defer}

-- The sentences that explain a decision, with the numbers that they print. Those of worker.py and
-- ladder.py stand here too, since one type of reason travels through the program.
pub data Reason (F : Type 0) : Type 0 where
  p0_is_never_delayed : Reason F
  past_effective_deadline : F → Reason F
  headroom_available : F → Reason F
  batching_amortises : F → Reason F
  deferring_until_pressure_falls : F → Reason F
  already_deferred_once : Reason F
  codel_is_sampling : Reason F
  hard_shed : F → Reason F

pub record ScoreWeights (F : Type 0) : Type 0 where
  pub w1 : F
  pub w2 : F

pub record PressureWeights (F : Type 0) : Type 0 where
  pub a : F
  pub b : F
  pub c : F
  pub d : F

pub record PressureSignals (F : Type 0) : Type 0 where
  pub qdepth : F
  pub qmax : F
  pub arrival_rate_ewma_with_trend : F
  pub service_rate : F
  pub p95_sojourn : F
  pub sla_reference : F
  pub worker_util : F

-- `b_min`, `b_max` and the rounded size are ints, which may be negative.
abbrev pub min_ℤ : ℤ → ℤ → ℤ
min_ℤ a b = if le_ℤ a b then a else b

abbrev pub max_ℤ : ℤ → ℤ → ℤ
max_ℤ a b = if le_ℤ b a then a else b

module _ {F : Type 0} ⦃fl : Floats F⦄ where
  abbrev pub eps : F
  eps = fl.lit 1 6

  -- `cost` is the learned estimate, or none to use the cost of the event.
  abbrev pub cost_or : Event F → Option F → F
  cost_or event none = event.cost
  cost_or event (some c) = c

  unfoldable pub est_service_time : Event F → F → Option F → F
  est_service_time event capacity cost = cost_or event cost ⊘ fmax capacity eps

  unfoldable pub slack : Event F → F → F → Option F → F
  slack event now capacity cost = event.deadline_ts ⊖ now ⊖ est_service_time event capacity cost

  unfoldable pub score : Event F → F → F → ScoreWeights F → Option F → F
  score event now capacity weights cost =
      let urgency = of_int 1 ⊘ fmax (slack event now capacity cost) eps in
      let density = event.value ⊘ fmax (cost_or event cost) eps in
      let sla = fmax (event.deadline_ts ⊖ event.ingest_ts) eps in
      let age = fmax (now ⊖ event.ingest_ts) (of_int 0) in
      weights.w1 ⊗ density ⊗ urgency ⊕ weights.w2 ⊗ (age ⊘ sla)

  unfoldable pub raw_pressure : PressureSignals F → PressureWeights F → F
  raw_pressure s w =
      w.a ⊗ (s.qdepth ⊘ fmax s.qmax eps)
      ⊕ w.b ⊗ (s.arrival_rate_ewma_with_trend ⊘ fmax s.service_rate eps)
      ⊕ w.c ⊗ (s.p95_sojourn ⊘ fmax s.sla_reference eps)
      ⊕ w.d ⊗ s.worker_util

  unfoldable pub pressure : PressureSignals F → PressureWeights F → F
  pressure s w = fmin (fmax (raw_pressure s w) (of_int 0)) (of_int 1)

  -- The three bands of pressure, for an event with margin left.
  unfoldable pub decide_by_pressure : F → Decision × Reason F
  decide_by_pressure p =
      if p <? fl.lit 40 2
      then (stream_now, headroom_available p)
      else if p <? fl.lit 75 2
      then (micro_batch, batching_amortises p)
      else (defer, deferring_until_pressure_falls p)

  -- The `assert` behind the first return never fails, and has no counterpart.
  unfoldable pub decide : Event F → F → F → F → Option F → Decision × Reason F
  unfolding decide_by_pressure
  decide event p now capacity cost =
      if is_p0 event.tier
      then (stream_now, p0_is_never_delayed)
      else let event_slack = slack event now capacity cost in
        if event_slack <? of_int 0
        then (defer, past_effective_deadline event_slack)
        else decide_by_pressure p

  -- b_min + (b_max - b_min) * P, rounded and clamped
  unfoldable pub batch_size : F → ℤ → ℤ → ℤ
  batch_size p b_min b_max =
      let width = sub_ℕ (pos_part b_max + neg_part b_min) (neg_part b_max + pos_part b_min) in
      max_ℤ b_min (min_ℤ b_max (fl.round (fl.int b_min ⊕ fl.int width ⊗ p)))

  -- `sum(costs)`, which starts at the int 0
  unfoldable pub sum_from : F → List F → F
  sum_from total [] = total
  sum_from total (c ∷ costs) = sum_from (total ⊕ c) costs

  unfoldable pub batch_cost : List F → F
  unfolding sum_from
  batch_cost costs = sum_from (of_int 0) costs ⊗ fl.lit 4 1 ⊕ fl.lit 5 1

abbrev pub default_b_min : ℤ
default_b_min = pos 4

abbrev pub default_b_max : ℤ
default_b_max = pos 8

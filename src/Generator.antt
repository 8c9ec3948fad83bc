-- ===== src/Generator.antt =====
-- src/triage/generator.py: the settings of the generator, the making of a submission, and one
-- emission of its loop. The random draws and the wall clock are arguments; the f-strings of the
-- names and the rounding of a size are Python's, and parameters.
use vh26_crackers.Base.{
  ℕ, ◌+◌, Bool, true, false, ◌&&◌, String, str_eq, Option, none, some, Floats, ◌≤?◌, ◌<?◌, of_int,
  if◌then◌else◌,
}
use vh26_crackers.Contracts.{EventType}
use vh26_crackers.Costmodel.{same_type}
use vh26_crackers.Classifier.{Raw}
use vh26_crackers.Admission.{AdmissionControl, try_acquire, cost_of}
use vh26_crackers.Metrics.State.{Metrics}
use vh26_crackers.Metrics.{observe_admission}

-- the texts of an event's id, of a customer and of a business fact, and `round(size * multiplier)`
pub record Wording (F : Type 0) : Type 0 where
  pub event_id : ℕ → String
  pub customer : ℕ → String
  pub dedup_key : EventType → String → ℕ → String
  pub scaled_size : ℕ → F → ℕ

pub record EventGenerator (F : Type 0) : Type 0 where
  pub rate : F
  pub payload_multiplier : F
  pub emission_number : ℕ
  pub business_numbers : EventType → String → ℕ
  pub admission : AdmissionControl F

-- what the loop draws for one emission
pub record Draw (F : Type 0) : Type 0 where
  pub type : EventType
  pub customer : ℕ
  pub size : ℕ
  pub pressure : F
  pub now : F

unfoldable pub or_customer : Option String → String → String
or_customer none drawn = drawn
or_customer (some key) drawn = key

module _ {F : Type 0} where
  unfoldable pub emit_single :
      Wording F
      → EventGenerator F
      → EventType
      → Option String
      → ℕ
      → ℕ
      → F
      → EventGenerator F × Raw F
  unfolding or_customer same_type
  emit_single words g type partition_key customer size now =
      let key = or_customer partition_key (words.customer customer) in
      let business = g.business_numbers type key + 1 in
      (
        record g {
          emission_number = g.emission_number + 1;
          business_numbers =
              λ t k. if same_type t type && str_eq k key then business else g.business_numbers t k;
        },
        record {
          event_id = words.event_id (g.emission_number + 1);
          dedup_key = words.dedup_key type key business;
          partition_key = key;
          type = type;
          payload_size = words.scaled_size size g.payload_multiplier;
          ingest_ts = some now;
        },
      )

  unfoldable pub retry : Wording F → EventGenerator F → Raw F → F → EventGenerator F × Raw F
  retry words g raw now = (
    record g { emission_number = g.emission_number + 1 },
    record raw { event_id = words.event_id (g.emission_number + 1); ingest_ts = some now },
  )

module _ {F : Type 0} ⦃fl : Floats F⦄ where
  -- none is a `ValueError`
  unfoldable pub set_rate : EventGenerator F → F → Option (EventGenerator F)
  set_rate g rate = if rate <? of_int 0 then none else some (record g { rate = rate })

  unfoldable pub set_payload_multiplier : EventGenerator F → F → Option (EventGenerator F)
  set_payload_multiplier g multiplier =
      if multiplier ≤? of_int 0 then none else some (record g { payload_multiplier = multiplier })

module _ {F : Type 0} where
  unfoldable pub emitted :
      Wording F → EventGenerator F → Draw F → Bool → EventGenerator F × Option (Raw F)
  unfolding emit_single
  emitted words g d true =
      let (g', raw) = emit_single words g d.type none d.customer d.size d.now in (g', some raw)
  emitted words g d false = (g, none)

module _ {F R : Type 0} ⦃fl : Floats F⦄ (half_power : F → F) where
  -- the body of the inner loop of `events`, with what it yields
  unfoldable pub emission :
      Wording F
      → EventGenerator F
      → Metrics F R
      → Draw F
      → (EventGenerator F × Option (Raw F)) × Metrics F R
  unfolding emitted try_acquire cost_of observe_admission
  emission words g m d =
      let cost = cost_of g.admission d.type in
      let (admission, admitted) = try_acquire g.admission d.type d.pressure d.now in
      (
        emitted words (record g { admission = admission }) d admitted,
        observe_admission half_power m cost admitted d.now,
      )

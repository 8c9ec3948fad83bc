-- ===== src/Costmodel.antt =====
-- src/triage/costmodel.py: costs learned for each type and payload bucket. `int(x)` of a float and
-- the smoothing factor, a power of 0.5, are Python's, and parameters.
pub mod Learning
use vh26_crackers.Base.{
  ℕ, suc, ◌+◌, leb, ◌==◌, Bool, true, false, ◌&&◌, Option, none, some, ℤ, pos, sub_ℕ, eq_ℤ, List,
  [], ◌∷◌, Floats, ◌⊕◌, ◌⊖◌, ◌⊗◌, ◌⊘◌, of_int, fmin, if◌then◌else◌,
}
use vh26_crackers.Contracts.{EventType, payment, order, inventory, click, log}
use vh26_crackers.Config.{Config}
use vh26_crackers.Decision.{min_ℤ, max_ℤ}

abbrev pub min_confident_samples : ℕ
min_confident_samples = 30

abbrev pub buckets_per_type : ℕ
buckets_per_type = 4

-- `PAYLOAD_SIZE_RANGES` of generator.py
unfoldable pub payload_low : EventType → ℕ
payload_low payment = 256
payload_low order = 384
payload_low inventory = 128
payload_low click = 64
payload_low log = 256

unfoldable pub payload_high : EventType → ℕ
payload_high payment = 1024
payload_high order = 2048
payload_high inventory = 768
payload_high click = 512
payload_high log = 4096

-- equality of enumeration members, and the key of a row
unfoldable pub same_type : EventType → EventType → Bool
same_type payment payment = true
same_type order order = true
same_type inventory inventory = true
same_type click click = true
same_type log log = true
same_type _ _ = false

pub record RunningEstimate (F : Type 0) : Type 0 where
  pub mean : Option F
  pub count : ℕ

pub record CostModel (F : Type 0) : Type 0 where
  pub config : Config F
  pub estimates : EventType → ℤ → RunningEstimate F

abbrev pub unlearned : {F : Type 0} → RunningEstimate F
unlearned = record { mean = none; count = 0 }

unfoldable pub init : {F : Type 0} → Config F → CostModel F
init config = record { config = config; estimates = λ t b. unlearned }

unfoldable pub reset : {F : Type 0} → CostModel F → CostModel F
reset m = record m { estimates = λ t b. unlearned }

module _ {F : Type 0} ⦃fl : Floats F⦄ where
  unfoldable pub reference_payload_size : EventType → F
  reference_payload_size t = fl.int (pos (payload_low t + payload_high t)) ⊘ fl.lit 20 1

  unfoldable pub true_cost : Config F → EventType → ℕ → F
  true_cost config t size = (config.tiers t).cost ⊗ (fl.int (pos size) ⊘ reference_payload_size t)

  unfoldable pub observe_value : F → RunningEstimate F → F → RunningEstimate F
  observe_value alpha r v = record {
    mean = some (elim r.mean [ none ↦ v | some mean ↦ mean ⊕ alpha ⊗ (v ⊖ mean) ]);
    count = r.count + 1;
  }

  -- the blend of what was learned with the prior
  unfoldable pub blend : F → RunningEstimate F → F
  blend prior r = elim r.mean [
    | none ↦ prior
    | some mean ↦
        let confidence =
          fmin (of_int 1) (fl.int (pos r.count) ⊘ fl.int (pos min_confident_samples)) in
        confidence ⊗ mean ⊕ (of_int 1 ⊖ confidence) ⊗ prior
  ]

module _ {F : Type 0} ⦃fl : Floats F⦄ (trunc : F → ℤ) where
  unfoldable pub bucket_of : EventType → ℕ → ℤ
  bucket_of t size =
      let width = max_ℤ (sub_ℕ (payload_high t) (payload_low t)) (pos 1) in
      let fraction = fl.int (sub_ℕ size (payload_low t)) ⊘ fl.int width in
      max_ℤ (pos 0) (min_ℤ (pos 3) (trunc (fraction ⊗ fl.int (pos buckets_per_type))))

  unfoldable pub observe : F → CostModel F → EventType → ℕ → F → CostModel F
  unfolding observe_value same_type
  observe alpha m t size cost = record m {
    estimates = λ t' b'.
        if same_type t' t && eq_ℤ b' (bucket_of t size)
        then observe_value alpha (m.estimates t (bucket_of t size)) cost
        else m.estimates t' b';
  }

  unfoldable pub estimate : CostModel F → EventType → ℕ → F
  unfolding blend
  estimate m t size = blend (m.config.tiers t).cost (m.estimates t (bucket_of t size))

-- ===== src/Servers.antt =====
-- src/triage/servers_config.py: what each server may serve, and how large it is. `math.ceil` is a
-- parameter. An `assert` that fails is an error of its own.
pub mod Parse
pub mod Coverage
pub mod Capacity
use vh26_crackers.Base.{
  ℕ, Bool, true, false, not, ◌&&◌, ◌||◌, le_ℤ, ℤ, pos, List, [], ◌∷◌, String, Option, none, some,
  Floats, ◌≤?◌, ◌⊗◌, ◌⊘◌, ◌⊕◌, of_int, str_eq, if◌then◌else◌,
}
use vh26_crackers.Contracts.{Tier}
use vh26_crackers.Config.{same_tier}

pub data Scaling : Type 0 where
  fixed hpa : Scaling

pub data Failure : Type 0 where
  value_error key_error assertion_error : Failure
  unknown_scaling capacity_missing capacity_not_applicable pods_out_of_order : Failure
  server1_autoscales tiers_uncovered tiers_overlap : Failure

pub data Result {ℓ} (A : Type ℓ) : Type ℓ where
  ok : A → Result A
  raised : Failure → Result A

infixl 5 ◌>>=◌ ◌>>◌
abbrev pub ◌>>=◌ {ℓ κ} : {A : Type ℓ} {B : Type κ} → Result A → (A → Result B) → Result B
ok a >>= f = f a
raised e >>= f = raised e

abbrev pub ◌>>◌ {ℓ} : {B : Type ℓ} → Result (Unit {0}) → Result B → Result B
m >> k = m >>= λ _. k

-- `if not b: raise e`
abbrev pub require : Bool → Failure → Result (Unit {0})
require true e = ok tt
require false e = raised e

-- `assert x is not None`
abbrev pub asserted {ℓ} : {A : Type ℓ} → Option A → Result A
asserted none = raised assertion_error
asserted (some a) = ok a

pub record ServerSpec (F : Type 0) : Type 0 where
  pub name : String
  pub port : ℤ
  pub tiers : List Tier
  pub batching : Bool
  pub scaling : Scaling
  pub capacity_us : Option F
  pub capacity_us_per_pod : Option F
  pub min_pods : ℤ
  pub max_pods : ℤ

pub record ServersConfig (F : Type 0) : Type 0 where
  pub server1 : ServerSpec F
  pub server2 : ServerSpec F

abbrev pub is_fixed : Scaling → Bool
is_fixed fixed = true
is_fixed hpa = false

-- `tier in tiers`
unfoldable pub has_tier : Tier → List Tier → Bool
unfolding same_tier
has_tier t [] = false
has_tier t (x ∷ xs) = same_tier x t || has_tier t xs

unfoldable pub max_one : ℤ → ℤ
max_one n = if le_ℤ n (pos 1) then pos 1 else n

module _ {F : Type 0} where
  unfoldable pub server_for_tier : ServersConfig F → Tier → Result (ServerSpec F)
  unfolding has_tier
  server_for_tier c t =
      if has_tier t c.server1.tiers
      then ok c.server1
      else if has_tier t c.server2.tiers
      then ok c.server2
      else raised key_error

  unfoldable pub server : ServersConfig F → String → Result (ServerSpec F)
  server c name =
      if str_eq name "server1"
      then ok c.server1
      else if str_eq name "server2"
      then ok c.server2
      else raised key_error

module _ {F : Type 0} ⦃fl : Floats F⦄ where
  -- the count of workers, and the rate of each
  unfoldable pub derive_workers : (F → ℤ) → F → F → Result (ℤ × F)
  unfolding max_one
  derive_workers ceil capacity_ups reference_ups =
      if capacity_ups ≤? of_int 0
      then raised value_error
      else if reference_ups ≤? of_int 0
      then raised value_error
      else let count = max_one (ceil (capacity_ups ⊘ reference_ups)) in
        ok (count, capacity_ups ⊘ fl.int count)

  unfoldable pub pods_capacity : ServerSpec F → Option ℤ → Result F
  pods_capacity s none = raised value_error
  pods_capacity s (some n) = do
    require (le_ℤ s.min_pods n && le_ℤ n s.max_pods) value_error
    per_pod ← asserted s.capacity_us_per_pod
    ok (per_pod ⊗ fl.int n)

  unfoldable pub capacity_at : ServerSpec F → Option ℤ → Result F
  unfolding pods_capacity
  capacity_at s pod_count =
      if is_fixed s.scaling then asserted s.capacity_us else pods_capacity s pod_count

  unfoldable pub max_capacity_ups : ServerSpec F → Result F
  max_capacity_ups s =
      if is_fixed s.scaling
      then asserted s.capacity_us
      else do per_pod ← asserted s.capacity_us_per_pod; ok (per_pod ⊗ fl.int s.max_pods)

  unfoldable pub workers : (F → ℤ) → ServerSpec F → F → Result (ℤ × F)
  unfolding derive_workers
  workers ceil s reference_ups = do
    base ← asserted (if is_fixed s.scaling then s.capacity_us else s.capacity_us_per_pod)
    derive_workers ceil base reference_ups

  unfoldable pub total_capacity_at_max : ServersConfig F → Result F
  unfolding max_capacity_ups
  total_capacity_at_max c = do
    first ← max_capacity_ups c.server1
    second ← max_capacity_ups c.server2
    ok (first ⊕ second)

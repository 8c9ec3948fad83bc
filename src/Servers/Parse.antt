-- ===== src/Servers/Parse.antt =====
-- src/triage/servers_config.py: _parse_server and _parse, on the rows that PyYAML read. A row has
-- the keys that the parser reads without a default.
use vh26_crackers.Base.{
  Bool, true, false, not, ◌&&◌, ◌||◌, le_ℤ, ℤ, pos, List, [], ◌∷◌, String, Option, none, some,
  str_eq, if◌then◌else◌,
}
use vh26_crackers.Contracts.{Tier, p0, p1, p2}
use vh26_crackers.Servers.{
  Scaling, fixed, hpa, value_error, unknown_scaling, capacity_missing, capacity_not_applicable,
  pods_out_of_order, server1_autoscales, tiers_uncovered, tiers_overlap, Result, ok, raised, ◌>>=◌,
  ◌>>◌, require, ServerSpec, ServersConfig, is_fixed, has_tier,
}

pub record Row (F : Type 0) : Type 0 where
  pub scaling : String
  pub tiers : List String
  pub port : ℤ
  pub batching : Bool
  pub capacity_us : Option F
  pub capacity_us_per_pod : Option F
  pub min_pods : Option ℤ
  pub max_pods : Option ℤ

-- `Tier(t)`
unfoldable pub tier_of : String → Result Tier
tier_of t =
    if str_eq t "P0"
    then ok p0
    else if str_eq t "P1"
    then ok p1
    else if str_eq t "P2"
    then ok p2
    else raised value_error

unfoldable pub tiers_of : List String → Result (List Tier)
unfolding tier_of
tiers_of [] = ok []
tiers_of (t ∷ ts) = do tier ← tier_of t; rest ← tiers_of ts; ok (tier ∷ rest)

unfoldable pub scaling_of : String → Result Scaling
scaling_of s =
    if str_eq s "fixed" then ok fixed else if str_eq s "hpa" then ok hpa else raised unknown_scaling

abbrev pub is_given {ℓ} : {A : Type ℓ} → Option A → Bool
is_given none = false
is_given (some a) = true

-- `row.get(key, 1)`
abbrev pub or_one : Option ℤ → ℤ
or_one none = pos 1
or_one (some n) = n

abbrev pub every_tier : (Tier → Bool) → Bool
every_tier f = f p0 && (f p1 && f p2)

module _ {F : Type 0} where
  -- the capacity that goes with the scaling is given, and the other one is not
  unfoldable pub capacity_checked : Scaling → Row F → Result (Unit {0})
  capacity_checked fixed row = do
    require (is_given row.capacity_us) capacity_missing
    require (not (is_given row.capacity_us_per_pod)) capacity_not_applicable
  capacity_checked hpa row = do
    require (is_given row.capacity_us_per_pod) capacity_missing
    require (not (is_given row.capacity_us)) capacity_not_applicable

  abbrev pub spec_of : String → Row F → Scaling → List Tier → ServerSpec F
  spec_of name row scaling tiers = record {
    name = name;
    port = row.port;
    tiers = tiers;
    batching = row.batching;
    scaling = scaling;
    capacity_us = row.capacity_us;
    capacity_us_per_pod = row.capacity_us_per_pod;
    min_pods = or_one row.min_pods;
    max_pods = or_one row.max_pods;
  }

  -- only a server that scales has its pods checked
  abbrev pub pods_in_order : Scaling → Row F → Bool
  pods_in_order scaling row = is_fixed scaling || le_ℤ (or_one row.min_pods) (or_one row.max_pods)

  unfoldable pub parse_server : String → Row F → Result (ServerSpec F)
  unfolding scaling_of tiers_of capacity_checked
  parse_server name row = do
    scaling ← scaling_of row.scaling
    tiers ← tiers_of row.tiers
    capacity_checked scaling row
    require (pods_in_order scaling row) pods_out_of_order
    ok (spec_of name row scaling tiers)

  -- the checks on the two servers together
  unfoldable pub checked : ServerSpec F → ServerSpec F → Result (ServersConfig F)
  unfolding has_tier
  checked server1 server2 = do
    require (is_fixed server1.scaling) server1_autoscales
    require (every_tier (λ t. has_tier t server1.tiers || has_tier t server2.tiers)) tiers_uncovered
    require (every_tier (λ t. not (has_tier t server1.tiers && has_tier t server2.tiers)))
        tiers_overlap
    ok (record { server1 = server1; server2 = server2 })

  unfoldable pub parse : Row F → Row F → Result (ServersConfig F)
  unfolding parse_server checked
  parse row1 row2 = do
    server1 ← parse_server "server1" row1
    server2 ← parse_server "server2" row2
    checked server1 server2

-- ===== src/Servers/Coverage.antt =====
-- A configuration that parses gives each tier to exactly one server.
use vh26_crackers.Base.{
  ◌≡◌, refl, subst, Bool, true, false, not, ◌&&◌, ◌||◌, arith, Bool-cases, inl, inr, if◌then◌else◌,
}
use vh26_crackers.Contracts.{Tier, p0, p1, p2}
use vh26_crackers.Servers.{
  Result, ok, raised, Failure, ◌>>=◌, require, ServerSpec, ServersConfig, is_fixed, has_tier,
  server_for_tier,
}
use vh26_crackers.Servers.Parse.{Row, every_tier, parse_server, checked, parse}

-- a chain of actions that succeeds: its first action does, and the rest on what that gave
pub >>=-ok {ℓ κ} :
    {A : Type ℓ} {B : Type κ} (m : Result A) (f : A → Result B) (b : B)
    → (m >>= f) ≡ ok b
    → (a : A) × (m ≡ ok a) × (f a ≡ ok b)
>>=-ok (ok a) f b h = (a, refl, h)
>>=-ok (raised e) f b h = cc

pub require-ok : (b : Bool) (e : Failure) (u : Unit) → require b e ≡ ok u → b ≡ true
require-ok true e u h = refl
require-ok false e u h = cc

pub ok_injective {ℓ} : {A : Type ℓ} {a b : A} → ok a ≡ ok b → a ≡ b
ok_injective h = cc

every_tier_lem : (f : Tier → Bool) (t : Tier) → every_tier f ≡ true → f t ≡ true
every_tier_lem f p0 h = ground (arith, h)
every_tier_lem f p1 h = ground (arith, h)
every_tier_lem f p2 h = ground (arith, h)

module _ {F : Type 0} where
  -- what the checks on the two servers establish
  pub record IsConfig (c : ServersConfig F) : Type 0 where
    pub server1_fixed : is_fixed c.server1.scaling ≡ true
    pub one_server : (t : Tier) → has_tier t c.server1.tiers ≡ not (has_tier t c.server2.tiers)

  config_of : ServerSpec F → ServerSpec F → ServersConfig F
  config_of a b = record { server1 = a; server2 = b }

  -- the checks hold of the two servers that a configuration is made of
  record Passed (a b : ServerSpec F) (c : ServersConfig F) : Type 0 where
    fixed : is_fixed a.scaling ≡ true
    covered : every_tier (λ t. has_tier t a.tiers || has_tier t b.tiers) ≡ true
    apart : every_tier (λ t. not (has_tier t a.tiers && has_tier t b.tiers)) ≡ true
    made : config_of a b ≡ c

  checked-Passed : (a b : ServerSpec F) (c : ServersConfig F) → checked a b ≡ ok c → Passed a b c
  unfolding checked config_of
  checked-Passed a b c h =
      let (u, fixed, h1) = >>=-ok (require (is_fixed a.scaling) _) _ c h in
      let (v, covered, h2) = >>=-ok (require _ _) _ c h1 in
      let (w, apart, h3) = >>=-ok (require _ _) _ c h2 in
      record {
        fixed = require-ok _ _ u fixed;
        covered = require-ok _ _ v covered;
        apart = require-ok _ _ w apart;
        made = ok_injective h3;
      }

  Passed-IsConfig : (a b : ServerSpec F) (c : ServersConfig F) → Passed a b c → IsConfig c
  unfolding config_of
  Passed-IsConfig a b c p =
      let own : IsConfig (config_of a b) = record {
        server1_fixed = p.fixed;
        one_server = λ t. ground (
          arith,
          every_tier_lem (λ t. has_tier t a.tiers || has_tier t b.tiers) t p.covered,
          every_tier_lem (λ t. not (has_tier t a.tiers && has_tier t b.tiers)) t p.apart,
        );
      } in
      subst IsConfig p.made own

  parse-IsConfig : (r1 r2 : Row F) (c : ServersConfig F) → parse r1 r2 ≡ ok c → IsConfig c
  unfolding parse
  parse-IsConfig r1 r2 c h =
      let (a, first, h1) = >>=-ok (parse_server "server1" r1) _ c h in
      let (b, second, h2) = >>=-ok (parse_server "server2" r2) _ c h1 in
      Passed-IsConfig a b c (checked-Passed a b c h2)

  -- In a configuration that parses, server1 is fixed, and each tier is listed by exactly one of
  -- the two servers, which is the one that server_for_tier gives.
  pub parse_lem :
      (r1 r2 : Row F) (c : ServersConfig F) (t : Tier)
      → parse r1 r2 ≡ ok c
      → (is_fixed c.server1.scaling ≡ true)
        × (has_tier t c.server1.tiers ≡ not (has_tier t c.server2.tiers))
        × (server_for_tier c t ≡ ok (if has_tier t c.server2.tiers then c.server2 else c.server1))
  unfolding server_for_tier
  parse_lem r1 r2 c t h =
      let valid = parse-IsConfig r1 r2 c h in
      (
        valid.server1_fixed,
        valid.one_server t,
        elim (Bool-cases (has_tier t c.server2.tiers)) [
          | inl there ↦ rw (there, valid.one_server t, there) refl
          | inr elsewhere ↦ rw (elsewhere, valid.one_server t, elsewhere) refl
        ],
      )

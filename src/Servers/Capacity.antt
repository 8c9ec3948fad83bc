-- ===== src/Servers/Capacity.antt =====
-- The capacities of a server whose row parsed: no assertion fails, and none is above the maximum.
use vh26_crackers.Base.{
  ◌≡◌, refl, subst, true, false, ◌&&◌, ◌||◌, le_ℤ, ℤ, Option, none, some, arith, Bool-cases, inl,
  inr, if◌then◌else◌, Floats, IsFloat, ◌≼◌, ◌⊗◌, of_int, String,
}
use vh26_crackers.Servers.{
  Scaling, fixed, hpa, ok, pods_out_of_order, require, ServerSpec, is_fixed, pods_capacity,
  capacity_at, max_capacity_ups,
}
use vh26_crackers.Servers.Parse.{
  Row, is_given, spec_of, pods_in_order, capacity_checked, scaling_of, tiers_of, parse_server,
}
use vh26_crackers.Servers.Coverage.{>>=-ok, require-ok, ok_injective}

module _ {F : Type 0} where
  -- the capacity that goes with the scaling is there, and the pods are in order
  pub record IsSized (s : ServerSpec F) : Type 0 where
    pub given :
        is_given (if is_fixed s.scaling then s.capacity_us else s.capacity_us_per_pod) ≡ true
    pub pods : (is_fixed s.scaling || le_ℤ s.min_pods s.max_pods) ≡ true

  capacity_checked-given :
      (scaling : Scaling) (row : Row F) (u : Unit)
      → capacity_checked scaling row ≡ ok u
      → is_given (if is_fixed scaling then row.capacity_us else row.capacity_us_per_pod) ≡ true
  unfolding capacity_checked
  capacity_checked-given fixed row u h =
      let (v, given, h1) = >>=-ok (require _ _) _ u h in require-ok _ _ v given
  capacity_checked-given hpa row u h =
      let (v, given, h1) = >>=-ok (require _ _) _ u h in require-ok _ _ v given

  parse_server-IsSized :
      (name : String) (row : Row F) (s : ServerSpec F) → parse_server name row ≡ ok s → IsSized s
  unfolding parse_server
  parse_server-IsSized name row s h =
      let (scaling, h_scaling, h1) = >>=-ok (scaling_of row.scaling) _ s h in
      let (tiers, h_tiers, h2) = >>=-ok (tiers_of row.tiers) _ s h1 in
      let (u, given, h3) = >>=-ok (capacity_checked scaling row) _ s h2 in
      let (v, pods, h4) = >>=-ok (require (pods_in_order scaling row) pods_out_of_order) _ s h3 in
      let own : IsSized (spec_of name row scaling tiers) = record {
        given = capacity_checked-given scaling row u given;
        pods = require-ok _ pods_out_of_order v pods;
      } in
      subst IsSized (ok_injective h4) own

module _ {F : Type 0} ⦃fl : Floats F⦄ where
  abbrev pub Positive : Option F → Type 0
  Positive none = Unit
  Positive (some c) = of_int 0 ≼ c

  -- what the two capacities are, and their order
  abbrev pub Bounded : ServerSpec F → ℤ → Type 0
  Bounded s n =
      (most : F) × (now : F) × (max_capacity_ups s ≡ ok most)
      × (capacity_at s (some n) ≡ ok now)
      × (now ≼ most)

module _ {F : Type 0} ⦃fl : Floats F⦄ ⦃ops : IsFloat F⦄ where
  scaled_capacity :
      (o : Option F) (s : ServerSpec F) (n : ℤ)
      → s.capacity_us_per_pod ≡ o
      → is_given o ≡ true
      → is_fixed s.scaling ≡ false
      → Positive o
      → (le_ℤ s.min_pods n && le_ℤ n s.max_pods) ≡ true
      → Bounded s n
  unfolding max_capacity_ups capacity_at pods_capacity
  scaled_capacity none s n e given scales positive range = cc
  scaled_capacity (some c) s n e given scales positive range =
      let within : le_ℤ n s.max_pods ≡ true = ground (arith, range) in
      rw (scales, e, range)
        (
          c ⊗ fl.int s.max_pods,
          c ⊗ fl.int n,
          refl,
          refl,
          ops.mul_mono c (fl.int n) (fl.int s.max_pods) positive (ops.int_mono n s.max_pods within),
        )

  fixed_capacity :
      (o : Option F) (s : ServerSpec F) (n : ℤ)
      → s.capacity_us ≡ o
      → is_given o ≡ true
      → is_fixed s.scaling ≡ true
      → Bounded s n
  unfolding max_capacity_ups capacity_at
  fixed_capacity none s n e given stays = cc
  fixed_capacity (some c) s n e given stays = rw (stays, e) (c, c, refl, refl, ops.le_refl c)

  -- A server whose row parsed has a maximal capacity, without a failed assertion; and at every
  -- count of pods within its range, where a pod's capacity is not negative, its capacity is
  -- known and at most the maximal one.
  pub capacity_at_bounds :
      (name : String) (row : Row F) (s : ServerSpec F) (n : ℤ)
      → parse_server name row ≡ ok s
      → Positive s.capacity_us_per_pod
      → (le_ℤ s.min_pods n && le_ℤ n s.max_pods) ≡ true
      → Bounded s n
  capacity_at_bounds name row s n h positive range =
      let sized = parse_server-IsSized name row s h in
      elim (Bool-cases (is_fixed s.scaling)) [
        | inl stays ↦
            fixed_capacity s.capacity_us s n refl
              (subst (λ b. is_given (if b then s.capacity_us else s.capacity_us_per_pod) ≡ true)
                stays sized.given)
              stays
        | inr scales ↦
            scaled_capacity s.capacity_us_per_pod s n refl
              (subst (λ b. is_given (if b then s.capacity_us else s.capacity_us_per_pod) ≡ true)
                scales sized.given)
              scales positive range
      ]

-- ===== src/Admission/Critical.antt =====
-- Any sequence of admission requests: the protected tier is never gated, the others stay bounded.
use vh26_crackers.Base.{
  ◌≡◌, refl, ◌∙◌, Bool, true, false, not, ◌&&◌, List, [], ◌∷◌, Floats, IsFloat, ◌≼◌, of_int, arith,
  All,
}
use vh26_crackers.Contracts.{EventType, Tier, p0, p1, p2, is_p0}
use vh26_crackers.Admission.{
  AdmissionControl, CreditBucket, tier_of, cost_of, update_aimd, try_acquire_bucket, try_acquire,
  acquire_for,
}
use vh26_crackers.Admission.Bounds.{InBounds, update_aimd-InBounds, try_acquire_bucket-InBounds}

-- One call of `try_acquire`: the type of the event, and the pressure and the clock that it reads.
pub record Request (F : Type 0) : Type 0 where
  pub type : EventType
  pub pressure : F
  pub now : F

-- the answer is not a refusal of a P0 event
abbrev pub NoRefusedP0 : Tier × Bool → Type 0
NoRefusedP0 (t, granted) = (is_p0 t && not granted) ≡ false

module _ {F : Type 0} ⦃fl : Floats F⦄ where
  -- the control after the requests, and each request's tier with its answer
  unfoldable pub serve_all :
      AdmissionControl F → List (Request F) → AdmissionControl F × List (Tier × Bool)
  serve_all a [] = (a, [])
  serve_all a (r ∷ rs) =
      let (a', granted) = try_acquire a r.type r.pressure r.now in
      let (last, answers) = serve_all a' rs in (last, (tier_of a r.type, granted) ∷ answers)

  -- The critical bucket is marked so, the two others are within their bounds, and no event has a
  -- negative cost.
  pub record Guarded (a : AdmissionControl F) : Type 0 where
    pub critical : a.p0_bucket.critical ≡ true
    pub p1_bounds : InBounds a.p1_bucket
    pub p2_bounds : InBounds a.p2_bucket
    pub costs : (t : EventType) → of_int 0 ≼ (a.config.tiers t).cost

  critical_idle :
      (b : CreditBucket F) (cost pressure now : F)
      → b.critical ≡ true
      → try_acquire_bucket (update_aimd b pressure now) cost now ≡ (b, true)
  unfolding update_aimd try_acquire_bucket
  critical_idle b cost pressure now h = ground arith

module _ {F : Type 0} ⦃fl : Floats F⦄ ⦃ops : IsFloat F⦄ where
  acquire_for-Guarded :
      (a : AdmissionControl F) (t : Tier) (cost pressure now : F)
      → of_int 0 ≼ cost
      → Guarded a
      → Guarded (acquire_for a t cost pressure now).0
        × ((acquire_for a t cost pressure now).0.p0_bucket ≡ a.p0_bucket)
        × NoRefusedP0 (t, (acquire_for a t cost pressure now).1)
  unfolding acquire_for
  acquire_for-Guarded a p0 cost pressure now c g =
      rw (critical_idle a.p0_bucket cost pressure now g.critical) (
        record {
          critical = g.critical;
          p1_bounds = g.p1_bounds;
          p2_bounds = g.p2_bounds;
          costs = g.costs;
        },
        refl,
        refl,
      )
  acquire_for-Guarded a p1 cost pressure now c g = (
    record {
      critical = g.critical;
      p1_bounds =
          try_acquire_bucket-InBounds _ cost now c
            (update_aimd-InBounds a.p1_bucket pressure now g.p1_bounds);
      p2_bounds = g.p2_bounds;
      costs = g.costs;
    },
    refl,
    refl,
  )
  acquire_for-Guarded a p2 cost pressure now c g = (
    record {
      critical = g.critical;
      p1_bounds = g.p1_bounds;
      p2_bounds =
          try_acquire_bucket-InBounds _ cost now c
            (update_aimd-InBounds a.p2_bucket pressure now g.p2_bounds);
      costs = g.costs;
    },
    refl,
    refl,
  )

  -- Over any sequence of admission requests on a control whose P0 bucket is critical, whose
  -- other buckets are within their bounds and whose costs are not negative: no P0 request is
  -- refused, the P0 bucket is unchanged, and the other buckets stay within their bounds.
  pub serve_all-Guarded :
      (a : AdmissionControl F) (rs : List (Request F))
      → Guarded a
      → Guarded (serve_all a rs).0
        × ((serve_all a rs).0.p0_bucket ≡ a.p0_bucket)
        × All NoRefusedP0 (serve_all a rs).1
  unfolding serve_all try_acquire
  serve_all-Guarded a [] g = (g, refl, tt)
  serve_all-Guarded a (r ∷ rs) g =
      let (g', same, granted) =
        acquire_for-Guarded a (tier_of a r.type) (cost_of a r.type) r.pressure r.now
          (g.costs r.type) g in
      let (last, kept, rest) = serve_all-Guarded (try_acquire a r.type r.pressure r.now).0 rs g' in
      (last, kept ∙ same, (granted, rest))

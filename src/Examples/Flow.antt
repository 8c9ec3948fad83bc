-- ===== src/Examples/Flow.antt =====
-- Examples for src/triage/admission.py, codel.py and config.py.
use vh26_crackers.Base.{
  ℤ, pos, ◌≡◌, refl, true, false, none, some, List, [], ◌∷◌, All, ◌≺◌, ◌≼◌, of_int, fmin,
}
use vh26_crackers.Base.Scaled.{scaled, scaled-IsFloat}
use vh26_crackers.Contracts.{EventType, payment, order, inventory, click, log, p0, p1, p2}
use vh26_crackers.Admission.{AdmissionControl, CreditBucket}
use vh26_crackers.Admission.Bounds.{InBounds}
use vh26_crackers.Admission.Critical.{Request, NoRefusedP0, serve_all, Guarded, serve_all-Guarded}
use vh26_crackers.Codel.{CoDelController, update, interval_over}
use vh26_crackers.Codel.Sampling.{Tracks, update_enters}
use vh26_crackers.Examples.Data.{whole, settings}

abbrev bulk : CreditBucket ℤ
bulk = record {
  tier = p2;
  rate_ups = whole 100;
  capacity_units = whole 100;
  max_rate_ups = whole 600;
  critical = false;
  credits = whole 40;
  denied_count = 0;
  last_refill = none;
  last_increase_check = none;
  last_decrease_check = none;
}

bulk-InBounds : InBounds bulk
bulk-InBounds = record {
  rate_floor = refl;
  rate_ceiling = refl;
  capacity_floor = refl;
  capacity_ceiling = refl;
  credits_floor = refl;
  credits_ceiling = refl;
}

abbrev pub control : AdmissionControl ℤ
control = record {
  config = settings;
  p0_bucket = record bulk { tier = p0; critical = true };
  p1_bucket = record bulk { tier = p1 };
  p2_bucket = bulk;
}

stock-InBounds : InBounds control.p1_bucket
stock-InBounds = record {
  rate_floor = refl;
  rate_ceiling = refl;
  capacity_floor = refl;
  capacity_ceiling = refl;
  credits_floor = refl;
  credits_ceiling = refl;
}

control_costs : (t : EventType) → of_int 0 ≼ (settings.tiers t).cost
control_costs payment = refl
control_costs order = refl
control_costs inventory = refl
control_costs click = refl
control_costs log = refl

abbrev requests : List (Request ℤ)
requests =
    record { type = click; pressure = pos 900000; now = whole 10 }
    ∷ record { type = payment; pressure = pos 900000; now = whole 10 }
    ∷ []

serve_all-Guarded_example :
    Guarded (serve_all control requests).0
    × ((serve_all control requests).0.p0_bucket ≡ control.p0_bucket)
    × All NoRefusedP0 (serve_all control requests).1
serve_all-Guarded_example = serve_all-Guarded control requests (record {
  critical = refl;
  p1_bounds = stock-InBounds;
  p2_bounds = bulk-InBounds;
  costs = control_costs;
})

abbrev controller : CoDelController ℤ
controller = record {
  interval_seconds = pos 100000;
  target_seconds = pos 50000;
  interval_start = some (whole 1);
  interval_min = pos 80000;
  sampling = false;
}

abbrev seen_so_far : List ℤ
seen_so_far = pos 90000 ∷ pos 80000 ∷ []

controller-Tracks : Tracks controller seen_so_far
controller-Tracks = record { lower = (refl, (refl, tt)); idle = λ e. cc }

update_enters_example :
    (interval_over controller (whole 2) ≡ true) × All (λ s. pos 50000 ≺ s) (pos 60000 ∷ seen_so_far)
unfolding update fmin
update_enters_example =
    update_enters controller seen_so_far (pos 60000) (whole 2) controller-Tracks refl refl

abbrev sampling_now : CoDelController ℤ
sampling_now = record controller { sampling = true }

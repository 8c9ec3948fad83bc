-- ===== src/Examples/Serving.antt =====
-- Examples for src/triage/servers_config.py, server2.py, and the percentile of metrics.py.
use vh26_crackers.Base.{
  fmax, ℕ, ◌/◌, ◌≤◌, ◌≼◌, of_int, ℤ, pos, negsuc, ◌≡◌, refl, true, false, not, none, some, [], ◌∷◌,
  if◌then◌else◌, ◌==◌, ◌&&◌, List, length, arith,
}
use vh26_crackers.Base.Scaled.{scaled, scaled-IsFloat}
use vh26_crackers.Contracts.{click, p0, p1, p2}
use vh26_crackers.Config.{same_tier}
use vh26_crackers.Codel
use vh26_crackers.Ladder.Reservoir.{ReservoirSampler}
use vh26_crackers.Metrics.Rate.{init_ewma}
use vh26_crackers.Metrics.Percentile.{IsTrunc}
use vh26_crackers.Servers.{ServersConfig, fixed, hpa, ok, is_fixed, has_tier, server_for_tier}
use vh26_crackers.Servers.Parse.{
  Row, parse, parse_server, checked, scaling_of, tiers_of, tier_of, capacity_checked, spec_of,
}
use vh26_crackers.Servers.Coverage.{parse_lem}
use vh26_crackers.Servers.Capacity.{Bounded, capacity_at_bounds}
use vh26_crackers.Server2.{Reading, P1P2Queue, try_get}
use vh26_crackers.Server2.State.{ServerState, Env}
use vh26_crackers.Server2.Handling.{turn}
use vh26_crackers.Server2.Turns.{Settled, turn-Settled}
use vh26_crackers.Server2.Endpoints.{drain_result, timeout, turns, killed_serving}
use vh26_crackers.Decision.{headroom_available, slack, est_service_time}
use vh26_crackers.Server2.Draining.{killed_never_drains}
use vh26_crackers.Server1
use vh26_crackers.Classifier
use vh26_crackers.Classifier.{Raw, classify_all}
use vh26_crackers.Server1.Deadlines.{HandsOut, put_all-HandsOut}
use vh26_crackers.Server1.Serving.{Move, starting, killing, run, run_drains}
use vh26_crackers.Examples.Data.{whole, settings, a_payment, a_stock, a_click}
use vh26_crackers.Examples.Selecting.{selection, equal_events-IsEquality}

-- the rows of config/servers.yaml, in their form
abbrev first_row : Row ℤ
first_row = record {
  scaling = "fixed";
  tiers = "P0" ∷ [];
  port = pos 8001;
  batching = false;
  capacity_us = some (whole 250);
  capacity_us_per_pod = none;
  min_pods = none;
  max_pods = none;
}

abbrev second_row : Row ℤ
second_row = record {
  scaling = "hpa";
  tiers = "P1" ∷ "P2" ∷ [];
  port = pos 8002;
  batching = true;
  capacity_us = none;
  capacity_us_per_pod = some (whole 100);
  min_pods = some (pos 1);
  max_pods = some (pos 4);
}

abbrev two_servers : ServersConfig ℤ
two_servers = record {
  server1 = spec_of "server1" first_row fixed (p0 ∷ []);
  server2 = spec_of "server2" second_row hpa (p1 ∷ p2 ∷ []);
}

parse_lem_example :
    (is_fixed two_servers.server1.scaling ≡ true)
    × (has_tier p1 two_servers.server1.tiers ≡ not (has_tier p1 two_servers.server2.tiers))
    × (server_for_tier two_servers p1
        ≡ ok (
            if has_tier p1 two_servers.server2.tiers
            then two_servers.server2
            else two_servers.server1))
unfolding parse parse_server checked scaling_of tiers_of tier_of capacity_checked has_tier same_tier
parse_lem_example = parse_lem first_row second_row two_servers p1 refl

capacity_at_bounds_example : Bounded two_servers.server2 (pos 3)
unfolding parse_server scaling_of tiers_of tier_of capacity_checked
capacity_at_bounds_example =
    capacity_at_bounds "server2" second_row two_servers.server2 (pos 3) refl refl refl

abbrev whole_part : ℤ → ℕ
whole_part (pos n) = n / 1000000
whole_part (negsuc n) = 0

whole_part-below : (x : ℤ) → of_int 0 ≼ x → of_int (whole_part x) ≼ x
whole_part-below (pos n) h = ground arith
whole_part-below (negsuc n) h = ground (arith, h)

whole_part_at_most : (x : ℤ) (n : ℕ) → x ≼ of_int n → whole_part x ≤ n
whole_part_at_most (pos m) n h = ground (arith, h)
whole_part_at_most (negsuc m) n h = omega arith

whole_part-IsTrunc : IsTrunc whole_part
whole_part-IsTrunc = record { below = whole_part-below; at_most = whole_part_at_most }

abbrev reading : Reading ℤ
reading = record { weights = selection.weights; equal = selection.equal }

abbrev env : Env ℤ
env = record {
  selection = reading;
  weights = record { a = pos 350000; b = pos 250000; c = pos 250000; d = pos 150000 };
  half_power = λ x. pos 500000;
  trunc = whole_part;
}

abbrev no_reservoir : ReservoirSampler ℤ
no_reservoir = record {
  sample_n = 20;
  count = 0;
  window_start = none;
  seq_low = none;
  seq_high = none;
  last_window_end = none;
}

abbrev two_tiers : P1P2Queue ℤ
two_tiers = record {
  p1_queue = record { settled = a_stock ∷ []; pending = []; resort_ts = pos 0 };
  p2_queue = record { settled = []; pending = a_click ∷ []; resort_ts = pos 0 };
  capacity_units_per_sec = selection.capacity;
  aging_guard_seconds = whole 20;
}

abbrev serving : ServerState ℤ
serving = record {
  queue = two_tiers;
  worker_count = 4;
  per_worker_rate = whole 25;
  sla_reference = whole 5;
  processed_count = 0;
  batched_count = 0;
  in_flight = pos 0;
  draining = false;
  latency_ms = [];
  queue_wait_ms = [];
  arrival_ewma = init_ewma (whole 2);
  service_ewma = init_ewma (whole 2);
  codel = Codel.init (pos 100000) (pos 5000);
  click_reservoir = no_reservoir;
  log_reservoir = no_reservoir;
  deferred_count = 0;
  sampled_count = 0;
  shed_count = 0;
  shed_critical_count = 0;
  rollups_persisted_count = 0;
  true_click_count = 0;
  weighted_click_count = pos 0;
  workers_killed_count = 0;
  p1_rung = 0;
  p2_rung = 0;
  pressure_cache = pos 0;
  pressure_cache_ts = whole 110;
}

abbrev ticking : ℕ → ℤ
ticking n = whole 110

turn-Settled_example : Settled serving (turn env ticking serving (whole 110))
turn-Settled_example = turn-Settled env ticking serving (whole 110) equal_events-IsEquality

-- a queue of one settled event, which a worker takes and is killed with
abbrev one_stock : ServerState ℤ
one_stock = record serving {
  queue = record {
    p1_queue = record { settled = a_stock ∷ []; pending = []; resort_ts = pos 0 };
    p2_queue = record { settled = []; pending = []; resort_ts = pos 0 };
    capacity_units_per_sec = selection.capacity;
    aging_guard_seconds = whole 20;
  };
}

abbrev emptied : P1P2Queue ℤ
emptied = record {
  p1_queue = record { settled = []; pending = []; resort_ts = pos 0 };
  p2_queue = record { settled = []; pending = []; resort_ts = pos 0 };
  capacity_units_per_sec = selection.capacity;
  aging_guard_seconds = whole 20;
}

killed_never_drains_example :
    drain_result
      (turns env ticking
        (killed_serving env ticking one_stock a_stock emptied (whole 110))
        (whole 111 ∷ [])).0
    ≡ timeout
unfolding try_get turns killed_serving slack est_service_time fmax
killed_never_drains_example =
    killed_never_drains env ticking one_stock a_stock emptied (whole 110) (whole 111 ∷ [])
      (headroom_available (pos 0)) equal_events-IsEquality refl refl refl refl

put_all-HandsOut_example :
    HandsOut
      (a_payment ∷ a_click ∷ a_stock ∷ [])
      (Server1.get (Server1.put_all (a_stock ∷ []) (a_payment ∷ a_click ∷ [])))
put_all-HandsOut_example = put_all-HandsOut (a_stock ∷ []) (a_payment ∷ a_click ∷ []) (tt, tt)

abbrev first_server : Server1.ServerState ℤ
first_server = record {
  queue = a_payment ∷ [];
  worker_count = 10;
  per_worker_rate = whole 25;
  processed_count = 0;
  in_flight = pos 0;
  draining = false;
  latency_ms = [];
  queue_wait_ms = [];
  workers_killed_count = 0;
}

-- a worker takes the event and is killed
abbrev a_kill : List (Move ℤ)
a_kill = starting (whole 101) ∷ killing ∷ []

run_drains_example : Server1.drain_result (run a_kill first_server 0).0 ≡ (
    if length (run a_kill first_server 0).0.queue == 0 && (run a_kill first_server 0).1 == 0
    then Server1.drained
    else Server1.timeout)
run_drains_example = run_drains a_kill first_server refl

abbrev pub a_submission : Raw ℤ
a_submission = record {
  event_id = "e1";
  dedup_key = "d1";
  partition_key = "k";
  type = click;
  payload_size = 200;
  ingest_ts = none;
}

abbrev pub a_classifier : Classifier.Classifier ℤ
a_classifier = record { config = settings; seq = 0 }

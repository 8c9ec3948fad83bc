-- ===== src/Examples/Working.antt =====
-- Examples for src/triage/worker.py and for the naive mode of src/triage/queue.py.
use mathlib.Core.List.Perm
use mathlib.Core.List.{Nodup-cons, Nodup-nil, not-mem-nil, eq-or-mem_of_mem-cons}
use mathlib.Core.Logic.Or
use mathlib.Core.HLevel.{⊥_prop}
use vh26_crackers.Base.{
  ℤ, pos, ◌≡◌, refl, Perm, Nodup, Mem, false, none, some, List, [], ◌∷◌, ◌++◌, map, String, str_eq,
  eq_iff, arith, ◌<◌,
}
use vh26_crackers.Base.Scaled.{scaled, scaled-IsFloat}
use vh26_crackers.Contracts.{adaptive}
use vh26_crackers.Checkpoint.{recover_worker, rows_of}
use vh26_crackers.Checkpoint.Workers.{event_ids}
use vh26_crackers.Queue.{EventQueue, tier_events, qsize}
use vh26_crackers.Queue.Taking.{all_events}
use vh26_crackers.Queue.Naive.{take_naive, HandsOutFirst, take_naive-HandsOutFirst}
use vh26_crackers.Metrics.{check_conservation}
use vh26_crackers.Metrics.Conservation.{Conserved}
use vh26_crackers.Worker.Pool.{Pool, Setup, Stage, serving, serving_extra, dropped, begun, unbegun}
use vh26_crackers.Worker.Handling.{killed, advance, gather}
use vh26_crackers.Worker.Running.{World, Action, arrive, wake, kill, drain, run}
use vh26_crackers.Worker.Crew.{begun_all, loose_all}
use vh26_crackers.Worker.Placing.{Placed, arrivals, run-Placed}
use vh26_crackers.Worker.Fuel.{gather_enough}
use vh26_crackers.Worker.Losing.{killed_lem, killed_loses_batch, failed_write_counts_twice}
use vh26_crackers.Examples.Data.{whole, settings, a_payment, a_stock, a_click}
use vh26_crackers.Examples.Counting.{fresh_metrics, zero_counters, half}
use vh26_crackers.Examples.Selecting.{equal_events, equal_events-IsEquality, waiting}

take_naive-HandsOutFirst_example : HandsOutFirst waiting (take_naive equal_events waiting)
take_naive-HandsOutFirst_example = take_naive-HandsOutFirst equal_events waiting

-- the sink keeps the ids that were written to it
abbrev pub setup : Setup ℤ (List String)
setup = record {
  config = settings;
  score_weights = record { w1 = pos 700000; w2 = pos 300000 };
  pressure_weights = record { a = pos 250000; b = pos 250000; c = pos 250000; d = pos 250000 };
  half_power = half;
  trunc = λ x. 0;
  trunc_ℤ = λ x. pos 0;
  alpha = pos 100000;
  equal = equal_events;
  sink_write = λ rows e. some (e.event_id ∷ rows);
}

abbrev broken_setup : Setup ℤ (List String)
broken_setup = record setup { sink_write = λ rows e. none }

abbrev empty_queue : EventQueue ℤ
empty_queue = record {
  p0_queue = record { settled = []; pending = []; resort_ts = pos 0 };
  p1_queue = record { settled = []; pending = []; resort_ts = pos 0 };
  p2_queue = record { settled = []; pending = []; resort_ts = pos 0 };
  mode = adaptive;
  aging_guard_seconds = whole 2;
  unfinished = 2;
}

-- two events were taken; the payment is being served, and the click waits in a batch
abbrev pub pool : Pool ℤ (List String)
pool = record {
  queue = empty_queue;
  metrics = record fresh_metrics {
    counters = record zero_counters { ingested = 2; in_flight = 2 };
  };
  checkpoint = record {
    rows =
        record {
          event = a_payment;
          idempotency_key = "pay";
          worker_id = pos 0;
          started_ts = whole 101;
        }
        ∷ [];
  };
  cost_model = none;
  buffer = record {
    rows = [];
    pending = pos 0;
    total_deferred = 0;
    total_drained = 0;
    drain_timestamps = [];
    already_deferred = [];
  };
  click_reservoir = record {
    sample_n = 20;
    count = 0;
    window_start = none;
    seq_low = none;
    seq_high = none;
    last_window_end = none;
  };
  log_reservoir = record {
    sample_n = 20;
    count = 0;
    window_start = none;
    seq_low = none;
    seq_high = none;
    last_window_end = none;
  };
  rollups = record { rows = []; rollup_seq = 0 };
  ledger = [];
  sink = [];
  served_count = 0;
  batched_count = 0;
  deferred_count = 0;
  sampled_count = 0;
  shed_count = 0;
  recovered_count = 0;
  gone = [];
}

abbrev busy : Stage ℤ
busy = serving_extra (a_click ∷ []) (whole 0) a_payment

abbrev pub world : World ℤ (List String)
world = record { pool = pool; workers = busy ∷ Stage.waiting ∷ [] }

abbrev actions : List (Action ℤ)
actions =
    arrive a_stock (whole 102)
    ∷ kill 0 (whole 102)
    ∷ wake 1 (λ n. whole 103) (whole 103)
    ∷ wake 1 (λ n. whole 104) (whole 104)
    ∷ drain (whole 105)
    ∷ []

world-Placed : Placed world (a_click ∷ a_payment ∷ [])
unfolding rows_of begun_all loose_all tier_events
world-Placed = record {
  tracked = (Perm.refl (a_payment ∷ []), (Perm.refl [], tt));
  rows = Perm.refl (a_payment ∷ []);
  kept = Perm.refl (a_click ∷ a_payment ∷ []);
  buffer = record { named = tt; distinct = Nodup-nil };
}

not_among : (k j : String) (ks : List String) → str_eq k j ≡ false → ¬ Mem k ks → ¬ Mem k (j ∷ ks)
not_among k j ks h rest =
    λ m. Or.elim ⊥_prop (eq-or-mem_of_mem-cons m) (λ e. cc (h, (eq_iff k j).1 e)) rest

three_ids : Nodup (event_ids (a_stock ∷ a_click ∷ a_payment ∷ []))
three_ids = Nodup-cons.1 (
  not_among "stock" "click" ("pay" ∷ []) refl (not_among "stock" "pay" [] refl not-mem-nil),
  Nodup-cons.1 (not_among "click" "pay" [] refl not-mem-nil, Nodup-cons.1 (not-mem-nil, Nodup-nil)),
)

run-Placed_example : Placed (run setup world actions) (arrivals actions ++ a_click ∷ a_payment ∷ [])
unfolding arrivals
run-Placed_example =
    run-Placed setup actions world (a_click ∷ a_payment ∷ []) equal_events-IsEquality three_ids
      world-Placed

own_row : (recover_worker pool.checkpoint (pos 0)).1 ≡ a_payment ∷ []
unfolding recover_worker rows_of
own_row = refl

own_rows : Perm (recover_worker pool.checkpoint (pos 0)).1 (a_payment ∷ [])
unfolding recover_worker rows_of
own_rows = Perm.refl (a_payment ∷ [])

killed_lem_example :
    Perm
      (all_events (killed pool (pos 0) busy (whole 102)).0.queue)
      (begun busy ++ all_events pool.queue)
    × ((killed pool (pos 0) busy (whole 102)).0.gone ≡ map dropped (unbegun busy) ++ pool.gone)
    × ((killed pool (pos 0) busy (whole 102)).0.buffer ≡ pool.buffer)
killed_lem_example = killed_lem pool (pos 0) busy (whole 102) own_rows

two_in_flight : Conserved pool.metrics.counters 0 2 0
two_in_flight = record { queue = refl; flight = refl; balance = refl }

killed_loses_batch_example :
    let p = (killed pool (pos 0) busy (whole 102)).0 in
    Perm (all_events p.queue) (a_payment ∷ all_events pool.queue)
    × (p.gone ≡ dropped a_click ∷ [])
    × (p.metrics.counters.in_flight ≡ 1)
    × (check_conservation p.metrics (pos 0) ≡ p.metrics)
killed_loses_batch_example =
    killed_loses_batch pool (pos 0) (a_click ∷ []) (whole 0) a_payment (whole 102) 0 0 0
      two_in_flight own_row

failed_write_counts_twice_example :
    let p =
      (advance broken_setup (λ n. whole 102) (pos 0) pool (serving a_payment) (whole 102)).0 in
    (p.metrics.counters.processed ≡ 1)
    × (p.sink ≡ [])
    × Perm (all_events p.queue) (a_payment ∷ all_events pool.queue)
    × (p.metrics.counters.in_flight ≡ 0)
    × (check_conservation p.metrics (pos 0) ≡ p.metrics)
failed_write_counts_twice_example =
    failed_write_counts_twice broken_setup (λ n. whole 102) pool (pos 0) a_payment (whole 102) 0 0 0
      two_in_flight own_row refl

three_wait : qsize waiting < 4
unfolding qsize tier_events
three_wait = omega arith

three_wait_below : qsize waiting < 9
unfolding qsize tier_events
three_wait_below = omega arith

gather_enough_example :
    gather setup
      (λ n. whole 110)
      (pos 1)
      4
      (whole 0)
      (record pool { queue = waiting })
      (a_click ∷ [])
    ≡ gather setup
        (λ n. whole 110)
        (pos 1)
        9
        (whole 0)
        (record pool { queue = waiting })
        (a_click ∷ [])
gather_enough_example =
    gather_enough setup (λ n. whole 110) (pos 1) 4 9 (whole 0) (record pool { queue = waiting })
      (a_click ∷ []) equal_events-IsEquality three_wait three_wait_below

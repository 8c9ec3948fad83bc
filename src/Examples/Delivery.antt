-- ===== src/Examples/Delivery.antt =====
-- Examples for src/triage/sink.py and transport.py.
use vh26_crackers.Base.{
  ℕ, ◌+◌, ℤ, ◌≡◌, arith, ◌⊎◌, refl, true, false, not, none, some, List, [], ◌∷◌, str_eq,
  if◌then◌else◌, ◌==◌,
}
use vh26_crackers.Base.Scaled.{scaled, scaled-IsFloat}
use vh26_crackers.Contracts.{Event, click}
use vh26_crackers.Dedup.{member}
use vh26_crackers.Ladder.Reservoir.{Rollup, ReservoirSampler, add, start_of}
use vh26_crackers.Sink.{Json, event, read, write, count, attempts}
use vh26_crackers.Sink.Upsert.{Unique, read-write}
use vh26_crackers.Sink.Deliveries.{deliver, latest, times, distinct, deliver_lem}
use vh26_crackers.Sink.Rollups.{
  written, integrity_error, passes_checks, next_key, write_rollup, rollup_count, reopen,
}
use vh26_crackers.Sink.Rollups.Keys.{new_sink, reopen_refuses}
use vh26_crackers.Sink.Rollups.Window.{Storable, add-Storable}
use vh26_crackers.Sink.Outcomes.{Filters, OutcomeRow, outcome_of}
use vh26_crackers.Transport.{Transport, Wire, events_acked, dispatch_stats, init}
use vh26_crackers.Transport.Sweep.{dispatch, run, Call, dispatching, acking, sweeping}
use vh26_crackers.Transport.Held.{held}
use vh26_crackers.Transport.Resending.{run-Kept}
use vh26_crackers.Transport.Identity.{Balanced, dispatch_again}
use vh26_crackers.Transport.Batcher.{Turn, submit, got, timed_out, dispatch_ended, cancelled, turns}
use vh26_crackers.Transport.Flushing.{Holds}
use vh26_crackers.Transport.Batches.{submitted, new_batcher, batcher-Holds}
use vh26_crackers.Examples.Data.{whole, a_payment, a_click}

-- the texts of two events, and what they encode
abbrev two_texts : Json ℤ
two_texts = record {
  dump = λ e. e.event_id;
  validate = λ text. if str_eq text "pay" then some a_payment else some a_click;
}

abbrev deliveries : List (Event ℤ × ℤ)
deliveries = (a_click, whole 103) ∷ (a_payment, whole 102) ∷ (a_click, whole 101) ∷ []

read-write_example :
    read two_texts (write two_texts (deliver two_texts deliveries) a_payment (whole 104)).0 "click"
    ≡ (if str_eq "pay" "click"
        then event a_payment
        else read two_texts (deliver two_texts deliveries) "click")
read-write_example =
    read-write two_texts (deliver two_texts deliveries) a_payment (whole 104) "click" refl

deliver_lem_example :
    Unique (deliver two_texts deliveries)
    × (read two_texts (deliver two_texts deliveries) "click" ≡ latest "click" deliveries)
    × (attempts (deliver two_texts deliveries) "click" ≡ times "click" deliveries)
    × (count (deliver two_texts deliveries) ≡ distinct deliveries)
deliver_lem_example = deliver_lem two_texts deliveries "click" (refl, (refl, (refl, tt)))

abbrev a_window : ℕ → ℕ → Rollup ℤ
a_window start end_ = record {
  event_type = click;
  window_start = whole start;
  window_end = whole end_;
  sample_weight = whole 20;
  observed_count = 1;
  subtype_counts = (click, 1) ∷ [];
  seq_low = 1;
  seq_high = 9;
}

-- the second window starts after the first one ends
reopen_refuses_example :
    let first = write_rollup new_sink (a_window 5 7) (whole 8) in
    (first.1 ≡ written (next_key new_sink (a_window 5 7)))
    × ((write_rollup (reopen first.0) (a_window 7 9) (whole 10)).1 ≡ integrity_error)
    × (rollup_count (write_rollup (reopen first.0) (a_window 7 9) (whole 10)).0 ≡ 1)
unfolding passes_checks
reopen_refuses_example = reopen_refuses (a_window 5 7) (a_window 7 9) (whole 8) (whole 10) refl refl

abbrev a_reservoir : ReservoirSampler ℤ
a_reservoir = record {
  sample_n = 2;
  count = 1;
  window_start = some (whole 5);
  seq_low = some 1;
  seq_high = some 1;
  last_window_end = none;
}

add-Storable_example : Storable (add a_reservoir a_click (whole 9)).1
unfolding start_of
add-Storable_example =
    add-Storable a_reservoir a_click (whole 9) (1 ∷ [])
      (record {
        counted = refl;
        room = omega arith;
        low = (omega arith, tt);
        high = (omega arith, tt);
      })
      refl

abbrev any_p0 : Filters
any_p0 = record { tier = none; met = none; source = some "server1" }

abbrev two_outcomes : List (OutcomeRow ℤ)
two_outcomes =
    outcome_of a_payment true (whole 3) "server1" (whole 9) 1
    ∷ outcome_of a_click false (whole 70) "server2" (whole 9) 2
    ∷ []

-- the first delivery fails, and an ack arrives while the third is awaited
abbrev a_wire : Wire ℤ
a_wire = record {
  clock = λ n. whole 100;
  delivers = λ n. not (n == 1);
  meanwhile = λ n. if n == 3 then events_acked ("pay" ∷ []) (whole 150) ∷ [] else [];
}

abbrev a_transport : Transport ℤ
a_transport =
    run a_wire (init (whole 1000))
      (dispatching "server2" (a_click ∷ []) ∷ acking 1 ("click" ∷ []) (whole 101) ∷ [])

abbrev some_calls : List (Call ℤ)
some_calls =
    dispatching "server2" (a_click ∷ [])
    ∷ dispatching "server1" (a_payment ∷ [])
    ∷ sweeping (whole 2000)
    ∷ []

run-Kept_example :
    (member "click" (run a_wire (init (whole 1000)) some_calls).resolved ≡ true)
    ⊎ (held "click" (run a_wire (init (whole 1000)) some_calls).outstanding ≡ true)
unfolding member run dispatch
run-Kept_example = run-Kept a_wire (whole 1000) some_calls "click" refl

dispatch_again_example :
    let again = (dispatch a_wire a_transport "server2" (a_click ∷ [])).0 in
    let after = dispatch_stats again in
    (after.dispatched ≡ (dispatch_stats a_transport).dispatched)
    × (after.resolved ≡ (dispatch_stats a_transport).resolved)
    × (after.outstanding ≡ (dispatch_stats a_transport).outstanding + 1)
    × (¬ (Balanced again))
unfolding dispatch_stats run
dispatch_again_example = dispatch_again a_wire a_transport "server2" a_click refl refl refl refl

-- batches of two; the task is cancelled while the second batch is being delivered, and one event
-- is still queued
abbrev some_turns : List (Turn ℤ)
some_turns =
    submit a_click
    ∷ submit a_payment
    ∷ got (whole 1)
    ∷ got (whole 2)
    ∷ dispatch_ended
    ∷ submit a_click
    ∷ got (whole 3)
    ∷ timed_out
    ∷ submit a_payment
    ∷ cancelled
    ∷ []

batcher-Holds_example : Holds 2 (submitted some_turns) (turns (new_batcher 2 (whole 1)) some_turns)
batcher-Holds_example = batcher-Holds 2 (whole 1) some_turns (omega arith)

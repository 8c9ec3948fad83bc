-- ===== src/Examples/Stores.antt =====
-- Examples for src/triage/dedup.py, checkpoint.py and deferral.py.
use mathlib.Core.HLevel.{⊥_prop}
use mathlib.Core.List.Pairwise
use mathlib.Core.List.{Nodup-cons, not-mem-nil, eq-or-mem_of_mem-cons}
use mathlib.Core.Logic.Or
use vh26_crackers.Base.{
  ℤ, pos, ◌≡◌, refl, false, none, List, [], ◌∷◌, ◌++◌, map, String, Perm, length, ◌≤◌, str_eq,
  if◌then◌else◌, Nodup, arith,
}
use vh26_crackers.Base.Scaled.{scaled, scaled-IsFloat}
use vh26_crackers.Contracts.{is_p0}
use vh26_crackers.Dedup.{Hashes, BloomFilter, Deduplicator, evict, member}
use vh26_crackers.Dedup.Check.{Tracks, check_all, ideal_answers, check_all-ideal}
use vh26_crackers.Checkpoint.{CheckpointStore, recover_worker, has_row}
use vh26_crackers.Checkpoint.ExactlyOnce.{Unique, Recovers, recover_worker-Recovers}
use vh26_crackers.Deferral.{
  DeferralStore, local, defer, known, has_event, pop_ready_batch, new_row, upsert, next_id,
}
use vh26_crackers.Deferral.Delete.{ids}
use vh26_crackers.Deferral.Batch.{pop_ready_batch-perm, length-batch-le}
use vh26_crackers.Deferral.Backlog.{Counted, defer-Counted, defer_drifts}
use vh26_crackers.Examples.Data.{whole, a_payment, a_stock, a_click}

abbrev pub two_hashes : Hashes
two_hashes = record { h1 = λ k. if str_eq k "a" then 3 else 5; h2 = λ k. 1 }

abbrev empty_filter : BloomFilter
empty_filter = record { num_bits = 64; num_hashes = 2; bits = λ i j. false }

abbrev pub deduplicator : Deduplicator
deduplicator = record { bloom = empty_filter; exact = []; capacity = 2 }

abbrev deliveries : List String
deliveries = "a" ∷ "b" ∷ "a" ∷ "c" ∷ "b" ∷ []

pub fresh-Tracks : Tracks two_hashes deduplicator []
unfolding evict member
fresh-Tracks = record { window = refl; distinct = tt; filtered = λ j h. cc h }

check_all-ideal_example :
    (check_all two_hashes deduplicator deliveries).1 ≡ ideal_answers 2 [] deliveries
check_all-ideal_example = check_all-ideal two_hashes deduplicator [] deliveries fresh-Tracks

abbrev in_flight : CheckpointStore ℤ
in_flight = record {
  rows =
      record {
        event = a_payment;
        idempotency_key = "pay";
        worker_id = pos 0;
        started_ts = whole 100;
      }
      ∷ record {
        event = a_stock;
        idempotency_key = "stock";
        worker_id = pos 1;
        started_ts = whole 100;
      }
      ∷ [];
}

in_flight-Unique : Unique in_flight.rows
unfolding has_row
in_flight-Unique = (refl, (refl, tt))

recover_worker-Recovers_example : Recovers in_flight (pos 1) (recover_worker in_flight (pos 1))
recover_worker-Recovers_example = recover_worker-Recovers in_flight (pos 1)

buffer : DeferralStore ℤ String
unfolding new_row
buffer = record {
  rows =
      new_row 1 a_stock "slack" (whole 101) local
      ∷ new_row 2 a_click "pressure" (whole 100) local
      ∷ [];
  pending = pos 2;
  total_deferred = 2;
  total_drained = 0;
  drain_timestamps = [];
  already_deferred = "click" ∷ "stock" ∷ [];
}

buffer_ids : Nodup (ids buffer.rows)
unfolding buffer
buffer_ids = Nodup-cons.1 (
  λ m. Or.elim ⊥_prop (eq-or-mem_of_mem-cons m) (λ e. omega arith) not-mem-nil,
  Nodup-cons.1 (not-mem-nil, Pairwise.nil),
)

pop_ready_batch-perm_example :
    Perm
      ((pop_ready_batch buffer 1 none).1
        ++ map (λ r. r.event) (pop_ready_batch buffer 1 none).0.rows)
      (map (λ r. r.event) buffer.rows)
pop_ready_batch-perm_example = pop_ready_batch-perm buffer 1 none buffer_ids

length-batch-le_example : length (pop_ready_batch buffer 1 none).1 ≤ 1
length-batch-le_example = length-batch-le buffer 1 none

-- the store after the two events were popped, and after the click comes back
abbrev drained : DeferralStore ℤ String
drained = record buffer { rows = []; pending = pos 0 }

abbrev redeferred : DeferralStore ℤ String
redeferred = record drained {
  rows = new_row 1 a_click "pressure" (whole 103) local ∷ [];
  total_deferred = 3;
}

defer_drifts_example : (redeferred.pending ≡ pos 0) × (length redeferred.rows ≡ 1)
unfolding defer known has_event upsert next_id buffer
defer_drifts_example =
    defer_drifts drained redeferred a_click "pressure" (whole 103) local refl refl refl refl

abbrev empty_store : DeferralStore ℤ String
empty_store = record drained { already_deferred = []; total_deferred = 0 }

abbrev first_parked : DeferralStore ℤ String
first_parked = record empty_store {
  rows = new_row 1 a_click "pressure" (whole 103) local ∷ [];
  pending = pos 1;
  total_deferred = 1;
  already_deferred = "click" ∷ [];
}

defer-Counted_example : (is_p0 a_click.tier ≡ false) × Counted first_parked
unfolding defer known has_event upsert next_id buffer
defer-Counted_example =
    defer-Counted empty_store first_parked a_click "pressure" (whole 103) local refl refl refl

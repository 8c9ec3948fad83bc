-- ===== src/Examples/Audit.antt =====
-- Examples for src/triage/ledger.py.
use vh26_crackers.Base.{
  ℕ, ℤ, pos, ◌≡◌, refl, true, false, List, [], ◌∷◌, String, length, if◌then◌else◌, ◌==◌,
}
use vh26_crackers.Base.Scaled.{scaled, scaled-IsFloat}
use vh26_crackers.Contracts.{p0, p1, p2, Decision}
use vh26_crackers.Ledger.{Row, Printing, verify_chain, verify_from, init, recomputed}
use vh26_crackers.Ledger.{ok as chain_ok}
use vh26_crackers.Ledger.Chain.{Entry, record_all, record_all-verify}
use vh26_crackers.Ledger.Tampering.{edit_lem}
use vh26_crackers.Examples.Data.{whole}

-- a digest of the first field, which is the id, and one of nothing
abbrev first_field : List String → String
first_field [] = ""
first_field (x ∷ xs) = x

abbrev by_first_field : Printing ℤ (List String)
by_first_field = record {
  digits = λ n. if n == 1 then "1" else "2";
  fixed6 = λ x. "0.000000";
  round4 = λ x. x;
  joined = λ xs. xs;
  hexdigest = first_field;
}

abbrev constant_digest : Printing ℤ (List String)
constant_digest = record by_first_field { hexdigest = λ xs. "h" }

abbrev entries : List (Entry ℤ)
entries =
    record {
      stored = true;
      seq = 1;
      decision = Decision.shed;
      reason = "r";
      pressure = pos 960000;
      tier = p2;
      now = whole 1;
    }
    ∷ record {
      stored = false;
      seq = 2;
      decision = Decision.defer;
      reason = "s";
      pressure = pos 800000;
      tier = p1;
      now = whole 2;
    }
    ∷ record {
      stored = true;
      seq = 3;
      decision = Decision.stream_now;
      reason = "t";
      pressure = pos 1;
      tier = p0;
      now = whole 3;
    }
    ∷ []

record_all-verify_example :
    (verify_chain by_first_field (record_all by_first_field (init []) entries) ≡ chain_ok)
    × ((record_all by_first_field (init []) entries).total_recorded
        ≡ length (record_all by_first_field (init []) entries).table)
record_all-verify_example = record_all-verify by_first_field entries

abbrev entry : ℕ → ℕ → String → String → Row ℤ
entry id seq prev hash = record {
  ledger_id = id;
  recorded_ts = whole 1;
  seq = seq;
  decision = Decision.shed;
  reason = "r";
  pressure = pos 960000;
  tier = p2;
  prev_hash = prev;
  row_hash = hash;
}

edit_lem_example :
    recomputed by_first_field (entry 1 7 "0" "1") ≡ recomputed by_first_field (entry 1 8 "0" "1")
unfolding verify_from recomputed
edit_lem_example =
    edit_lem by_first_field "0" [] (entry 1 7 "0" "1") (entry 1 8 "0" "1") (entry 2 9 "1" "2") []
      refl refl

-- ===== src/Sink/Deliveries.antt =====
-- The table of delivered events against what it promises of any history of deliveries.
use vh26_crackers.Base.{
  ℕ, ◌+◌, ◌≡◌, refl, ap, List, [], ◌∷◌, map, String, All, str_eq, Bool-cases, inl, inr,
  if◌then◌else◌,
}
use vh26_crackers.Contracts.{Event}
use vh26_crackers.Dedup.{member}
use vh26_crackers.Sink.{
  Row, Json, Reading, event, new_row, write, find, read_row, read, count, attempts, attempts_of,
}
use vh26_crackers.Sink.Upsert.{
  Unique, Survives, is_absent, find-upsert, upsert-Unique, length-upsert, read-write,
  attempts-write,
}

module _ {F : Type 0} where
  -- Deliveries, the latest first, each with the time of its commit; and the table that they leave.
  abbrev pub deliver : Json F → List (Event F × F) → List (Row F)
  deliver json [] = []
  deliver json (d ∷ ds) = (write json (deliver json ds) d.0 d.1).0

  -- What the table promises: the latest event of a key, how often the key came, and how many keys
  -- there are.
  abbrev pub latest : String → List (Event F × F) → Reading F
  latest k [] = Reading.absent
  latest k (d ∷ ds) = if str_eq d.0.idempotency_key k then event d.0 else latest k ds

  abbrev pub times : String → List (Event F × F) → ℕ
  times k [] = 0
  times k (d ∷ ds) = times k ds + (if str_eq d.0.idempotency_key k then 1 else 0)

  abbrev pub distinct : List (Event F × F) → ℕ
  distinct [] = 0
  distinct (d ∷ ds) =
      distinct ds
      + (if member d.0.idempotency_key (map (λ x. x.0.idempotency_key) ds) then 0 else 1)

  is_absent-deliver :
      (json : Json F) (ds : List (Event F × F)) (k : String)
      → is_absent (find k (deliver json ds))
        ≡ (if member k (map (λ x. x.0.idempotency_key) ds) then 0 else 1)
  unfolding write find new_row member
  is_absent-deliver json [] k = refl
  is_absent-deliver json (d ∷ ds) k =
      rw (find-upsert (new_row json d.0 d.1) k (deliver json ds))
        (elim (Bool-cases (str_eq d.0.idempotency_key k)) [
          | inl own ↦ rw own refl
          | inr other ↦ rw other (is_absent-deliver json ds k)
        ])

  -- Where the events survive their JSON text, the table that any deliveries leave has one row
  -- for each key, reads as the latest event of a key, counts how often each key was delivered,
  -- and has as many rows as there were different keys.
  pub deliver_lem :
      (json : Json F) (ds : List (Event F × F)) (k : String)
      → All (λ d. Survives json d.0) ds
      → Unique (deliver json ds)
        × (read json (deliver json ds) k ≡ latest k ds)
        × (attempts (deliver json ds) k ≡ times k ds)
        × (count (deliver json ds) ≡ distinct ds)
  unfolding write new_row read attempts count find read_row attempts_of
  deliver_lem json [] k trips = (tt, refl, refl, refl)
  deliver_lem json (d ∷ ds) k trips =
      let before = deliver_lem json ds k trips.1 in
      (
        upsert-Unique (new_row json d.0 d.1) (deliver json ds) before.0,
        rw (read-write json (deliver json ds) d.0 d.1 k trips.0, before.1) refl,
        rw (attempts-write json (deliver json ds) d.0 d.1 k, before.2) refl,
        rw (length-upsert (new_row json d.0 d.1) (deliver json ds), before.3)
            (ap (◌+◌ (distinct ds)) (is_absent-deliver json ds d.0.idempotency_key)),
      )

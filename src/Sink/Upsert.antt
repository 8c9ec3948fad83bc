-- ===== src/Sink/Upsert.antt =====
-- The table of delivered events: one row for each key, the last payload, and the attempts counted.
use vh26_crackers.Base.{
  ℕ, ◌+◌, ◌≡◌, refl, false, List, [], ◌∷◌, String, Option, none, some, length, str_eq, eq_iff,
  arith, Bool-cases, inl, inr, if◌then◌else◌,
}
use vh26_crackers.Contracts.{Event}
use vh26_crackers.Sink.{
  Row, Json, event, new_row, overwrite, upsert, write, find, parsed, read_row, read, attempts,
  attempts_of,
}

module _ {F : Type 0} where
  -- the primary key
  abbrev pub Unique : List (Row F) → Type 0
  Unique [] = Unit
  Unique (r ∷ rs) = (find r.idempotency_key rs ≡ none) × Unique rs

  -- the row of the key after an upsert
  abbrev merged : Row F → Option (Row F) → Row F
  merged new none = new
  merged new (some old) = overwrite old new

  pub find-upsert :
      (new : Row F) (k : String) (rows : List (Row F))
      → find k (upsert new rows)
        ≡ (if str_eq new.idempotency_key k then some (merged new (find k rows)) else find k rows)
  unfolding find upsert overwrite
  find-upsert new k [] = refl
  find-upsert new k (r ∷ rs) = elim (Bool-cases (str_eq r.idempotency_key new.idempotency_key)) [
    | inl same ↦
        rw (same, (eq_iff r.idempotency_key new.idempotency_key).0 same)
          (elim (Bool-cases (str_eq new.idempotency_key k)) [
            | inl h ↦ rw h refl
            | inr h ↦ rw h refl
          ])
    | inr other ↦ rw other (
        ground (
          arith,
          find-upsert new k rs,
          eq_iff r.idempotency_key k,
          eq_iff new.idempotency_key k,
          eq_iff r.idempotency_key new.idempotency_key,
        ))
  ]

  find-upsert_absent :
      (new : Row F) (k : String) (rows : List (Row F))
      → find k rows ≡ none
      → str_eq new.idempotency_key k ≡ false
      → find k (upsert new rows) ≡ none
  find-upsert_absent new k rows h other = rw (find-upsert new k rows, other) h

  pub upsert-Unique : (new : Row F) (rows : List (Row F)) → Unique rows → Unique (upsert new rows)
  unfolding upsert find overwrite
  upsert-Unique new [] u = (refl, tt)
  upsert-Unique new (r ∷ rs) u = elim (Bool-cases (str_eq r.idempotency_key new.idempotency_key)) [
    | inl same ↦ rw (same, ← (eq_iff r.idempotency_key new.idempotency_key).0 same) u
    | inr other ↦ rw other (
      ground (
        arith,
        find-upsert_absent new r.idempotency_key rs u.0,
        eq_iff new.idempotency_key r.idempotency_key,
        eq_iff r.idempotency_key new.idempotency_key,
      ),
      upsert-Unique new rs u.1,
    )
  ]

  abbrev pub is_absent : Option (Row F) → ℕ
  is_absent none = 1
  is_absent (some r) = 0

  pub length-upsert :
      (new : Row F) (rows : List (Row F))
      → length (upsert new rows) ≡ length rows + is_absent (find new.idempotency_key rows)
  unfolding upsert find
  length-upsert new [] = refl
  length-upsert new (r ∷ rs) = elim (Bool-cases (str_eq r.idempotency_key new.idempotency_key)) [
    | inl same ↦ rw same (omega arith)
    | inr other ↦ rw other (omega (arith, length-upsert new rs))
  ]

  -- Pydantic reads the event back from the text that it writes for it.
  abbrev pub Survives : Json F → Event F → Type 0
  Survives json e = json.validate (json.dump e) ≡ some e

  read_row-merged :
      (json : Json F) (e : Event F) (t : F) (old : Option (Row F))
      → Survives json e
      → read_row json (some (merged (new_row json e t) old)) ≡ event e
  unfolding read_row parsed new_row overwrite
  read_row-merged json e t none trips = rw trips refl
  read_row-merged json e t (some r) trips = rw trips refl

  -- Where an event survives its JSON text, reading a key after the event was written gives that
  -- event if the key is its own, and otherwise what the table gave before.
  pub read-write :
      (json : Json F) (rows : List (Row F)) (e : Event F) (t : F) (k : String)
      → Survives json e
      → read json (write json rows e t).0 k
        ≡ (if str_eq e.idempotency_key k then event e else read json rows k)
  unfolding read write new_row
  read-write json rows e t k trips =
      rw (find-upsert (new_row json e t) k rows) (elim (Bool-cases (str_eq e.idempotency_key k)) [
        | inl own ↦ rw own (read_row-merged json e t (find k rows) trips)
        | inr other ↦ rw other refl
      ])

  attempts_of-merged :
      (json : Json F) (e : Event F) (t : F) (old : Option (Row F))
      → (merged (new_row json e t) old).attempt_count ≡ attempts_of old + 1
  unfolding attempts_of new_row overwrite
  attempts_of-merged json e t none = refl
  attempts_of-merged json e t (some r) = refl

  pub attempts-write :
      (json : Json F) (rows : List (Row F)) (e : Event F) (t : F) (k : String)
      → attempts (write json rows e t).0 k
        ≡ attempts rows k + (if str_eq e.idempotency_key k then 1 else 0)
  unfolding attempts attempts_of write new_row
  attempts-write json rows e t k =
      rw (find-upsert (new_row json e t) k rows) (elim (Bool-cases (str_eq e.idempotency_key k)) [
        | inl own ↦ rw own (attempts_of-merged json e t (find k rows))
        | inr other ↦ rw other (omega arith)
      ])

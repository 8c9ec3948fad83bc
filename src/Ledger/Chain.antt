-- ===== src/Ledger/Chain.antt =====
-- The chain that `record` writes.
use vh26_crackers.Base.{
  ℕ, ◌+◌, ◌<◌, ◌≡◌, refl, sym, ◌∙◌, Bool, not, List, [], ◌∷◌, ◌++◌, String, All, All-append, insert,
  length, length-append, arith, Bool-cases, inl, inr, ◌&&◌, eq_iff, All-map,
}
use vh26_crackers.Contracts.{Tier, Decision}
use vh26_crackers.Ledger.{
  Row, Printing, SqliteLedger, ok, genesis_hash, by_id, conflicts, init, recomputed, new_row,
  record_row, verify_from, verify_chain,
}

-- One call of `record`, with the answer of the disk.
pub record Entry (F : Type 0) : Type 0 where
  pub stored : Bool
  pub seq : ℕ
  pub decision : Decision
  pub reason : String
  pub pressure : F
  pub tier : Tier
  pub now : F

module _ {F : Type 0} where
  -- an insertion behind all keys is at the end
  insert-last :
      (r : Row F) (rs : List (Row F))
      → All (λ q. q.ledger_id < r.ledger_id) rs
      → insert by_id r rs ≡ rs ++ r ∷ []
  unfolding insert
  insert-last r [] h = refl
  insert-last r (q ∷ rs) (h, hs) = ground (arith, insert-last r rs hs)

  -- the hash that the next row has to carry
  abbrev pub last_from : String → List (Row F) → String
  last_from h [] = h
  last_from h (r ∷ rs) = last_from r.row_hash rs

  last_from-append :
      (h : String) (rs : List (Row F)) (r : Row F) → last_from h (rs ++ r ∷ []) ≡ r.row_hash
  last_from-append h [] r = refl
  last_from-append h (q ∷ rs) r = last_from-append q.row_hash rs r

module _ {F Bytes : Type 0} (py : Printing F Bytes) where
  pub verify_from-append :
      (h : String) (rs : List (Row F)) (r : Row F)
      → verify_from py h rs ≡ ok
      → r.prev_hash ≡ last_from h rs
      → recomputed py r ≡ r.row_hash
      → verify_from py h (rs ++ r ∷ []) ≡ ok
  unfolding verify_from
  verify_from-append h [] r v p q =
      ground (arith, eq_iff r.prev_hash h, eq_iff (recomputed py r) r.row_hash)
  verify_from-append h (q ∷ rs) r v p c = ground (arith, verify_from-append q.row_hash rs r)

  -- The state of a ledger that a process has written alone.
  abbrev pub Chained : SqliteLedger F → Type 0
  Chained l =
      (verify_chain py l ≡ ok)
      × (last_from genesis_hash l.table ≡ l.last_hash)
      × All (λ r. r.ledger_id < l.next_id) l.table
      × (l.total_recorded ≡ length l.table)

  -- the ids, the last hash and the chain, when the row is inserted behind the others
  appended-Chained :
      (l : SqliteLedger F) (r : Row F)
      → Chained l
      → r.ledger_id ≡ l.next_id
      → r.prev_hash ≡ l.last_hash
      → recomputed py r ≡ r.row_hash
      → Chained (record {
        table = insert by_id r l.table;
        last_hash = r.row_hash;
        next_id = l.next_id + 1;
        total_recorded = l.total_recorded + 1;
      })
  unfolding verify_chain
  appended-Chained l r (v, h, b, n) i p c =
      let e : insert by_id r l.table ≡ l.table ++ r ∷ [] = insert-last r l.table (
        All-map (λ q. q.ledger_id < l.next_id) (λ q. q.ledger_id < r.ledger_id) (λ q k. omega arith)
          l.table b) in
      rw e (
        verify_from-append genesis_hash l.table r v (p ∙ sym h) c,
        last_from-append genesis_hash l.table r,
        All-append (λ q. q.ledger_id < l.next_id + 1) l.table (r ∷ [])
            (All-map (λ q. q.ledger_id < l.next_id) (λ q. q.ledger_id < l.next_id + 1)
              (λ q k. omega arith) l.table b)
            (omega arith, tt),
        omega (arith, length-append l.table (r ∷ [])),
      )

  -- `record` keeps the chain, whether or not the row could be written.
  pub record_row-Chained :
      (stored : Bool) (l : SqliteLedger F) (seq : ℕ) (d : Decision) (reason : String) (p : F)
      (t : Tier) (now : F)
      → Chained l
      → Chained (record_row py stored l seq d reason p t now)
  unfolding record_row new_row recomputed
  record_row-Chained stored l seq d reason p t now k =
      let r = new_row py l seq d reason p t now in
      elim (Bool-cases (stored && not (conflicts r.ledger_id r.row_hash l.table))) [
        | inl h ↦ rw h (appended-Chained l r k refl refl refl)
        | inr h ↦ rw h k
      ]

  -- the calls of `record`, one after the other
  unfoldable pub record_all : SqliteLedger F → List (Entry F) → SqliteLedger F
  record_all l [] = l
  record_all l (e ∷ es) =
      record_all (record_row py e.stored l e.seq e.decision e.reason e.pressure e.tier e.now) es

  pub record_all-Chained :
      (l : SqliteLedger F) (es : List (Entry F)) → Chained l → Chained (record_all l es)
  unfolding record_all
  record_all-Chained l [] k = k
  record_all-Chained l (e ∷ es) k =
      record_all-Chained
        (record_row py e.stored l e.seq e.decision e.reason e.pressure e.tier e.now) es
        (record_row-Chained e.stored l e.seq e.decision e.reason e.pressure e.tier e.now k)

  -- After any calls of record on an empty table, whichever of them SQLite refuses, verify_chain
  -- accepts the table and total_recorded is its number of rows.
  pub record_all-verify :
      (es : List (Entry F))
      → (verify_chain py (record_all (init []) es) ≡ ok)
        × ((record_all (init []) es).total_recorded ≡ length (record_all (init []) es).table)
  unfolding init verify_chain verify_from
  record_all-verify es =
      let k : Chained (record_all (init []) es) =
        record_all-Chained (init []) es (refl, refl, tt, refl) in
      (k.0, k.3)

-- ===== src/Ledger/Tampering.antt =====
-- What `verify_chain` notices about a table that was changed behind the program's back.
use vh26_crackers.Base.{◌≡◌, sym, ◌∙◌, List, [], ◌∷◌, ◌++◌, String, eq_iff, arith}
use vh26_crackers.Ledger.{Row, Printing, ok, recomputed, verify_from}

module _ {F Bytes : Type 0} (py : Printing F Bytes) where
  -- an accepted table is accepted from each of its rows on
  verify_from-suffix :
      (h : String) (rs : List (Row F)) (r n : Row F) (ns : List (Row F))
      → verify_from py h (rs ++ r ∷ n ∷ ns) ≡ ok
      → (recomputed py r ≡ r.row_hash) × (n.prev_hash ≡ r.row_hash)
  unfolding verify_from
  verify_from-suffix h [] r n ns v =
      ground (arith, eq_iff (recomputed py r) r.row_hash, eq_iff n.prev_hash r.row_hash)
  verify_from-suffix h (q ∷ rs) r n ns v = ground (arith, verify_from-suffix q.row_hash rs r n ns)

  -- If a chain is accepted with a row that is not the last, and also with another row in its
  -- place, the recomputed SHA-256 digests of the two rows are equal.
  pub edit_lem :
      (h : String) (rs : List (Row F)) (r s n : Row F) (ns : List (Row F))
      → verify_from py h (rs ++ r ∷ n ∷ ns) ≡ ok
      → verify_from py h (rs ++ s ∷ n ∷ ns) ≡ ok
      → recomputed py r ≡ recomputed py s
  edit_lem h rs r s n ns v w =
      let p = verify_from-suffix h rs r n ns v in
      let q = verify_from-suffix h rs s n ns w in p.0 ∙ sym p.1 ∙ q.1 ∙ sym q.0

  -- the row that is behind a position names the hash before it
  prev_hash_of :
      (h : String) (rs : List (Row F)) (r s : Row F) (ns ms : List (Row F))
      → verify_from py h (rs ++ r ∷ ns) ≡ ok
      → verify_from py h (rs ++ s ∷ ms) ≡ ok
      → r.prev_hash ≡ s.prev_hash
  unfolding verify_from
  prev_hash_of h [] r s ns ms v w = ground (arith, eq_iff r.prev_hash h, eq_iff s.prev_hash h)
  prev_hash_of h (q ∷ rs) r s ns ms v w = ground (arith, prev_hash_of q.row_hash rs r s ns ms)

  -- If a chain is accepted with a row that is not the last, and also without it, the recomputed
  -- digest of that row equals the prev_hash stored in it.
  pub deletion_lem :
      (h : String) (rs : List (Row F)) (r n : Row F) (ns : List (Row F))
      → verify_from py h (rs ++ r ∷ n ∷ ns) ≡ ok
      → verify_from py h (rs ++ n ∷ ns) ≡ ok
      → recomputed py r ≡ r.prev_hash
  deletion_lem h rs r n ns v w =
      let p = verify_from-suffix h rs r n ns v in
      p.0 ∙ sym p.1 ∙ sym (prev_hash_of h rs r n (n ∷ ns) ns v w)

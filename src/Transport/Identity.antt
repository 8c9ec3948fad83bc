-- ===== src/Transport/Identity.antt =====
-- The counts of dispatch_stats, when an event that was resolved is dispatched a second time.
use vh26_crackers.Base.{
  ℕ, ◌+◌, ◌≡◌, refl, true, false, List, [], ◌∷◌, length, String, Floats, str_eq, has, put, arith,
}
use vh26_crackers.Contracts.{Event}
use vh26_crackers.Dedup.{member}
use vh26_crackers.Transport.{
  Transport, Wire, dispatch_stats, record_batch, set_add, set_update, index_all,
}
use vh26_crackers.Transport.Sweep.{dispatch, run_segments}

length-put_new :
    (k : String) (n : ℕ) (d : List (String × ℕ))
    → has str_eq k d ≡ false
    → length (put str_eq k n d) ≡ length d + 1
unfolding put has
length-put_new k n [] h = refl
length-put_new k n (x ∷ xs) h = ground (arith, h, length-put_new k n xs)

set_add_there : (k : String) (xs : List String) → member k xs ≡ true → set_add k xs ≡ xs
unfolding set_add
set_add_there k xs h = rw h refl

module _ {F : Type 0} ⦃fl : Floats F⦄ where
  -- what `dispatch_stats` promises to hold at all times
  abbrev pub Balanced : Transport F → Type 0
  Balanced s =
      (dispatch_stats s).dispatched ≡ (dispatch_stats s).resolved + (dispatch_stats s).outstanding

  -- Where the counts of dispatch_stats balance, dispatching one event that was dispatched before
  -- and is not outstanding raises the outstanding count alone, so that the counts no longer
  -- balance, if nothing else happens during its delivery.
  pub dispatch_again :
      (w : Wire F) (s : Transport F) (server : String) (e : Event F)
      → Balanced s
      → member e.event_id s.dispatched ≡ true
      → has str_eq e.event_id s.event_index ≡ false
      → w.meanwhile (s.next_id + 1) ≡ []
      → let after = dispatch_stats (dispatch w s server (e ∷ [])).0 in
        (after.dispatched ≡ (dispatch_stats s).dispatched)
        × (after.resolved ≡ (dispatch_stats s).resolved)
        × (after.outstanding ≡ (dispatch_stats s).outstanding + 1)
        × (¬ (Balanced (dispatch w s server (e ∷ [])).0))
  unfolding dispatch dispatch_stats record_batch set_update index_all run_segments
  dispatch_again w s server e even known gone quiet =
      let more = length-put_new e.event_id (s.next_id + 1) s.event_index gone in
      rw (quiet, set_add_there e.event_id s.dispatched known)
        (refl, refl, more, λ h. omega (arith, h, even, more))

-- ===== src/Transport/Held.antt =====
-- Which events the outstanding dispatches still hold, and how the steps on the table change that.
use vh26_crackers.Base.{
  ℕ, ◌+◌, ◌≤◌, ◌≡◌, refl, Bool, true, false, ◌||◌, ◌⊎◌, inl, inr, List, [], ◌∷◌, String, none, some,
  str_eq, eq_iff, ◌==◌, get, has, put, pop, has-put, values, arith, Bool-cases, All,
}
use vh26_crackers.Contracts.{Event}
use vh26_crackers.Dedup.{member}
use vh26_crackers.Dedup.Recent.{member-append}
use vh26_crackers.Transport.{DispatchRecord, set_add, set_update, by_event_id, event_ids}

module _ {F : Type 0} where
  -- an outstanding dispatch has the event
  abbrev pub held : String → List (ℕ × DispatchRecord F) → Bool
  held k [] = false
  held k (x ∷ xs) = has str_eq k x.1.events || held k xs

  pub held-put_self :
      (k : String) (n : ℕ) (r : DispatchRecord F) (out : List (ℕ × DispatchRecord F))
      → has str_eq k r.events ≡ true
      → held k (put ◌==◌ n r out) ≡ true
  unfolding put
  held-put_self k n r [] h = ground (arith, h)
  held-put_self k n r (x ∷ xs) h = ground (arith, h, held-put_self k n r xs h)

  -- a record that takes the place of another one
  pub held-put :
      (k : String) (n : ℕ) (old r : DispatchRecord F) (out : List (ℕ × DispatchRecord F))
      → get ◌==◌ n out ≡ some old
      → held k out ≡ true
      → (held k (put ◌==◌ n r out) ≡ true) ⊎ (has str_eq k old.events ≡ true)
  unfolding put get
  held-put k n old r [] found h = cc
  held-put k n old r (x ∷ xs) found h = ground (arith, h, found, held-put k n old r xs)

  pub held-put_new :
      (k : String) (n : ℕ) (r : DispatchRecord F) (out : List (ℕ × DispatchRecord F))
      → get ◌==◌ n out ≡ none
      → held k out ≡ true
      → held k (put ◌==◌ n r out) ≡ true
  unfolding put get
  held-put_new k n r [] fresh h = cc
  held-put_new k n r (x ∷ xs) fresh h = ground (arith, held-put_new k n r xs)

  pub held-pop :
      (k : String) (n : ℕ) (old : DispatchRecord F) (out : List (ℕ × DispatchRecord F))
      → get ◌==◌ n out ≡ some old
      → held k out ≡ true
      → (held k (pop ◌==◌ n out) ≡ true) ⊎ (has str_eq k old.events ≡ true)
  unfolding pop get
  held-pop k n old [] found h = cc
  held-pop k n old (x ∷ xs) found h = ground (arith, h, found, held-pop k n old xs)

  -- every id in the table was given out
  abbrev pub Issued : ℕ → List (ℕ × DispatchRecord F) → Type 0
  Issued n out = All (λ x. x.0 ≤ n) out

  pub put-Issued :
      (m n : ℕ) (r : DispatchRecord F) (out : List (ℕ × DispatchRecord F))
      → m ≤ n
      → Issued n out
      → Issued n (put ◌==◌ m r out)
  unfolding put
  put-Issued m n r [] le h = (le, tt)
  put-Issued m n r (x ∷ xs) le h = elim (Bool-cases (x.0 == m)) [
    | inl own ↦ rw own h
    | inr other ↦ rw other (h.0, put-Issued m n r xs le h.1)
  ]

  pub get_unissued :
      (m n : ℕ) (out : List (ℕ × DispatchRecord F))
      → Issued n out
      → n + 1 ≤ m
      → get ◌==◌ m out ≡ none
  unfolding get
  get_unissued m n [] h lt = refl
  get_unissued m n (x ∷ xs) h lt = ground (arith, h.0, get_unissued m n xs h.1 lt)

  pub get-Issued :
      (m n : ℕ) (r : DispatchRecord F) (out : List (ℕ × DispatchRecord F))
      → Issued n out
      → get ◌==◌ m out ≡ some r
      → m ≤ n
  unfolding get
  get-Issued m n r [] h found = cc
  get-Issued m n r (x ∷ xs) h found = ground (arith, h.0, found, get-Issued m n r xs h.1)

  -- each event stands under its own id
  abbrev pub Labelled : List (String × Event F) → Type 0
  Labelled d = All (λ x. x.0 ≡ x.1.event_id) d

  put-Labelled :
      (e : Event F) (d : List (String × Event F))
      → Labelled d
      → Labelled (put str_eq e.event_id e d)
  unfolding put
  put-Labelled e [] h = (refl, tt)
  put-Labelled e (x ∷ xs) h = elim (Bool-cases (str_eq x.0 e.event_id)) [
    | inl own ↦ rw own ((eq_iff x.0 e.event_id).0 own, h.1)
    | inr other ↦ rw other (h.0, put-Labelled e xs h.1)
  ]

  pub by_event_id-Labelled :
      (es : List (Event F)) (d : List (String × Event F)) → Labelled d → Labelled (by_event_id es d)
  unfolding by_event_id
  by_event_id-Labelled [] d h = h
  by_event_id-Labelled (e ∷ es) d h = by_event_id-Labelled es _ (put-Labelled e d h)

  pub member-values :
      (k : String) (d : List (String × Event F))
      → Labelled d
      → member k (event_ids (values d)) ≡ has str_eq k d
  unfolding member has
  member-values k [] h = refl
  member-values k (x ∷ xs) h = rw (h.0, member-values k xs h.1) refl

  pub has-by_event_id :
      (k : String) (es : List (Event F)) (d : List (String × Event F))
      → has str_eq k (by_event_id es d) ≡ (member k (event_ids es) || has str_eq k d)
  unfolding by_event_id member
  has-by_event_id k [] d = refl
  has-by_event_id k (e ∷ es) d =
      rw (has-by_event_id k es (put str_eq e.event_id e d), has-put str_eq eq_iff e.event_id k e d)
        (ground arith)

pub member-set_add :
    (j k : String) (xs : List String) → member j (set_add k xs) ≡ (str_eq k j || member j xs)
unfolding set_add member
member-set_add j k xs = ground (arith, member-append j xs (k ∷ []), eq_iff k j)

pub member-set_update :
    (j : String) (ks xs : List String) → member j (set_update ks xs) ≡ (member j ks || member j xs)
unfolding set_update member
member-set_update j [] xs = refl
member-set_update j (k ∷ ks) xs =
    rw (member-set_update j ks (set_add k xs), member-set_add j k xs) (ground arith)

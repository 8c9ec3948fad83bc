-- ===== src/Transport/Safety.antt =====
-- No dispatched event is forgotten: it is resolved, or an outstanding dispatch holds it, which the
-- sweep sends again.
use vh26_crackers.Base.{
  ℕ, ◌≡◌, refl, ◌∙◌, true, false, ◌⊎◌, inl, inr, List, [], ◌∷◌, String, Option, none, some, str_eq,
  eq_iff, ◌==◌, Floats, get, has, has-pop, All-pop, All-put, get-All, arith, Bool-cases, All,
}
use vh26_crackers.Contracts.{Event}
use vh26_crackers.Dedup.{member}
use vh26_crackers.Transport.{DispatchRecord, Transport, event_ids, grouped}
use vh26_crackers.Transport.Acks.{
  resolve_one, resolve_all, settle_as, settle, ack_record, ack, ack_groups, ack_by_event_ids,
}
use vh26_crackers.Transport.Held.{
  held, held-put_self, held-put, held-pop, Issued, put-Issued, Labelled, get-Issued, member-set_add,
}

module _ {F : Type 0} where
  abbrev pub Kept : Transport F → String → Type 0
  Kept s k = (member k s.resolved ≡ true) ⊎ (held k s.outstanding ≡ true)

  pub record Safe (s : Transport F) : Type 0 where
    pub issued : Issued s.next_id s.outstanding
    pub labelled : All (λ x. Labelled x.1.events) s.outstanding
    pub kept : (k : String) → member k s.dispatched ≡ true → Kept s k

  -- the same, but for the events that are sent again next
  pub record SafeBut (es : List (Event F)) (s : Transport F) : Type 0 where
    pub issued : Issued s.next_id s.outstanding
    pub labelled : All (λ x. Labelled x.1.events) s.outstanding
    pub kept :
        (k : String) → member k (event_ids es) ≡ false → member k s.dispatched ≡ true → Kept s k

  -- What the loop of an ack may do to the record that it holds and to the transport: events leave
  -- the record only into the resolved ones.
  record Moves (a b : DispatchRecord F × Transport F) : Type 0 where
    outstanding : b.1.outstanding ≡ a.1.outstanding
    dispatched : b.1.dispatched ≡ a.1.dispatched
    next_id : b.1.next_id ≡ a.1.next_id
    labelled : Labelled a.0.events → Labelled b.0.events
    grows : (k : String) → member k a.1.resolved ≡ true → member k b.1.resolved ≡ true
    leaves :
        (k : String)
        → has str_eq k a.0.events ≡ true
        → (has str_eq k b.0.events ≡ true) ⊎ (member k b.1.resolved ≡ true)

  has_nothing : (k : String) (d : List (String × Event F)) → d ≡ [] → has str_eq k d ≡ false
  unfolding has
  has_nothing k d empty = rw empty refl

module _ {F : Type 0} ⦃fl : Floats F⦄ where
  resolve_one-Moves :
      (now : F) (k : String) (a : DispatchRecord F × Transport F) → Moves a (resolve_one now k a)
  unfolding resolve_one
  resolve_one-Moves now k (r, s) = elim (Bool-cases (has str_eq k r.events)) [
    | inl there ↦
        rw (there, resolve_one)
          (record {
            outstanding = refl;
            dispatched = refl;
            next_id = refl;
            labelled = λ h. All-pop str_eq _ k r.events h;
            grows = λ j h. ground (arith, h, member-set_add j k s.resolved);
            leaves = λ j h.
                ground
                  (arith, h, member-set_add j k s.resolved, has-pop str_eq eq_iff k j r.events);
          })
    | inr gone ↦
        rw (gone, resolve_one)
          (record {
            outstanding = refl;
            dispatched = refl;
            next_id = refl;
            labelled = λ h. h;
            grows = λ j h. h;
            leaves = λ j h. inl h;
          })
  ]

  resolve_all-Moves :
      (now : F) (ks : List String) (a : DispatchRecord F × Transport F)
      → Moves a (resolve_all now ks a)
  unfolding resolve_all
  resolve_all-Moves now [] a = record {
    outstanding = refl;
    dispatched = refl;
    next_id = refl;
    labelled = λ h. h;
    grows = λ j h. h;
    leaves = λ j h. inl h;
  }
  resolve_all-Moves now (k ∷ ks) a =
      let first = resolve_one-Moves now k a in
      let rest = resolve_all-Moves now ks (resolve_one now k a) in
      record {
        outstanding = rest.outstanding ∙ first.outstanding;
        dispatched = rest.dispatched ∙ first.dispatched;
        next_id = rest.next_id ∙ first.next_id;
        labelled = λ h. rest.labelled (first.labelled h);
        grows = λ j h. rest.grows j (first.grows j h);
        leaves = λ j h. elim (first.leaves j h) [
          | inl there ↦ rest.leaves j there
          | inr done ↦ inr (rest.grows j done)
        ];
      }

  settle_as-Safe :
      (evs : List (String × Event F)) (s t : Transport F) (n : ℕ) (old r : DispatchRecord F)
      → r.events ≡ evs
      → Safe s
      → get ◌==◌ n s.outstanding ≡ some old
      → Moves (old, s) (r, t)
      → Safe (settle_as evs n r t)
  unfolding settle_as
  settle_as-Safe [] s t n old r all safe found m = record {
    issued = rw (m.outstanding, m.next_id) (All-pop ◌==◌ _ n s.outstanding safe.issued);
    labelled = rw m.outstanding (All-pop ◌==◌ _ n s.outstanding safe.labelled);
    kept = λ k h. elim (safe.kept k (rw (← m.dispatched) h)) [
      | inl done ↦ inl (m.grows k done)
      | inr there ↦ elim (held-pop k n old s.outstanding found there) [
        | inl still ↦ inr (rw m.outstanding still)
        | inr mine ↦ elim (m.leaves k mine) [
          | inl kept ↦ ground (arith, kept, has_nothing k r.events all)
          | inr done ↦ inl done
        ]
      ]
    ];
  }
  settle_as-Safe (x ∷ xs) s t n old r some_left safe found m = record {
    issued =
        rw (m.outstanding, m.next_id)
          (put-Issued n s.next_id r s.outstanding
            (get-Issued n s.next_id old s.outstanding safe.issued found) safe.issued);
    labelled =
        let own = get-All ◌==◌ (λ r. Labelled r.events) n old s.outstanding safe.labelled found in
        rw m.outstanding (All-put ◌==◌ _ n r s.outstanding (λ j. m.labelled own) safe.labelled);
    kept = λ k h. elim (safe.kept k (rw (← m.dispatched) h)) [
      | inl done ↦ inl (m.grows k done)
      | inr there ↦ elim (held-put k n old r s.outstanding found there) [
        | inl still ↦ inr (rw m.outstanding still)
        | inr mine ↦ elim (m.leaves k mine) [
          | inl kept ↦ inr (held-put_self k n r t.outstanding kept)
          | inr done ↦ inl done
        ]
      ]
    ];
  }

  ack_record-Safe :
      (o : Option (DispatchRecord F)) (s : Transport F) (n : ℕ) (ids : List String) (now : F)
      → get ◌==◌ n s.outstanding ≡ o
      → Safe s
      → Safe (ack_record o s n ids now)
  unfolding ack_record settle
  ack_record-Safe none s n ids now found safe = safe
  ack_record-Safe (some old) s n ids now found safe =
      let done = resolve_all now ids (old, s) in
      settle_as-Safe done.0.events s done.1 n old done.0 refl safe found
        (resolve_all-Moves now ids (old, s))

  pub ack-Safe :
      (s : Transport F) (n : ℕ) (ids : List String) (now : F) → Safe s → Safe (ack s n ids now)
  unfolding ack
  ack-Safe s n ids now safe = ack_record-Safe (get ◌==◌ n s.outstanding) s n ids now refl safe

  ack_groups-Safe :
      (s : Transport F) (gs : List (ℕ × List String)) (now : F)
      → Safe s
      → Safe (ack_groups s gs now)
  unfolding ack_groups
  ack_groups-Safe s [] now safe = safe
  ack_groups-Safe s (g ∷ gs) now safe =
      ack_groups-Safe (ack s g.0 g.1 now) gs now (ack-Safe s g.0 g.1 now safe)

  pub ack_by_event_ids-Safe :
      (s : Transport F) (ids : List String) (now : F) → Safe s → Safe (ack_by_event_ids s ids now)
  unfolding ack_by_event_ids
  ack_by_event_ids-Safe s ids now safe = ack_groups-Safe s (grouped s.event_index ids []) now safe

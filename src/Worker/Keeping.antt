-- ===== src/Worker/Keeping.antt =====
-- Where the events of a pool are, and what one worker's operations on the pool do to that.
use mathlib.Core.List.Perm
use mathlib.Core.List.Nodup
use mathlib.Core.List.{
  Nodup-cons, perm_middle, map-append, append_assoc, perm_append_comm, mem-append_left,
  mem-append_right,
}
use vh26_crackers.Base.{◌≡◌, subst, ℤ, false, List, [], ◌∷◌, ◌++◌, map, Perm, Nodup, Mem, String}
use vh26_crackers.Contracts.{Event}
use vh26_crackers.Checkpoint.{has_row, rows_of, rows_without}
use vh26_crackers.Checkpoint
use vh26_crackers.Checkpoint.ExactlyOnce.{split-perm}
use vh26_crackers.Checkpoint.Workers.{row_events, event_ids, not_in_rows}
use vh26_crackers.Deferral.Parked.{parked, Sound}
use vh26_crackers.Queue.Taking.{all_events}
use vh26_crackers.Worker.Pool.{Pool, Gone, event_of, dropped, leave, drop_all}

third-perm {ℓ} :
    {A : Type ℓ} (xs ys zs : List A) (e : A) → Perm (xs ++ (ys ++ e ∷ zs)) (e ∷ (xs ++ (ys ++ zs)))
third-perm xs ys zs e =
    Perm.trans (Perm.append (Perm.refl xs) (perm_middle ys zs)) (perm_middle xs (ys ++ zs))

module _ {F : Type 0} where
  mem_right :
      (k : String) (xs ys : List (Event F)) → Mem k (event_ids ys) → Mem k (event_ids (xs ++ ys))
  mem_right k xs ys m =
      rw (map-append (λ (e : Event F). e.event_id) xs ys) (mem-append_right (event_ids xs) m)

  mem_middle :
      (k : String) (xs ys zs : List (Event F))
      → Mem k (event_ids ys)
      → Mem k (event_ids (xs ++ (ys ++ zs)))
  mem_middle k xs ys zs m =
      rw
        (
          map-append (λ (e : Event F). e.event_id) xs (ys ++ zs),
          map-append (λ (e : Event F). e.event_id) ys zs,
        )
        (mem-append_right (event_ids xs) (mem-append_left (event_ids zs) m))

  -- no two events have one id
  abbrev pub Apart : List (Checkpoint.Row F) → List (Event F) → Type 0
  Apart others total = Nodup (event_ids (total ++ row_events others))

module _ {F S : Type 0} where
  -- the events that no worker has
  abbrev pub inside : Pool F S → List (Event F)
  inside p = all_events p.queue ++ (parked p.buffer ++ map event_of p.gone)

  pub leave-perm : (g : Gone F) (p : Pool F S) → Perm (inside (leave g p)) (event_of g ∷ inside p)
  leave-perm g p =
      third-perm (all_events p.queue) (parked p.buffer) (map event_of p.gone) (event_of g)

  pub drop_all-perm :
      (es : List (Event F)) (p : Pool F S) → Perm (inside (drop_all es p)) (es ++ inside p)
  unfolding drop_all event_of
  drop_all-perm [] p = Perm.refl (inside p)
  drop_all-perm (e ∷ es) p =
      Perm.trans (leave-perm (dropped e) (drop_all es p)) (Perm.cons e (drop_all-perm es p))

  -- Seen by one worker: the rows of the others stay as they are, its own rows are the events that
  -- it has begun, and these, those that it holds besides, and those that no worker has are the
  -- events that there are beside the others'.
  pub record Local (p : Pool F S) (w : ℤ) (others : List (Checkpoint.Row F))
      (total mine loose : List (Event F)) : Type 0 where
    pub frame : rows_without w p.checkpoint.rows ≡ others
    pub begun : Perm (row_events (rows_of w p.checkpoint.rows)) mine
    pub kept : Perm (inside p ++ (loose ++ mine)) total
    pub buffer : Sound p.buffer

  pub everywhere :
      (p : Pool F S) (w : ℤ) (others : List (Checkpoint.Row F)) (total mine loose : List (Event F))
      → Apart others total
      → Local p w others total mine loose
      → Nodup (event_ids (loose ++ ((mine ++ row_events others) ++ inside p)))
  everywhere p w others total mine loose u l =
      Perm.nodup
        (Perm.map (λ e. e.event_id)
          (Perm.trans (Perm.append (Perm.symm l.kept) (Perm.refl (row_events others)))
            (regroup (inside p) loose mine (row_events others))))
        u
    where
      regroup :
          (xs ls ms os : List (Event F))
          → Perm ((xs ++ (ls ++ ms)) ++ os) (ls ++ ((ms ++ os) ++ xs))
      regroup xs ls ms os =
          rw (append_assoc xs (ls ++ ms) os, append_assoc ls ms os, ← append_assoc ls (ms ++ os) xs)
            (perm_append_comm xs (ls ++ (ms ++ os)))

  -- the rows are the worker's own and the others'
  rows-perm :
      (p : Pool F S) (w : ℤ) (others : List (Checkpoint.Row F)) (total mine loose : List (Event F))
      → Local p w others total mine loose
      → Perm (row_events p.checkpoint.rows) (mine ++ row_events others)
  rows-perm p w others total mine loose l =
      let rows = p.checkpoint.rows in
      let split : Perm (row_events rows) (row_events (rows_of w rows ++ rows_without w rows)) =
        Perm.map (λ r. r.event) (Perm.symm (split-perm w rows)) in
      Perm.trans
        (subst (λ zs. Perm (row_events rows) zs)
          (map-append (λ (r : Checkpoint.Row F). r.event) (rows_of w rows) (rows_without w rows))
          split)
        (Perm.append l.begun (
          subst (λ zs. Perm (row_events (rows_without w rows)) (row_events zs)) l.frame
            (Perm.refl (row_events (rows_without w rows)))))

  -- an event that a worker holds without a row has none
  pub unrowed :
      (p : Pool F S) (w : ℤ) (others : List (Checkpoint.Row F)) (total mine loose : List (Event F))
      (e : Event F)
      → Apart others total
      → Local p w others total mine (e ∷ loose)
      → has_row e.event_id p.checkpoint.rows ≡ false
  unrowed p w others total mine loose e u l = not_in_rows e.event_id p.checkpoint.rows λ m.
      (Nodup-cons.0 (everywhere p w others total mine (e ∷ loose) u l)).0 (
        mem_middle e.event_id loose (mine ++ row_events others) (inside p) (
          Perm.subset (Perm.map (λ x. x.event_id) (rows-perm p w others total mine (e ∷ loose) l))
            e.event_id m))

  -- an event that a worker holds without a row is not parked
  pub unparked :
      (p : Pool F S) (w : ℤ) (others : List (Checkpoint.Row F)) (total mine loose : List (Event F))
      (e : Event F)
      → Apart others total
      → Local p w others total mine (e ∷ loose)
      → ¬ Mem e.event_id (event_ids (parked p.buffer))
  unparked p w others total mine loose e u l = λ m.
      (Nodup-cons.0 (everywhere p w others total mine (e ∷ loose) u l)).0 (
        mem_right e.event_id loose ((mine ++ row_events others) ++ inside p) (
          mem_right e.event_id (mine ++ row_events others) (inside p)
            (mem_middle e.event_id (all_events p.queue) (parked p.buffer) (map event_of p.gone) m)))

  -- a worker's events with a row are apart from each other and from the others'
  owned :
      (p : Pool F S) (w : ℤ) (others : List (Checkpoint.Row F)) (total mine loose : List (Event F))
      → Apart others total
      → Local p w others total mine loose
      → Nodup (event_ids (mine ++ row_events others))
  owned p w others total mine loose u l =
      let id = λ (e : Event F). e.event_id in
      let rows = mine ++ row_events others in
      let held : Nodup (event_ids loose ++ event_ids (rows ++ inside p)) =
        rw (map-append id loose (rows ++ inside p)) at
          (everywhere p w others total mine loose u l) in
      let begun : Nodup (event_ids rows ++ event_ids (inside p)) =
        rw (map-append id rows (inside p)) at (Nodup.of_append_right (event_ids loose) held) in
      Nodup.of_append_left (event_ids (inside p)) begun

  pub owned_alone :
      (p : Pool F S) (w : ℤ) (others : List (Checkpoint.Row F)) (total mine loose : List (Event F))
      → Apart others total
      → Local p w others total mine loose
      → Nodup (event_ids mine)
  owned_alone p w others total mine loose u l =
      let apart : Nodup (event_ids mine ++ event_ids (row_events others)) =
        rw (map-append (λ (e : Event F). e.event_id) mine (row_events others)) at
          (owned p w others total mine loose u l) in
      Nodup.of_append_left (event_ids (row_events others)) apart

  pub owned_only :
      (p : Pool F S) (w : ℤ) (others : List (Checkpoint.Row F)) (total mine loose : List (Event F))
      (e : Event F)
      → Apart others total
      → Local p w others total (e ∷ mine) loose
      → has_row e.event_id others ≡ false
  owned_only p w others total mine loose e u l = not_in_rows e.event_id others λ m.
      (Nodup-cons.0 (owned p w others total (e ∷ mine) loose u l)).0
        (mem_right e.event_id mine (row_events others) m)

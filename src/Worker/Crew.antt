-- ===== src/Worker/Crew.antt =====
-- All workers of a pool: each one's rows are the events that it has begun, and a step of one of
-- them leaves the others alone.
use mathlib.Core.List.Perm
use mathlib.Core.List.Nodup
use mathlib.Core.List.{map-append, append_assoc, perm_append_comm, perm-append_left_iff}
use vh26_crackers.Base.{
  ◌≡◌, ◌≢◌, refl, sym, ◌∙◌, ap, subst, ℕ, zero, suc, ◌+◌, ◌<◌, ℤ, pos, eq_ℤ, true, false, List, [],
  ◌∷◌, ◌++◌, Perm, Nodup, arith,
}
use vh26_crackers.Contracts.{Event}
use vh26_crackers.Checkpoint.{rows_of, rows_without}
use vh26_crackers.Checkpoint
use vh26_crackers.Checkpoint.ExactlyOnce.{split-perm}
use vh26_crackers.Checkpoint.Workers.{row_events, event_ids}
use vh26_crackers.Deferral.Parked.{Sound}
use vh26_crackers.Worker.Pool.{Pool, Stage, begun, unbegun}
use vh26_crackers.Worker.Running.{at_worker}
use vh26_crackers.Worker.Keeping.{Local, Apart, inside}

other_worker : (a : ℤ) (i k : ℕ) → i ≢ k → eq_ℤ a (pos k) ≡ true → eq_ℤ a (pos i) ≡ false
other_worker a i k h same = ground arith

module _ {ℓ} {A : Type ℓ} where
  swap_heads : (xs ys zs : List A) → Perm (xs ++ (ys ++ zs)) (ys ++ (xs ++ zs))
  swap_heads xs ys zs =
      subst (λ t. Perm t (ys ++ (xs ++ zs))) (append_assoc xs ys zs)
        (subst (λ t. Perm ((xs ++ ys) ++ zs) t) (append_assoc ys xs zs)
          (Perm.append (perm_append_comm xs ys) (Perm.refl zs)))

  past : (xs ys zs : List A) → Perm ((xs ++ ys) ++ zs) (ys ++ (xs ++ zs))
  past xs ys zs = rw (append_assoc xs ys zs) (swap_heads xs ys zs)

  pairs : (us ls gs bs : List A) → Perm ((us ++ ls) ++ (gs ++ bs)) ((us ++ gs) ++ (ls ++ bs))
  pairs us ls gs bs =
      rw (append_assoc us ls (gs ++ bs), append_assoc us gs (ls ++ bs))
        (Perm.append (Perm.refl us) (swap_heads ls gs bs))

  -- what one worker holds, next to what no worker holds
  first_group :
      (xs us ls gs bs : List A)
      → Perm (xs ++ ((us ++ ls) ++ (gs ++ bs))) ((xs ++ (us ++ gs)) ++ (ls ++ bs))
  first_group xs us ls gs bs =
      rw (append_assoc xs (us ++ gs) (ls ++ bs)) (Perm.append (Perm.refl xs) (pairs us ls gs bs))

  last_group :
      (xs us ls gs bs : List A)
      → Perm (xs ++ ((us ++ ls) ++ (gs ++ bs))) ((us ++ gs) ++ (xs ++ (ls ++ bs)))
  last_group xs us ls gs bs =
      Perm.trans (Perm.append (Perm.refl xs) (pairs us ls gs bs))
        (swap_heads xs (us ++ gs) (ls ++ bs))

  apart_groups :
      (us ls gs os xs : List A)
      → Perm ((us ++ ls) ++ ((gs ++ os) ++ xs)) (ls ++ ((xs ++ (us ++ gs)) ++ os))
  apart_groups us ls gs os xs = Perm.trans (past us ls ((gs ++ os) ++ xs)) (
      Perm.append (Perm.refl ls) (
        Perm.trans (Perm.append (Perm.refl us) (perm_append_comm (gs ++ os) xs)) (
          Perm.trans (swap_heads us xs (gs ++ os)) (
            rw (append_assoc xs (us ++ gs) os, append_assoc us gs os)
              (Perm.refl (xs ++ (us ++ (gs ++ os))))))))

module _ {F : Type 0} where
  pub ids_right : (xs ys : List (Event F)) → Nodup (event_ids (xs ++ ys)) → Nodup (event_ids ys)
  ids_right xs ys u =
      Nodup.of_append_right (event_ids xs)
        (rw (map-append (λ (e : Event F). e.event_id) xs ys) at u)

  -- the events in the hands of some workers, with a row and without
  unfoldable pub begun_all : List (Stage F) → List (Event F)
  begun_all [] = []
  begun_all (st ∷ sts) = begun st ++ begun_all sts

  unfoldable pub loose_all : List (Stage F) → List (Event F)
  loose_all [] = []
  loose_all (st ∷ sts) = unbegun st ++ loose_all sts

  -- the workers from the k-th on
  abbrev pub Tracked : ℕ → List (Checkpoint.Row F) → List (Stage F) → Type 0
  Tracked k rows [] = Unit
  Tracked k rows (st ∷ sts) =
      Perm (row_events (rows_of (pos k) rows)) (begun st) × Tracked (suc k) rows sts

  rows_of-rows_without :
      (i k : ℕ) (rows : List (Checkpoint.Row F))
      → i ≢ k
      → rows_of (pos k) (rows_without (pos i) rows) ≡ rows_of (pos k) rows
  unfolding rows_of rows_without
  rows_of-rows_without i k [] h = refl
  rows_of-rows_without i k (r ∷ rs) h =
      ground (arith, rows_of-rows_without i k rs h, other_worker r.worker_id i k h)

  framed :
      (i k : ℕ) (rows rows' : List (Checkpoint.Row F))
      → i ≢ k
      → rows_without (pos i) rows' ≡ rows_without (pos i) rows
      → rows_of (pos k) rows' ≡ rows_of (pos k) rows
  framed i k rows rows' h frame =
      sym (rows_of-rows_without i k rows' h)
      ∙ ap (rows_of (pos k)) frame
      ∙ rows_of-rows_without i k rows h

  Tracked-framed :
      (i k : ℕ) (rows rows' : List (Checkpoint.Row F)) (sts : List (Stage F))
      → i < k
      → rows_without (pos i) rows' ≡ rows_without (pos i) rows
      → Tracked k rows sts
      → Tracked k rows' sts
  Tracked-framed i k rows rows' [] h frame t = tt
  Tracked-framed i k rows rows' (st ∷ sts) h frame t = (
    rw (framed i k rows rows' (λ e. absurd (omega arith)) frame) t.0,
    Tracked-framed i (suc k) rows rows' sts (omega arith) frame t.1,
  )

  -- all rows are one worker's and the others'
  all_rows :
      (w : ℤ) (rows : List (Checkpoint.Row F))
      → Perm (row_events rows) (row_events (rows_of w rows) ++ row_events (rows_without w rows))
  all_rows w rows =
      subst (λ zs. Perm (row_events rows) zs)
        (map-append (λ (r : Checkpoint.Row F). r.event) (rows_of w rows) (rows_without w rows))
        (Perm.map (λ r. r.event) (Perm.symm (split-perm w rows)))

module _ {F S : Type 0} where
  -- the ids are apart, of what some workers hold without a row, of the rows, and of the rest
  abbrev pub AllApart : Pool F S → List (Stage F) → Type 0
  AllApart p sts = Nodup (event_ids (loose_all sts ++ (row_events p.checkpoint.rows ++ inside p)))

  abbrev pub Steps : (ℤ → Pool F S → Stage F → Pool F S × Stage F) → Type 0
  Steps f =
      (id : ℤ) (others : List (Checkpoint.Row F)) (total : List (Event F)) (p : Pool F S)
      (st : Stage F)
      → Apart others total
      → Local p id others total (begun st) (unbegun st)
      → Local (f id p st).0 id others total (begun (f id p st).1) (unbegun (f id p st).1)

  -- what a step of the worker with the id `j` does
  pub record Moved (j k : ℕ) (p p' : Pool F S) (sts sts' : List (Stage F)) : Type 0 where
    pub frame : rows_without (pos j) p'.checkpoint.rows ≡ rows_without (pos j) p.checkpoint.rows
    pub tracked : Tracked k p'.checkpoint.rows sts'
    pub kept :
        Perm
          (inside p' ++ (loose_all sts' ++ begun_all sts'))
          (inside p ++ (loose_all sts ++ begun_all sts))
    pub buffer : Sound p'.buffer
    pub orphans :
        (rest : List (Event F))
        → Perm (row_events p.checkpoint.rows) (begun_all sts ++ rest)
        → Perm (row_events p'.checkpoint.rows) (begun_all sts' ++ rest)

  -- the worker at the head of the list makes a step
  head-Apart :
      (k : ℕ) (p : Pool F S) (st : Stage F) (sts : List (Stage F))
      → AllApart p (st ∷ sts)
      → Perm (row_events (rows_of (pos k) p.checkpoint.rows)) (begun st)
      → Apart (rows_without (pos k) p.checkpoint.rows) (inside p ++ (unbegun st ++ begun st))
  unfolding loose_all
  head-Apart k p st sts u t =
      let others = rows_without (pos k) p.checkpoint.rows in
      let all =
        Perm.nodup
          (Perm.map (λ (e : Event F). e.event_id)
            (Perm.trans
              (Perm.append (Perm.refl (unbegun st ++ loose_all sts)) (
                Perm.append
                  (Perm.trans (all_rows (pos k) p.checkpoint.rows)
                    (Perm.append t (Perm.refl (row_events others))))
                  (Perm.refl (inside p))))
              (apart_groups (unbegun st) (loose_all sts) (begun st) (row_events others)
                (inside p))))
          u in
      ids_right (loose_all sts) ((inside p ++ (unbegun st ++ begun st)) ++ row_events others) all

  head_orphans :
      (k : ℕ) (p p' : Pool F S) (gs gs' bs rest : List (Event F))
      → Perm (row_events (rows_of (pos k) p.checkpoint.rows)) gs
      → Perm (row_events (rows_of (pos k) p'.checkpoint.rows)) gs'
      → rows_without (pos k) p'.checkpoint.rows ≡ rows_without (pos k) p.checkpoint.rows
      → Perm (row_events p.checkpoint.rows) ((gs ++ bs) ++ rest)
      → Perm (row_events p'.checkpoint.rows) ((gs' ++ bs) ++ rest)
  head_orphans k p p' gs gs' bs rest own own' frame h =
      let others = row_events (rows_without (pos k) p.checkpoint.rows) in
      let split : Perm (gs ++ others) (gs ++ (bs ++ rest)) =
        Perm.trans
          (Perm.symm
            (Perm.trans (all_rows (pos k) p.checkpoint.rows) (Perm.append own (Perm.refl others))))
          (rw (append_assoc gs bs rest) at h) in
      let split' : Perm (row_events p'.checkpoint.rows) (gs' ++ others) =
        Perm.trans (all_rows (pos k) p'.checkpoint.rows)
          (Perm.append own' (rw frame (Perm.refl others))) in
      rw (append_assoc gs' bs rest)
        (Perm.trans split' (Perm.append (Perm.refl gs') ((perm-append_left_iff gs).0 split)))

  pub moved :
      (f : ℤ → Pool F S → Stage F → Pool F S × Stage F) (i j k : ℕ) (p : Pool F S)
      (sts : List (Stage F))
      → Steps f
      → j ≡ k + i
      → AllApart p sts
      → Sound p.buffer
      → Tracked k p.checkpoint.rows sts
      → Moved j k p (at_worker f i k p sts).0 sts (at_worker f i k p sts).1
  unfolding at_worker begun_all loose_all
  moved f i j k p [] steps e u b t = record {
    frame = refl;
    tracked = tt;
    kept = Perm.refl (inside p ++ []);
    buffer = b;
    orphans = λ rest h. h;
  }
  moved f zero j k p (st ∷ sts) steps e u b t =
      let l =
        steps (pos k) (rows_without (pos k) p.checkpoint.rows)
          (inside p ++ (unbegun st ++ begun st)) p st (head-Apart k p st sts u t.0)
          (record { frame = refl; begun = t.0; kept = Perm.refl _; buffer = b }) in
      let p' = (f (pos k) p st).0 in
      let st' = (f (pos k) p st).1 in
      record {
        frame =
            subst
              (λ n.
                rows_without (pos n) p'.checkpoint.rows ≡ rows_without (pos n) p.checkpoint.rows)
              (omega (arith, e)) l.frame;
        tracked = (
          l.begun,
          Tracked-framed k (suc k) p.checkpoint.rows p'.checkpoint.rows sts (omega arith) l.frame
              t.1,
        );
        kept =
            Perm.trans
              (first_group (inside p') (unbegun st') (loose_all sts) (begun st') (begun_all sts))
              (Perm.trans (Perm.append l.kept (Perm.refl (loose_all sts ++ begun_all sts))) (
                Perm.symm (
                  first_group (inside p) (unbegun st) (loose_all sts) (begun st) (begun_all sts))));
        buffer = l.buffer;
        orphans = λ rest h.
            head_orphans k p p' (begun st) (begun st') (begun_all sts) rest t.0 l.begun l.frame h;
      }
  moved f (suc i) j k p (st ∷ sts) steps e u b t =
      let tail : Moved j (suc k) p (at_worker f i (suc k) p sts).0 sts
          (at_worker f i (suc k) p sts).1 =
        moved f i j (suc k) p sts steps (omega (arith, e))
          (ids_right (unbegun st) (loose_all sts ++ (row_events p.checkpoint.rows ++ inside p)) (
            rw
              (append_assoc (unbegun st) (loose_all sts) (row_events p.checkpoint.rows ++ inside p))
              at u))
          b t.1 in
      let p' = (at_worker f i (suc k) p sts).0 in
      let sts' = (at_worker f i (suc k) p sts).1 in
      record {
        frame = tail.frame;
        tracked = (
          rw
              (framed j k p.checkpoint.rows p'.checkpoint.rows
                (λ same. absurd (omega (arith, e, same))) tail.frame)
              t.0,
          tail.tracked,
        );
        kept =
            Perm.trans
              (last_group (inside p') (unbegun st) (loose_all sts') (begun st) (begun_all sts'))
              (Perm.trans (Perm.append (Perm.refl (unbegun st ++ begun st)) tail.kept) (
                Perm.symm
                  (last_group (inside p) (unbegun st) (loose_all sts) (begun st) (begun_all sts))));
        buffer = tail.buffer;
        orphans = λ rest h.
            Perm.trans
              (tail.orphans (begun st ++ rest)
                (Perm.trans h (past (begun st) (begun_all sts) rest)))
              (Perm.symm (past (begun st) (begun_all sts') rest));
      }

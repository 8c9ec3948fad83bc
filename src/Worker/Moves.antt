-- ===== src/Worker/Moves.antt =====
-- The moves of one event between the places of a pool, as one worker makes them: it takes an event
-- from the queue, begins it, completes it, gives it away, or gets back what it had begun.
use mathlib.Core.List.Perm
use mathlib.Core.List.{perm_middle, append_assoc, append-nil, perm_append_comm}
use vh26_crackers.Base.{◌≡◌, ◌∙◌, ℤ, List, [], ◌∷◌, ◌++◌, Perm}
use vh26_crackers.Contracts.{Event}
use vh26_crackers.Checkpoint.{CheckpointStore, has_row, rows_of, rows_without, begin, mark_done}
use vh26_crackers.Checkpoint
use vh26_crackers.Checkpoint.Workers.{
  begin_own, begin_others, mark_done_own, mark_done_others, rows_of-rows_without,
  rows_without_twice,
}
use vh26_crackers.Deferral.Parked.{Sound}
use vh26_crackers.Worker.Pool.{Pool, drop_all}
use vh26_crackers.Worker.Keeping.{
  Local, Apart, inside, owned_alone, owned_only, unrowed, drop_all-perm,
}

-- one event, from the left of what is held to the front
from_loose {ℓ} :
    {A : Type ℓ} (e : A) (xs ys zs : List A) → Perm ys (e ∷ xs) → Perm (ys ++ zs) (xs ++ e ∷ zs)
from_loose e xs ys zs p = Perm.trans (Perm.append p (Perm.refl zs)) (Perm.symm (perm_middle xs zs))

module _ {F S : Type 0} (w : ℤ) (others : List (Checkpoint.Row F)) (total : List (Event F)) where
  -- the queue, say, hands an event over
  pub Local-take :
      (p p' : Pool F S) (mine loose : List (Event F)) (e : Event F)
      → p'.checkpoint ≡ p.checkpoint
      → Sound p'.buffer
      → Perm (inside p) (e ∷ inside p')
      → Local p w others total mine loose
      → Local p' w others total mine (e ∷ loose)
  Local-take p p' mine loose e same b h l = record {
    frame = rw same l.frame;
    begun = rw same l.begun;
    kept = Perm.trans (Perm.symm (from_loose e (inside p') (inside p) (loose ++ mine) h)) l.kept;
    buffer = b;
  }

  -- the buffer, say, or the past takes an event
  pub Local-give :
      (p p' : Pool F S) (mine loose : List (Event F)) (e : Event F)
      → p'.checkpoint ≡ p.checkpoint
      → Sound p'.buffer
      → Perm (inside p') (e ∷ inside p)
      → Local p w others total mine (e ∷ loose)
      → Local p' w others total mine loose
  Local-give p p' mine loose e same b h l = record {
    frame = rw same l.frame;
    begun = rw same l.begun;
    kept = Perm.trans (from_loose e (inside p) (inside p') (loose ++ mine) h) l.kept;
    buffer = b;
  }

  pub Local-same :
      (p p' : Pool F S) (mine mine' loose : List (Event F))
      → p'.checkpoint ≡ p.checkpoint
      → p'.buffer ≡ p.buffer
      → inside p' ≡ inside p
      → Perm mine' mine
      → Local p w others total mine loose
      → Local p' w others total mine' loose
  Local-same p p' mine mine' loose same b h m l = record {
    frame = rw same l.frame;
    begun = rw same (Perm.trans l.begun (Perm.symm m));
    kept =
        rw h (
          Perm.trans (Perm.append (Perm.refl (inside p)) (Perm.append (Perm.refl loose) m)) l.kept);
    buffer = rw b l.buffer;
  }

  pub Local-loose :
      (p : Pool F S) (mine loose loose' : List (Event F))
      → Perm loose' loose
      → Local p w others total mine loose
      → Local p w others total mine loose'
  Local-loose p mine loose loose' h l = record {
    frame = l.frame;
    begun = l.begun;
    kept = Perm.trans (Perm.append (Perm.refl (inside p)) (Perm.append h (Perm.refl mine))) l.kept;
    buffer = l.buffer;
  }

  pub Local-drop :
      (p : Pool F S) (mine batch : List (Event F))
      → Local p w others total mine batch
      → Local (drop_all batch p) w others total mine []
  unfolding drop_all
  Local-drop p mine batch l = record {
    frame = l.frame;
    begun = l.begun;
    kept =
        Perm.trans
          (Perm.trans (Perm.append (drop_all-perm batch p) (Perm.refl mine))
            (rotated (inside p) batch mine))
          l.kept;
    buffer = l.buffer;
  }
    where
      rotated : (xs bs ms : List (Event F)) → Perm ((bs ++ xs) ++ ms) (xs ++ (bs ++ ms))
      rotated xs bs ms =
          rw (← append_assoc xs bs ms) (Perm.append (perm_append_comm bs xs) (Perm.refl ms))

  pub Local-begin :
      (p : Pool F S) (mine loose : List (Event F)) (e : Event F) (now : F)
      → Apart others total
      → Local p w others total mine (e ∷ loose)
      → Local
          (record p { checkpoint = (begin p.checkpoint e w now).0 })
          w
          others
          total
          (e ∷ mine)
          loose
  Local-begin p mine loose e now u l = record {
    frame = begin_others p.checkpoint w e now ∙ l.frame;
    begun =
        Perm.trans (begin_own p.checkpoint w e now (unrowed p w others total mine loose e u l))
          (Perm.cons e l.begun);
    kept = Perm.trans (Perm.append (Perm.refl (inside p)) (perm_middle loose mine)) l.kept;
    buffer = l.buffer;
  }

  -- a completed event leaves, and its row is deleted
  pub Local-finish :
      (p p' : Pool F S) (mine loose : List (Event F)) (e : Event F)
      → Apart others total
      → p'.checkpoint ≡ (mark_done p.checkpoint e.event_id).0
      → p'.buffer ≡ p.buffer
      → Perm (inside p') (e ∷ inside p)
      → Local p w others total (e ∷ mine) loose
      → Local p' w others total mine loose
  Local-finish p p' mine loose e u done b h l = record {
    frame = rw done (
        mark_done_others p.checkpoint w e.event_id
          (rw l.frame (owned_only p w others total mine loose e u l))
        ∙ l.frame);
    begun = rw done (
        mark_done_own p.checkpoint w e mine l.begun
          (owned_alone p w others total (e ∷ mine) loose u l));
    kept = Perm.trans (from_loose e (inside p) (inside p') (loose ++ mine) h) (
        Perm.trans (Perm.append (Perm.refl (inside p)) (Perm.symm (perm_middle loose mine)))
          l.kept);
    buffer = rw b l.buffer;
  }

  -- what the worker had begun goes to the queue, and it has nothing
  pub Local-recover :
      (p p' : Pool F S) (mine : List (Event F))
      → p'.checkpoint ≡ (Checkpoint.recover_worker p.checkpoint w).0
      → p'.buffer ≡ p.buffer
      → Perm (inside p') ((Checkpoint.recover_worker p.checkpoint w).1 ++ inside p)
      → Local p w others total mine []
      → Local p' w others total [] []
  unfolding Checkpoint.recover_worker
  Local-recover p p' mine done b h l = record {
    frame = rw done (rows_without_twice w p.checkpoint.rows ∙ l.frame);
    begun = rw (done, rows_of-rows_without w p.checkpoint.rows) (Perm.refl []);
    kept = rw (append-nil (inside p')) (
        Perm.trans h (
          Perm.trans (Perm.append l.begun (Perm.refl (inside p)))
            (Perm.trans (perm_append_comm mine (inside p)) l.kept)));
    buffer = rw b l.buffer;
  }

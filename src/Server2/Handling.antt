-- ===== src/Server2/Handling.antt =====
-- src/triage/server2.py: the loop of _handle that fills a micro-batch, _handle, and one turn of a
-- worker. The loop runs on fuel, one more than the queue holds.
use vh26_crackers.Base.{
  ℕ, zero, suc, ◌+◌, ℤ, pos, le_ℤ, Bool, true, false, List, [], ◌∷◌, ◌++◌, length, Option, none,
  some, Floats, if◌then◌else◌,
}
use vh26_crackers.Contracts.{Event, Decision, stream_now, micro_batch}
use vh26_crackers.Decision.{Reason, batch_size, default_b_min, default_b_max}
use vh26_crackers.Server2.{P1P2Queue, size, try_get}
use vh26_crackers.Server2.State.{ServerState, Env, Post, pressure_value, note_dequeue, resolve}
use vh26_crackers.Server2.Serving.{
  Served, serve, serve_batch, dispatch_off_path, served_alone, before,
}

-- the state, the batch so far, the calls of ingress, and whether no exception was raised
abbrev pub Gathered : Type 0 → Type 0
Gathered F = ServerState F × List (Event F) × List (Post F) × Bool

module _ {F : Type 0} ⦃fl : Floats F⦄ where
  abbrev pub prepend : List (Post F) → Gathered F → Gathered F
  prepend posts (s, batch, more, fine) = (s, batch, posts ++ more, fine)

  unfoldable pub after_alone : (ServerState F → Gathered F) → List (Event F) → Served F → Gathered F
  after_alone next batch (s, posts, true) = prepend posts (next s)
  after_alone next batch (s, posts, false) = (s, batch, posts, false)

  unfoldable pub after_resolve :
      (ServerState F → List (Event F) → Gathered F)
      → Env F
      → ServerState F
      → List (Event F)
      → Event F
      → F
      → F
      → Option (Decision × Reason F)
      → Gathered F
  unfolding after_alone served_alone
  after_resolve next env s batch extra p now none = (s, batch, [], false)
  after_resolve next env s batch extra p now (some (micro_batch, reason)) =
      next s (batch ++ extra ∷ [])
  after_resolve next env s batch extra p now (some (d, reason)) =
      after_alone (λ t. next t batch) batch (served_alone env s extra d reason p now)

  unfoldable pub after_get :
      (ServerState F → List (Event F) → Gathered F)
      → Env F
      → ServerState F
      → List (Event F)
      → F
      → F
      → Option (Event F × P1P2Queue F)
      → Gathered F
  unfolding after_resolve note_dequeue resolve
  after_get next env s batch p now none = (s, batch, [], true)
  after_get next env s batch p now (some (extra, rest)) =
      let noted = note_dequeue (record s { queue = rest }) extra now in
      after_resolve next env noted batch extra p now (resolve noted extra p now)

  -- `while len(batch) < target_size`, until the queue is empty
  unfoldable pub gather : Env F → (ℕ → F) → ℕ → ℤ → F → ServerState F → List (Event F) → Gathered F
  unfolding after_get try_get
  gather env clock zero target p s batch = (s, batch, [], true)
  gather env clock (suc n) target p s batch =
      if le_ℤ target (pos (length batch))
      then (s, batch, [], true)
      else after_get (λ t b. gather env clock n target p t b) env s batch p (clock n)
          (try_get env.selection s.queue (clock n))

  unfoldable pub batch_served : Env F → Reason F → F → F → Gathered F → Served F
  unfolding serve_batch
  batch_served env reason p now (s, batch, posts, true) =
      before posts (serve_batch env s batch reason p now)
  batch_served env reason p now (s, batch, posts, false) = (s, posts, false)

  unfoldable pub handle_resolved :
      Env F → (ℕ → F) → ServerState F → Event F → F → F → Option (Decision × Reason F) → Served F
  unfolding serve gather batch_served dispatch_off_path size
  handle_resolved env clock s e p now none = (s, [], false)
  handle_resolved env clock s e p now (some (stream_now, reason)) = serve env s e reason p now
  handle_resolved env clock s e p now (some (micro_batch, reason)) =
      let fuel = size s.queue + 1 in
      batch_served env reason p now
        (gather env clock fuel (batch_size p default_b_min default_b_max) p s (e ∷ []))
  handle_resolved env clock s e p now (some (d, reason)) = dispatch_off_path env s e d reason now

  unfoldable pub handle : Env F → (ℕ → F) → ServerState F → Event F → F → Served F
  unfolding pressure_value resolve handle_resolved
  handle env clock s e now =
      let at = pressure_value env s now in
      handle_resolved env clock at.0 e at.1 now (resolve at.0 e at.1 now)

  -- One event of a worker's loop, once there is one; an exception is only logged.
  unfoldable pub turn_on :
      Env F → (ℕ → F) → ServerState F → F → Option (Event F × P1P2Queue F) → Served F
  unfolding note_dequeue handle
  turn_on env clock s now none = (s, [], true)
  turn_on env clock s now (some (e, rest)) =
      handle env clock (note_dequeue (record s { queue = rest }) e now) e now

  unfoldable pub turn : Env F → (ℕ → F) → ServerState F → F → Served F
  unfolding turn_on try_get
  turn env clock s now = turn_on env clock s now (try_get env.selection s.queue now)

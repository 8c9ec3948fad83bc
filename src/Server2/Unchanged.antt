-- ===== src/Server2/Unchanged.antt =====
-- What ends an event outside the batch leaves the queue of server2 as it is.
use vh26_crackers.Base.{
  ◌≡◌, refl, ◌∙◌, inl, inr, ℕ, pos, ◌-ℤ◌, Option, none, some, Floats, ◌≤?◌, ◌⊖◌, Bool-cases,
}
use vh26_crackers.Contracts.{
  Event, EventType, payment, order, inventory, click, log, Tier, p0, p1, p2, Decision, stream_now,
  micro_batch, defer, sample_rollup,
}
use vh26_crackers.Decision.{Reason}
use vh26_crackers.Ladder.{value, decision_rung}
use vh26_crackers.Ladder.Reservoir.{Rollup}
use vh26_crackers.Server2.State.{
  ServerState, Env, pressure_value, pressure_refresh_seconds, completed,
}
use vh26_crackers.Server2.Serving.{
  serve, with_rung, sampled, sample_into, off_path, dispatch_off_path, served_alone,
}

module _ {F : Type 0} ⦃fl : Floats F⦄ where
  pressure_value-queue :
      (env : Env F) (s : ServerState F) (now : F) → (pressure_value env s now).0.queue ≡ s.queue
  unfolding pressure_value
  pressure_value-queue env s now =
      elim (Bool-cases (pressure_refresh_seconds ≤? now ⊖ s.pressure_cache_ts)) [
        | inl old ↦ rw (old, pressure_value) refl
        | inr recent ↦ rw (recent, pressure_value) refl
      ]

  with_rung-queue : (t : Tier) (n : ℕ) (s : ServerState F) → (with_rung t n s).queue ≡ s.queue
  unfolding with_rung
  with_rung-queue p0 n s = refl
  with_rung-queue p1 n s = refl
  with_rung-queue p2 n s = refl

  sampled-queue :
      (e : Event F) (s : ServerState F) (o : Option (Rollup F)) → (sampled e s o).0.queue ≡ s.queue
  unfolding sampled
  sampled-queue e s none = refl
  sampled-queue e s (some r) = refl

  sample_into-queue :
      (t : EventType) (s : ServerState F) (e : Event F) (now : F)
      → (sample_into t s e now).0.queue ≡ s.queue
  unfolding sample_into
  sample_into-queue click s e now = sampled-queue e _ _
  sample_into-queue log s e now = sampled-queue e _ _
  sample_into-queue payment s e now = refl
  sample_into-queue order s e now = refl
  sample_into-queue inventory s e now = refl

  off_path-queue :
      (env : Env F) (s : ServerState F) (e : Event F) (d : Decision) (reason : Reason F) (now : F)
      → (off_path env s e d reason now).0.queue ≡ s.queue
  unfolding off_path
  off_path-queue env s e stream_now reason now = refl
  off_path-queue env s e micro_batch reason now = refl
  off_path-queue env s e defer reason now = refl
  off_path-queue env s e sample_rollup reason now = sample_into-queue e.type _ e now
  off_path-queue env s e Decision.shed reason now = pressure_value-queue env _ now

  dispatch_off_path-queue :
      (env : Env F) (s : ServerState F) (e : Event F) (d : Decision) (reason : Reason F) (now : F)
      → (dispatch_off_path env s e d reason now).0.queue ≡ s.queue
  unfolding dispatch_off_path
  dispatch_off_path-queue env s e d reason now =
      let left : ServerState F = record s { in_flight = s.in_flight -ℤ pos 1 } in
      off_path-queue env (with_rung e.tier (value (decision_rung d)) left) e d reason now
      ∙ with_rung-queue e.tier (value (decision_rung d)) left

  pub served_alone-queue :
      (env : Env F) (s : ServerState F) (e : Event F) (d : Decision) (reason : Reason F) (p now : F)
      → (served_alone env s e d reason p now).0.queue ≡ s.queue
  unfolding served_alone serve completed
  served_alone-queue env s e stream_now reason p now = refl
  served_alone-queue env s e micro_batch reason p now =
      dispatch_off_path-queue env s e micro_batch reason now
  served_alone-queue env s e defer reason p now = dispatch_off_path-queue env s e defer reason now
  served_alone-queue env s e sample_rollup reason p now =
      dispatch_off_path-queue env s e sample_rollup reason now
  served_alone-queue env s e Decision.shed reason p now =
      dispatch_off_path-queue env s e Decision.shed reason now

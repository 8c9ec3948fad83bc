-- ===== src/Server2/Serving.antt =====
-- src/triage/server2.py: _serve, _serve_batch, _dispatch_off_path and _handle, as one worker runs
-- them while no other coroutine changes the state. The clock is asked once for each turn.
use vh26_crackers.Base.{
  ℕ, ◌+◌, pos, ◌-ℤ◌, Bool, true, false, List, [], ◌∷◌, ◌++◌, length, Option, none, some, Floats,
  ◌⊕◌, ◌⊗◌,
}
use vh26_crackers.Contracts.{
  Event, EventType, click, log, Tier, p0, p1, p2, Decision, stream_now, micro_batch, defer,
  sample_rollup,
}
use vh26_crackers.Decision.{Reason}
use vh26_crackers.Ladder.{value, decision_rung}
use vh26_crackers.Ladder.Reservoir.{Rollup, add}
use vh26_crackers.Server2.State.{ServerState, Env, Post, pressure_value, completed}

-- the state, the calls of ingress in their order, and whether no exception was raised
abbrev pub Served : Type 0 → Type 0
Served F = ServerState F × List (Post F) × Bool

module _ {F : Type 0} ⦃fl : Floats F⦄ where
  unfoldable pub serve : Env F → ServerState F → Event F → Reason F → F → F → Served F
  unfolding completed
  serve env s e reason p now =
      (completed env s e now, Post.ack (e ∷ []) stream_now reason p ∷ [], true)

  unfoldable pub complete_all : Env F → ServerState F → List (Event F) → F → ServerState F
  unfolding completed
  complete_all env s [] now = s
  complete_all env s (e ∷ es) now = complete_all env (completed env s e now) es now

  unfoldable pub serve_batch : Env F → ServerState F → List (Event F) → Reason F → F → F → Served F
  unfolding complete_all
  serve_batch env s batch reason p now =
      let done = complete_all env s batch now in
      (
        record done { batched_count = done.batched_count + length batch },
        Post.ack batch micro_batch reason p ∷ [],
        true,
      )

  -- `ladder_rung[tier] = rung`
  unfoldable pub with_rung : Tier → ℕ → ServerState F → ServerState F
  with_rung p0 n s = s
  with_rung p1 n s = record s { p1_rung = n }
  with_rung p2 n s = record s { p2_rung = n }

  unfoldable pub sampled : Event F → ServerState F → Option (Rollup F) → Served F
  sampled e s none = (s, Post.resolved e ∷ [], true)
  sampled e s (some r) = (
    record s {
      rollups_persisted_count = s.rollups_persisted_count + 1;
      weighted_click_count = elim e.type [
        | click ↦ s.weighted_click_count ⊕ fl.int (pos r.observed_count) ⊗ r.sample_weight
        | _ ↦ s.weighted_click_count
      ];
    },
    Post.rollup r ∷ Post.resolved e ∷ [],
    true,
  )

  -- there are reservoirs for clicks and logs only: another type raises KeyError
  unfoldable pub sample_into : EventType → ServerState F → Event F → F → Served F
  unfolding sampled add
  sample_into click s e now =
      let added = add s.click_reservoir e now in
      sampled e (record s { click_reservoir = added.0 }) added.1
  sample_into log s e now =
      let added = add s.log_reservoir e now in
      sampled e (record s { log_reservoir = added.0 }) added.1
  sample_into _ s e now = (s, [], false)

  unfoldable pub off_path : Env F → ServerState F → Event F → Decision → Reason F → F → Served F
  unfolding sample_into pressure_value
  off_path env s e defer reason now =
      (record s { deferred_count = s.deferred_count + 1 }, Post.deferred e reason ∷ [], true)
  off_path env s e sample_rollup reason now =
      sample_into e.type (record s { sampled_count = s.sampled_count + 1 }) e now
  off_path env s e Decision.shed reason now =
      let counted = record s {
        shed_count = s.shed_count + 1;
        shed_critical_count = elim e.tier [
          | p1 ↦ s.shed_critical_count + 1
          | _ ↦ s.shed_critical_count
        ];
      } in
      let at = pressure_value env counted now in
      (at.0, Post.shed e reason at.1 ∷ Post.resolved e ∷ [], true)
  off_path env s e _ reason now = (s, [], true)

  unfoldable pub dispatch_off_path :
      Env F → ServerState F → Event F → Decision → Reason F → F → Served F
  unfolding with_rung off_path
  dispatch_off_path env s e result reason now =
      off_path env
        (with_rung e.tier (value (decision_rung result))
          (record s { in_flight = s.in_flight -ℤ pos 1 }))
        e result reason now

  -- an event that does not join the batch
  unfoldable pub served_alone :
      Env F → ServerState F → Event F → Decision → Reason F → F → F → Served F
  unfolding serve dispatch_off_path
  served_alone env s e stream_now reason p now = serve env s e reason p now
  served_alone env s e d reason p now = dispatch_off_path env s e d reason now

  abbrev pub before : List (Post F) → Served F → Served F
  before posts (s, more, fine) = (s, posts ++ more, fine)

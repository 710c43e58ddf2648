-- ===== src/Lanes/Cancelled.antt =====
-- After `cancel` nothing that the filter names is queued or running (server/services/lanes.ts).
use velarix_bot.Prelude.{
  ℕ, ◌<◌, String, false, List, [], ◌∷◌, some, arith, ◌≡◌, ◌∙◌, Bool-cases, inl, inr, subst,
}
use velarix_bot.Prelude.Dict.{get}
use velarix_bot.LaneKeys.{SchedulerLane, user, channel, agent, background}
use velarix_bot.Lanes.State.{Sched}
use velarix_bot.Lanes.Calls.{
  LaneCancelFilter, matches, cancel_queued, cancel_running, interrupt_all, cancel_queues, cancel,
  is_blank,
}
use velarix_bot.Lanes.Invariant.{occurs, Inv}
use velarix_bot.Lanes.Safety.{queue-Known, cancel_lane-Inv, cancel_queues-Inv}
use velarix_bot.Lanes.Cancelling.{
  Shrinks, cancel_queued-Shrinks, cancel_queued-clears, cancel_running-Shrinks,
  cancel_running-clears,
}

-- What stands in the queue of `lane` does not match.
abbrev IsClear : LaneCancelFilter → SchedulerLane → Sched → Type 0
IsClear f lane s = (r : ℕ) → 0 < occurs r (s.queues lane) → matches f (s.heap r) ≡ false

module _ (f : LaneCancelFilter) where
  cancel_lane-Shrinks :
      (lane : SchedulerLane) (s : Sched) → Inv s → Shrinks f s (cancel_queued f (s.queues lane) s)
  cancel_lane-Shrinks lane s v =
      cancel_queued-Shrinks f (s.queues lane) s
        (queue-Known s lane (s.queues lane) (λ r. omega arith) v) v

  cancel_lane-IsClear :
      (lane : SchedulerLane) (s : Sched)
      → Inv s
      → IsClear f lane (cancel_queued f (s.queues lane) s)
  cancel_lane-IsClear lane s v r h =
      cancel_queued-clears f (s.queues lane) s lane r
        (queue-Known s lane (s.queues lane) (λ q. omega arith) v) v
        (omega (arith, (cancel_lane-Shrinks lane s v).queue_le lane r)) h

  stays-IsClear :
      (lane : SchedulerLane) (s s' : Sched) → Shrinks f s s' → IsClear f lane s → IsClear f lane s'
  stays-IsClear lane s s' h c r q = h.same_match r ∙ c r (omega (arith, h.queue_le lane r))

  cancel_queues-IsClear :
      (s : Sched) (lane : SchedulerLane) → Inv s → IsClear f lane (cancel_queues f s)
  unfolding cancel_queues
  cancel_queues-IsClear s lane v =
      let s1 = cancel_queued f (s.queues user) s in
      let s2 = cancel_queued f (s1.queues channel) s1 in
      let s3 = cancel_queued f (s2.queues agent) s2 in
      let s4 = cancel_queued f (s3.queues background) s3 in
      let v1 = cancel_lane-Inv f user s v in
      let v2 = cancel_lane-Inv f channel s1 v1 in
      let v3 = cancel_lane-Inv f agent s2 v2 in
      let h2 = cancel_lane-Shrinks channel s1 v1 in
      let h3 = cancel_lane-Shrinks agent s2 v2 in
      let h4 = cancel_lane-Shrinks background s3 v3 in
      (elim lane as (λ l. IsClear f l s4) [
        | user ↦ stays-IsClear user s3 s4 h4 (
            stays-IsClear user s2 s3 h3
              (stays-IsClear user s1 s2 h2 (cancel_lane-IsClear user s v)))
        | channel ↦
            stays-IsClear channel s3 s4 h4
              (stays-IsClear channel s2 s3 h3 (cancel_lane-IsClear channel s1 v1))
        | agent ↦ stays-IsClear agent s3 s4 h4 (cancel_lane-IsClear agent s2 v2)
        | background ↦ cancel_lane-IsClear background s3 v3
      ])

  -- No queued item and no running turn is one that the filter names.
  abbrev pub IsCleared : Sched → Type 0
  IsCleared s =
      ((lane : SchedulerLane) (r : ℕ) → 0 < occurs r (s.queues lane) → matches f (s.heap r) ≡ false)
      × ((bot : String) (r : ℕ) → get bot s.running ≡ some r → matches f (s.heap r) ≡ false)

  interrupt_all-IsCleared :
      (bots : List String) (s : Sched) → IsCleared s → IsCleared (interrupt_all bots s)
  unfolding interrupt_all
  interrupt_all-IsCleared [] s h = h
  interrupt_all-IsCleared (b ∷ bots) s h = interrupt_all-IsCleared bots _ h

-- A `cancel` that names anything clears it: after it, no item that the filter matches is queued in
-- any lane and no turn that it matches holds a bot.
pub cancel_clears :
    (f : LaneCancelFilter) (s s' : Sched) → Inv s → cancel f s ≡ some s' → IsCleared f s'
unfolding cancel
cancel_clears f s s' v e =
    let cleared = cancel_queues f s in
    let inv = cancel_queues-Inv f s v in
    let stopped = cancel_running f cleared.running cleared [] in
    let shrinks = cancel_running-Shrinks f cleared.running cleared [] inv.running_known inv in
    elim (Bool-cases (is_blank f)) [
      | inl blank ↦ absurd (ground arith)
      | inr given ↦
          let same : interrupt_all stopped.1 stopped.0 ≡ s' = ground arith in
          subst (IsCleared f) same (
            interrupt_all-IsCleared f stopped.1 stopped.0 (
              λ lane.
                  stays-IsClear f lane cleared stopped.0 shrinks (cancel_queues-IsClear f s lane v),
              λ bot r h.
                  cancel_running-clears f cleared.running cleared [] bot r inv.running_known inv
                    (shrinks.running_sub bot r h) h,
            ))
    ]

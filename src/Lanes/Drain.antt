-- ===== src/Lanes/Drain.antt =====
-- `pump` ends, and leaves nothing that could run (server/services/lanes.ts).
use velarix_bot.Prelude.{
  ℕ, zero, suc, ◌+◌, ◌%◌, ◌≤◌, String, Bool, false, List, [], ◌∷◌, none, some, arith, ◌≡◌, refl,
  inl, inr, any, length, Option-cases, Bool-cases,
}
use velarix_bot.LaneKeys.{SchedulerLane, user, channel, agent, background}
use velarix_bot.Lanes.State.{Sched, lane_at, set_queue, emit, persist}
use velarix_bot.Lanes.Pump.{
  take_first, eligible, pick_from, pick_next, dispatch, pump_loop, queued_total, pump,
}
use velarix_bot.Lanes.Fairness.{pick_next-fair}

take_first-length :
    (p : ℕ → Bool) (rs : List ℕ) {r : ℕ} {rest : List ℕ}
    → take_first p rs ≡ some (r, rest)
    → length rest + 1 ≡ length rs
unfolding take_first
take_first-length p [] e = ground arith
take_first-length p (q ∷ qs) {r} {rest} e = elim (Option-cases (take_first p qs)) [
  | inl n ↦ ground arith
  | inr ((r', rest'), n) ↦ ground (arith, take_first-length p qs n)
]

set_queue-total :
    (lane : SchedulerLane) (s s' : Sched) (q : List ℕ)
    → s'.queues ≡ set_queue s.queues lane q
    → length q + 1 ≡ length (s.queues lane)
    → queued_total s' + 1 ≡ queued_total s
set_queue-total user s s' q e h = rw e (omega arith)
set_queue-total channel s s' q e h = rw e (omega arith)
set_queue-total agent s s' q e h = rw e (omega arith)
set_queue-total background s s' q e h = rw e (omega arith)

pick_from-total :
    (busy : String → Bool) (s : Sched) (left offset : ℕ) {r : ℕ} {s' : Sched}
    → pick_from busy s left offset ≡ some (r, s')
    → queued_total s' + 1 ≡ queued_total s
unfolding pick_from
pick_from-total busy s zero offset e = ground arith
pick_from-total busy s (suc left) offset {r} {s'} e =
    let lane = lane_at ((s.cursor + offset) % 4) in
    elim (Option-cases (take_first (eligible busy s) (s.queues lane))) [
      | inl n ↦ pick_from-total busy s left (offset + 1) (rw (n, pick_from) at e)
      | inr ((q, rest), n) ↦
          let picked = rw (n, pick_from) at e in
          set_queue-total lane s s' rest (ground arith) (take_first-length _ _ n)
    ]

-- Each pick takes one item from the queues.
pick_next-total :
    (busy : String → Bool) (s : Sched) {r : ℕ} {s' : Sched}
    → pick_next busy s ≡ some (r, s')
    → queued_total s' + 1 ≡ queued_total s
unfolding pick_next
pick_next-total busy s e = pick_from-total busy s 4 0 e

dispatch-queues : (r : ℕ) (s : Sched) → (dispatch r s).queues ≡ s.queues
unfolding dispatch emit persist
dispatch-queues r s = refl

dispatched-total : (r : ℕ) (s : Sched) → queued_total (dispatch r s) ≡ queued_total s
dispatched-total r s = rw (dispatch-queues r s) refl

any_empty : (p : ℕ → Bool) (rs : List ℕ) → length rs ≡ 0 → any p rs ≡ false
any_empty p [] e = refl
any_empty p (r ∷ rs) e = absurd (omega arith)

queue-le-total : (s : Sched) (lane : SchedulerLane) → length (s.queues lane) ≤ queued_total s
queue-le-total s user = omega arith
queue-le-total s channel = omega arith
queue-le-total s agent = omega arith
queue-le-total s background = omega arith

-- No queued item, in any lane, is of a bot that is free.
abbrev pub IsDrained : (String → Bool) → Sched → Type 0
IsDrained busy s = (lane : SchedulerLane) → any (eligible busy s) (s.queues lane) ≡ false

pick_from-cursor :
    (busy : String → Bool) (s : Sched) (left offset : ℕ) {r : ℕ} {s' : Sched}
    → pick_from busy s left offset ≡ some (r, s')
    → s'.cursor ≤ 4
unfolding pick_from
pick_from-cursor busy s zero offset e = ground arith
pick_from-cursor busy s (suc left) offset {r} {s'} e =
    elim (Option-cases
      (take_first (eligible busy s) (s.queues (lane_at ((s.cursor + offset) % 4))))) [
        | inl n ↦ pick_from-cursor busy s left (offset + 1) (rw (n, pick_from) at e)
        | inr ((q, rest), n) ↦ let picked = rw (n, pick_from) at e in ground arith
      ]

pick_next-cursor :
    (busy : String → Bool) (s : Sched) {r : ℕ} {s' : Sched}
    → pick_next busy s ≡ some (r, s')
    → s'.cursor ≤ 4
unfolding pick_next
pick_next-cursor busy s e = pick_from-cursor busy s 4 0 e

dispatch-cursor : (r : ℕ) (s : Sched) → (dispatch r s).cursor ≡ s.cursor
unfolding dispatch emit persist
dispatch-cursor r s = refl

none_left :
    (busy : String → Bool) (s : Sched) → s.cursor ≤ 4 → pick_next busy s ≡ none → IsDrained busy s
none_left busy s c e lane = elim (Bool-cases (any (eligible busy s) (s.queues lane))) [
  | inl some_left ↦
      let (r, s', served, picked, serves, nearer) = pick_next-fair busy s lane c some_left in
      absurd (cc)
  | inr nothing ↦ nothing
]

pump_loop-drains :
    (fuel n : ℕ) (busy : ℕ → String → Bool) (s : Sched)
    → s.cursor ≤ 4
    → queued_total s ≤ fuel
    → (k : ℕ) × (k + queued_total (pump_loop fuel n busy s) ≡ queued_total s)
      × IsDrained (busy (n + k)) (pump_loop fuel n busy s)
unfolding pump_loop
pump_loop-drains zero n busy s c h = (
  0,
  omega arith,
  λ lane.
      any_empty (eligible (busy (n + 0)) s) (s.queues lane) (omega (arith, queue-le-total s lane)),
)
pump_loop-drains (suc fuel) n busy s c h = elim (Option-cases (pick_next (busy n) s)) [
  | inl e ↦
      let same : n + 0 ≡ n = omega arith in
      rw (e, pump_loop) (0, omega arith, rw same (none_left (busy n) s c e))
  | inr ((r, s'), e) ↦
      let fewer = pick_next-total (busy n) s e in
      let (k, count, drained) =
        pump_loop-drains fuel (n + 1) busy (dispatch r s')
          (rw (dispatch-cursor r s') (pick_next-cursor (busy n) s e))
          (rw (dispatch-queues r s') (omega arith)) in
      let next : n + 1 + k ≡ n + suc k = omega arith in
      rw (e, pump_loop) (suc k, omega (arith, dispatched-total r s'), rw next at drained)
]

-- `pump` comes to an end with every lane drained: with k the number of items that it took from the
-- queues, by which their total has shrunk, no item that is still queued in any lane is of a bot that
-- neither runs a turn nor is busy by what `isBusy` answers after k dispatches.
pub pump-drains :
    (busy : ℕ → String → Bool) (s : Sched)
    → s.cursor ≤ 4
    → (k : ℕ) × (k + queued_total (pump busy s) ≡ queued_total s) × IsDrained (busy k) (pump busy s)
unfolding pump
pump-drains busy s c =
    let (k, count, drained) = pump_loop-drains (queued_total s) 0 busy s c (omega arith) in
    let same : 0 + k ≡ k = omega arith in (k, count, rw same at drained)

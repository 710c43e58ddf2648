-- ===== src/Lanes/Pump.antt =====
-- `pickNext`, the part of `dispatch` before its first wait, and `pump` (server/services/lanes.ts).
-- `isBusy` belongs to the turn service: what it answers is an argument. A dispatched turn may change
-- it, so `pump` is given the answers after each number of dispatches.
use velarix_bot.Prelude.{
  ℕ, zero, suc, ◌+◌, ◌%◌, String, Bool, not, List, [], ◌∷◌, ◌++◌, ◌&&◌, Option, none, some,
  if◌then◌else◌, is_some, length,
}
use velarix_bot.Prelude.Dict.{get, set}
use velarix_bot.LaneKeys.{SchedulerLane, user, channel, agent, background, running}
use velarix_bot.LaneKeys as LaneKeys
use velarix_bot.Lanes.State.{
  LaneItem, Sched, awaiting_run, ran, lane_at, update, set_queue, emit, persist, output,
}
use velarix_bot.Lanes.State as State

-- The first item that passes the test, and the rest: `findIndex` and `splice`.
unfoldable pub take_first : (ℕ → Bool) → List ℕ → Option (ℕ × List ℕ)
take_first p [] = none
take_first p (r ∷ rs) =
    let rest = take_first p rs in
    if p r then some (r, rs) else elim rest [ none ↦ none | some (q, qs) ↦ some (q, r ∷ qs) ]

abbrev pub eligible : (String → Bool) → Sched → ℕ → Bool
eligible busy s r =
    let bot = (s.heap r).bot_id in not (is_some (get bot s.running)) && not (busy bot)

-- The rounds of `pickNext`, of which `left` are left and the next has `step = offset + 1`.
unfoldable pub pick_from : (String → Bool) → Sched → ℕ → ℕ → Option (ℕ × Sched)
pick_from busy s zero offset = none
pick_from busy s (suc left) offset =
    let at = (s.cursor + offset) % 4 in
    let later = pick_from busy s left (offset + 1) in
    elim (take_first (eligible busy s) (s.queues (lane_at at))) [
      | none ↦ later
      | some (r, rest) ↦
          some (r, record s { queues = set_queue s.queues (lane_at at) rest; cursor = at + 1 })
    ]

unfoldable pub pick_next : (String → Bool) → Sched → Option (ℕ × Sched)
unfolding pick_from
pick_next busy s = pick_from busy s 4 0

-- `dispatch` up to the call of `run`.
unfoldable pub dispatch : ℕ → Sched → Sched
dispatch r s =
    let item = s.heap r in
    let marked = record s {
      heap = update s.heap r (record item { status = State.running });
      running = set item.bot_id r s.running;
    } in
    let told = emit r (persist r LaneKeys.running marked) in
    record told { phase = update told.phase r awaiting_run; outputs = told.outputs ++ ran r ∷ [] }

-- The loop of `pump`: `busy n` answers `isBusy` when `n` turns have been dispatched.
unfoldable pub pump_loop : ℕ → ℕ → (ℕ → String → Bool) → Sched → Sched
pump_loop zero n busy s = s
pump_loop (suc fuel) n busy s = elim (pick_next (busy n) s) [
  | none ↦ s
  | some (r, s') ↦ pump_loop fuel (n + 1) busy (dispatch r s')
]

abbrev pub queued_total : Sched → ℕ
queued_total s =
    length (s.queues user)
    + length (s.queues channel)
    + length (s.queues agent)
    + length (s.queues background)

-- Each round takes an item from a queue, so as many rounds as there are queued items are enough.
unfoldable pub pump : (ℕ → String → Bool) → Sched → Sched
unfolding pump_loop
pump busy s = pump_loop (queued_total s) 0 busy s

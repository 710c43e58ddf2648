-- ===== src/Lanes/Tests.antt =====
-- Runs of the lane scheduler, and the theorems at concrete inputs.
use velarix_bot.Prelude.{
  ◌+◌, ℕ, String, Bool, false, List, [], ◌∷◌, Option, none, some, arith, ◌≡◌, refl, trim,
  utf16_length,
}
use velarix_bot.Prelude.Dict.{get, set, delete}
use velarix_bot.LaneKeys.{
  SchedulerLane, user, channel, background, Table, RawRow, LaneIdempotencyRow, select, to_row,
}
use velarix_bot.LaneKeys as LaneKeys
use velarix_bot.Lanes.Opts.{LaneTurnOpts, no_opts}
use velarix_bot.Lanes.State.{
  Sched, emit, persist, remember, remember_cancelled, remove_queued, drop_running,
}
use velarix_bot.Lanes.Pump.{queued_total, take_first, pick_next, dispatch, pump}
use velarix_bot.Lanes.Calls.{
  LaneEnqueueInput, LaneCancelFilter, duplicate, enqueue, matches, cancel, mark_cancelled,
  cancel_queued, cancel_running, returned, is_blank,
}
use velarix_bot.Lanes.Drain.{IsDrained, pump-drains}
use velarix_bot.Lanes.Invariant.{Inv}
use velarix_bot.Lanes.History.{
  Event, enqueues, cancels, returns, pumps, step, run, create_lane_scheduler, run-Inv,
}
use velarix_bot.Lanes.Exclusive.{running_kept}
use velarix_bot.Lanes.Cancelled.{IsCleared, cancel_clears}
use velarix_bot.Lanes.Dedupe.{enqueue_duplicate}

abbrev asks : Option SchedulerLane → String → LaneEnqueueInput
asks lane bot = record {
  lane = lane;
  bot_id = bot;
  text = "hi";
  opts = none;
  idempotency_key = none;
  custom_run = false;
}

abbrev free : ℕ → String → Bool
free n bot = false

-- Two turns of one bot and one of another.
abbrev three_calls : List Event
three_calls =
    enqueues free none "w0" 1 (asks (some user) "a")
    ∷ enqueues free none "w1" 2 (asks (some background) " a ")
    ∷ enqueues free none "w2" 3 (asks (some channel) "b")
    ∷ []

abbrev busy_sched : Sched
busy_sched = run (create_lane_scheduler []) three_calls

one_turn_per_bot :
    (busy_sched.running ≡ ("a", 0) ∷ ("b", 2) ∷ []) × (busy_sched.queues background ≡ 1 ∷ [])
unfolding run step enqueue pump pick_next take_first dispatch emit persist get set trim
one_turn_per_bot = (refl, refl)

abbrev all_of_a : LaneCancelFilter
all_of_a = record { work_id = none; bot_id = some "a"; lane = none }

after_cancel : (step busy_sched (cancels all_of_a)).running ≡ ("b", 2) ∷ []
unfolding run step enqueue pump pick_next take_first dispatch emit persist get set delete trim
    cancel matches mark_cancelled cancel_queued cancel_running remember remember_cancelled
    remove_queued drop_running
after_cancel = refl

next_turn :
    (step (step busy_sched (returns (λ b. false) 0 none)) (pumps free)).running
    ≡ ("b", 2) ∷ ("a", 1) ∷ []
unfolding run step enqueue pump pick_next take_first dispatch emit persist get set delete trim
    returned drop_running
next_turn = refl

abbrev keyed : LaneTurnOpts
keyed = record no_opts { idempotency_key = some "k"; request_id = some "r" }

-- A scheduler with one queued item, of a bot that is free.
abbrev waiting : Sched
waiting = record (create_lane_scheduler []) { queues = λ lane. 0 ∷ []; next_ref = 1; cursor = 2 }

pump-drains_example :
    (k : ℕ) × (k + queued_total (pump free waiting) ≡ queued_total waiting)
    × IsDrained (free k) (pump free waiting)
pump-drains_example = pump-drains free waiting (omega arith)

run-Inv_example : Inv busy_sched
run-Inv_example = run-Inv [] three_calls

running_kept_example : get "b" (step busy_sched (cancels all_of_a)).running ≡ some 2
unfolding run step enqueue pump pick_next take_first dispatch emit persist get set trim matches
running_kept_example = running_kept busy_sched (cancels all_of_a) "b" 2 refl refl

cancel_clears_example : IsCleared all_of_a (step busy_sched (cancels all_of_a))
unfolding step cancel is_blank trim
cancel_clears_example =
    cancel_clears all_of_a busy_sched (step busy_sched (cancels all_of_a)) (run-Inv [] three_calls)
      refl

abbrev retried : LaneEnqueueInput
retried = record (asks (some user) "a") { idempotency_key = some "k1" }

abbrev held : RawRow
held = record {
  key = "k1";
  work_id = "w0";
  lane = "channel";
  bot_id = "a";
  created_at = 1;
  status = "done";
}

abbrev held_row : LaneIdempotencyRow
held_row = record {
  key = "k1";
  work_id = "w0";
  lane = channel;
  bot_id = "a";
  created_at = 1;
  status = LaneKeys.done;
}

enqueue_duplicate_example :
    enqueue free none "w9" 7 retried (create_lane_scheduler (held ∷ []))
    ≡ (create_lane_scheduler (held ∷ []), duplicate held_row)
unfolding trim utf16_length select to_row
enqueue_duplicate_example =
    enqueue_duplicate free none "w9" 7 retried user (create_lane_scheduler (held ∷ [])) held
      held_row refl refl refl (refl, refl) refl refl

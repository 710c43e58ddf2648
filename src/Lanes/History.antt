-- ===== src/Lanes/History.antt =====
-- The scheduler under any sequence of calls and completions (server/services/lanes.ts): the
-- invariant, and that a bot's running turn is only ended by itself or by a cancel that names it.
use velarix_bot.Prelude.{
  ℕ, ◌<◌, String, Bool, true, false, not, List, [], ◌∷◌, ◌&&◌, Option, none, arith, ◌≡◌, ◌≢◌, refl,
  ◌===◌, if◌then◌else◌, Option-cases, Bool-cases, inl, inr, get_or_else,
}
use velarix_bot.Prelude.Dict.{get}
use velarix_bot.LaneKeys.{Table, user}
use velarix_bot.Lanes.State.{Phase, idle, awaiting_run, awaiting_idle, queued, TurnStart, Sched}
use velarix_bot.Lanes.Pump.{pump}
use velarix_bot.Lanes.Calls.{
  LaneEnqueueInput, LaneCancelFilter, enqueue, cancel, returned, failed, resumed,
}
use velarix_bot.Lanes.Invariant.{occurs, Inv}
use velarix_bot.Lanes.Keeps.{finish-Inv, returned-Inv, failed-Inv}
use velarix_bot.Lanes.Safety.{pump-Inv, enqueue-Inv, cancel-Inv}

-- What happens to the scheduler. The answers of `isBusy`, of `newId` and of the clock come with it.
pub data Event : Type 0 where
  enqueues : (ℕ → String → Bool) → Option Table → String → ℕ → LaneEnqueueInput → Event
  cancels : LaneCancelFilter → Event
  returns : (String → Bool) → ℕ → Option TurnStart → Event
  fails : ℕ → String → Event
  resumes : (String → Bool) → String → ℕ → Event
  pumps : (ℕ → String → Bool) → Event

abbrev is_awaiting_run : Phase → Bool
is_awaiting_run awaiting_run = true
is_awaiting_run _ = false

abbrev is_awaiting_idle : Phase → Bool
is_awaiting_idle awaiting_idle = true
is_awaiting_idle _ = false

-- A run ends once, and only a dispatch that waits for its bot is resumed.
unfoldable pub step : Sched → Event → Sched
step s (enqueues busy raced work_id at input) = (enqueue busy raced work_id at input s).0
step s (cancels f) = get_or_else (cancel f s) s
step s (returns busy r result) = if is_awaiting_run (s.phase r) then returned busy r result s else s
step s (fails r message) = if is_awaiting_run (s.phase r) then failed r message s else s
step s (resumes busy noted r) = if is_awaiting_idle (s.phase r) then resumed busy noted r s else s
step s (pumps busy) = pump busy s

unfoldable pub run : Sched → List Event → Sched
run s [] = s
run s (e ∷ es) = run (step s e) es

-- A fresh scheduler over a table of keys. The heap has no item yet.
abbrev pub create_lane_scheduler : Table → Sched
create_lane_scheduler keys = record {
  heap = λ r. record {
    work_id = "";
    lane = user;
    bot_id = "";
    text = "";
    opts = none;
    idempotency_key = none;
    custom_run = false;
    status = queued;
    queued_at = 0;
    reason = none;
    started = none;
  };
  next_ref = 0;
  queues = λ lane. [];
  running = [];
  cancelled = [];
  cursor = 0;
  keys = keys;
  phase = λ r. idle;
  outputs = [];
}

create-Inv : (keys : Table) → Inv (create_lane_scheduler keys)
unfolding get occurs
create-Inv keys = record {
  running_ok = λ bot r e. absurd (ground arith);
  queued_ok = λ lane r e. absurd (omega arith);
  queued_once = λ lane r. omega arith;
  cancelled_ok = λ r e. absurd (omega arith);
  cancelled_short = omega arith;
  cursor_ok = omega arith;
  running_known = tt;
  dispatched_ok = λ r e. absurd (e refl);
}

resumed-Inv :
    (busy : String → Bool) (noted : String) (r : ℕ) (s : Sched)
    → (s.heap r).status ≢ queued
    → r < s.next_ref
    → Inv s
    → Inv (resumed busy noted r s)
unfolding resumed
resumed-Inv busy noted r s began known v =
    elim (Bool-cases (noted === (s.heap r).bot_id && not (busy (s.heap r).bot_id))) [
      | inl go ↦ rw (go, resumed) (finish-Inv r s began known v)
      | inr wait ↦ rw (wait, resumed) v
    ]

began_of_run : (s : Sched) (r : ℕ) → is_awaiting_run (s.phase r) ≡ true → s.phase r ≢ idle
began_of_run s r e h = ground arith

began_of_idle : (s : Sched) (r : ℕ) → is_awaiting_idle (s.phase r) ≡ true → s.phase r ≢ idle
began_of_idle s r e h = ground arith

-- Every event keeps the scheduler's invariant.
pub step-Inv : (s : Sched) (e : Event) → Inv s → Inv (step s e)
unfolding step
step-Inv s (enqueues busy raced work_id at input) v = enqueue-Inv busy raced work_id at input s v
step-Inv s (cancels f) v = elim (Option-cases (cancel f s)) [
  | inl e ↦ rw (e, step) v
  | inr (s', e) ↦ rw (e, step) (cancel-Inv f s e v)
]
step-Inv s (returns busy r result) v = elim (Bool-cases (is_awaiting_run (s.phase r))) [
  | inl e ↦
      rw (e, step)
        (let (began, known) = v.dispatched_ok r (began_of_run s r e) in
          returned-Inv busy r result s began known v)
  | inr e ↦ rw (e, step) v
]
step-Inv s (fails r message) v = elim (Bool-cases (is_awaiting_run (s.phase r))) [
  | inl e ↦
      rw (e, step)
        (let (began, known) = v.dispatched_ok r (began_of_run s r e) in
          failed-Inv r message s v known began)
  | inr e ↦ rw (e, step) v
]
step-Inv s (resumes busy noted r) v = elim (Bool-cases (is_awaiting_idle (s.phase r))) [
  | inl e ↦
      rw (e, step)
        (let (began, known) = v.dispatched_ok r (began_of_idle s r e) in
          resumed-Inv busy noted r s began known v)
  | inr e ↦ rw (e, step) v
]
step-Inv s (pumps busy) v = pump-Inv busy s v

run_from-Inv : (s : Sched) (es : List Event) → Inv s → Inv (run s es)
unfolding run
run_from-Inv s [] v = v
run_from-Inv s (e ∷ es) v = run_from-Inv (step s e) es (step-Inv s e v)

-- After any history of calls: the running map holds under each bot a turn of that bot whose status
-- is running; a queued item stands in the queue of its lane, once, with status queued, so it is in
-- no other queue and not running; the cancelled items have status cancelled and are 50 at most.
pub run-Inv : (keys : Table) (es : List Event) → Inv (run (create_lane_scheduler keys) es)
run-Inv keys es = run_from-Inv (create_lane_scheduler keys) es (create-Inv keys)

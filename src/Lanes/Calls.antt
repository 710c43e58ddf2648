-- ===== src/Lanes/Calls.antt =====
-- `enqueue`, `cancel`, `noteIdle` and the part of `dispatch` after its waits
-- (server/services/lanes.ts). A microtask that pumps is a call of `pump` that comes later.
use velarix_bot.Prelude.{
  ℕ, suc, String, Bool, true, false, not, List, [], ◌∷◌, ◌++◌, ◌&&◌, ◌||◌, Option, none, some,
  ◌===◌, if◌then◌else◌, truthy, trim, get_or_else, is_some,
}
use velarix_bot.Prelude.Dict.{Dict}
use velarix_bot.LaneKeys.{
  SchedulerLane, user, channel, agent, background, Table, LaneIdempotencyRow, ClaimError, claim,
  claimed, claim_error,
}
use velarix_bot.LaneKeys as LaneKeys
use velarix_bot.Lanes.Opts.{LaneTurnOpts, turn_opts_for_lane}
use velarix_bot.Lanes.State.{
  LaneWorkStatus, queued, running, cancelled, TurnStart, LaneItem, awaiting_idle, ended, Sched,
  started_gate, settled_ok, settled_error, interrupted, update, set_queue, same_lane, emit, persist,
  remember_cancelled, remove_queued, holds_bot, drop_running, output,
}
use velarix_bot.Lanes.Pump.{pump}

-- `lane` is none where the given text names no lane.
pub record LaneEnqueueInput : Type 0 where
  pub lane : Option SchedulerLane
  pub bot_id : String
  pub text : String
  pub opts : Option LaneTurnOpts
  pub idempotency_key : Option String
  pub custom_run : Bool

pub data EnqueueResult : Type 0 where
  bot_id_required unknown_lane : EnqueueResult
  key_failed : ClaimError → EnqueueResult
  duplicate : LaneIdempotencyRow → EnqueueResult
  accepted : ℕ → EnqueueResult

-- The item is built, queued, announced, and the lanes are pumped.
unfoldable pub push_item : (ℕ → String → Bool) → LaneItem → Sched → Sched
push_item busy item s =
    let r = s.next_ref in
    pump busy (
      emit r (record s {
        heap = update s.heap r item;
        next_ref = suc r;
        queues = set_queue s.queues item.lane (s.queues item.lane ++ r ∷ []);
      }))

unfoldable pub claim_key :
    String → String → SchedulerLane → String → ℕ → Option Table → Table → Table × LaneKeys.Claim
claim_key key work_id lane bot_id queued_at raced keys =
    claim
      (record {
        key = key;
        work_id = work_id;
        lane = lane;
        bot_id = bot_id;
        created_at = queued_at;
      })
      raced keys

-- The trimmed key, which is blank where none is given.
abbrev pub key_of : LaneEnqueueInput → String
key_of input = trim (get_or_else input.idempotency_key "")

unfoldable pub item_of : String → ℕ → LaneEnqueueInput → SchedulerLane → LaneItem
item_of work_id queued_at input lane = record {
  work_id = work_id;
  lane = lane;
  bot_id = trim input.bot_id;
  text = input.text;
  opts = turn_opts_for_lane lane input.opts;
  idempotency_key = if truthy (key_of input) then some (key_of input) else none;
  custom_run = input.custom_run;
  status = queued;
  queued_at = queued_at;
  reason = none;
  started = none;
}

-- After `keys.claim`: an error is thrown, a held key ends the call, a new one lets the item in.
unfoldable pub queue_claimed :
    (ℕ → String → Bool) → LaneItem → Sched → Table × LaneKeys.Claim → Sched × EnqueueResult
unfolding push_item
queue_claimed busy item s (keys, claim_error e) = (record s { keys = keys }, key_failed e)
queue_claimed busy item s (keys, claimed row created) =
    if created
    then (push_item busy item (record s { keys = keys }), accepted s.next_ref)
    else (record s { keys = keys }, duplicate row)

unfoldable pub enqueue_in :
    (ℕ → String → Bool)
    → Option Table
    → String
    → ℕ
    → LaneEnqueueInput
    → SchedulerLane
    → Sched
    → Sched × EnqueueResult
unfolding push_item item_of queue_claimed
enqueue_in busy raced work_id queued_at input lane s =
    let item = item_of work_id queued_at input lane in
    if not (truthy (key_of input))
    then (push_item busy item s, accepted s.next_ref)
    else queue_claimed busy item s
        (claim_key (key_of input) work_id lane (trim input.bot_id) queued_at raced s.keys)

-- `work_id` is what `newId` returns, `queued_at` the clock, and `raced` as for `claim`.
unfoldable pub enqueue :
    (ℕ → String → Bool)
    → Option Table
    → String
    → ℕ
    → LaneEnqueueInput
    → Sched
    → Sched × EnqueueResult
unfolding enqueue_in
enqueue busy raced work_id queued_at input s =
    if not (truthy (trim input.bot_id)) then (s, bot_id_required) else elim input.lane [
      | none ↦ (s, unknown_lane)
      | some lane ↦ enqueue_in busy raced work_id queued_at input lane s
    ]

abbrev pub is_cancelled : LaneWorkStatus → Bool
is_cancelled cancelled = true
is_cancelled _ = false

abbrev pub is_queued : LaneWorkStatus → Bool
is_queued queued = true
is_queued _ = false

abbrev pub is_running : LaneWorkStatus → Bool
is_running running = true
is_running _ = false

abbrev pub with_reason : LaneItem → String → LaneItem
with_reason item why = record item { status = cancelled; reason = some why }

-- The state after `markCancelled`; it returns whether the item was running.
unfoldable pub mark_cancelled : ℕ → String → Sched → Sched
mark_cancelled r why s =
    let marked = record s { heap = update s.heap r (with_reason (s.heap r) why) } in
    let out = drop_running r (remove_queued r marked) in
    let told = emit r (remember_cancelled r (persist r LaneKeys.cancelled out)) in
    if is_cancelled (s.heap r).status
    then s
    else output (settled_error r) (output (started_gate r (s.heap r).started) told)

pub record LaneCancelFilter : Type 0 where
  pub work_id : Option String
  pub bot_id : Option String
  pub lane : Option SchedulerLane

-- A text of the filter that is blank does not count.
abbrev pub meets : Option String → String → Bool
meets want got = let w = trim (get_or_else want "") in not (truthy w) || got === w

unfoldable pub matches : LaneCancelFilter → LaneItem → Bool
matches f item =
    meets f.work_id item.work_id
    && meets f.bot_id item.bot_id
    && elim f.lane [ none ↦ true | some lane ↦ same_lane item.lane lane ]

unfoldable pub is_blank : LaneCancelFilter → Bool
is_blank f =
    not (truthy (trim (get_or_else f.work_id "")))
    && not (truthy (trim (get_or_else f.bot_id "")))
    && not (is_some f.lane)

-- The loop over the copy of one queue.
unfoldable pub cancel_queued : LaneCancelFilter → List ℕ → Sched → Sched
cancel_queued f [] s = s
cancel_queued f (r ∷ rs) s = cancel_queued f rs (
    if matches f (s.heap r) && is_queued (s.heap r).status
    then mark_cancelled r "cancelled: dropped from queue" s
    else s)

-- The loop over the copy of the running items, with the bots to interrupt.
unfoldable pub cancel_running :
    LaneCancelFilter → Dict ℕ → Sched → List String → Sched × List String
cancel_running f [] s bots = (s, bots)
cancel_running f ((b, r) ∷ rs) s bots =
    let hit = matches f (s.heap r) && is_running (s.heap r).status in
    cancel_running f rs
      (if hit then mark_cancelled r "cancelled: interrupted running turn" s else s)
      (if hit then bots ++ (s.heap r).bot_id ∷ [] else bots)

unfoldable pub interrupt_all : List String → Sched → Sched
interrupt_all [] s = s
interrupt_all (b ∷ bots) s = interrupt_all bots (output (interrupted b) s)

unfoldable pub cancel_queues : LaneCancelFilter → Sched → Sched
cancel_queues f s =
    let s1 = cancel_queued f (s.queues user) s in
    let s2 = cancel_queued f (s1.queues channel) s1 in
    let s3 = cancel_queued f (s2.queues agent) s2 in cancel_queued f (s3.queues background) s3

-- none is the error 400. A bot is interrupted once: its running item is one.
unfoldable pub cancel : LaneCancelFilter → Sched → Option Sched
unfolding interrupt_all cancel_queues is_blank
cancel f s =
    let dropped = cancel_queues f s in
    let (stopped, bots) = cancel_running f dropped.running dropped [] in
    if is_blank f then none else some (interrupt_all bots stopped)

-- The end of `dispatch`: `persist` and settle if the item is still running, then `finally`.
unfoldable pub finish : ℕ → Sched → Sched
finish r s =
    let settled = output (settled_ok r) (persist r LaneKeys.done s) in
    let out = if is_running (s.heap r).status then settled else s in
    let dropped = drop_running r out in record dropped { phase = update dropped.phase r ended }

-- The run of an item returns `result`, which is none where it is no turn start.
unfoldable pub returned : (String → Bool) → ℕ → Option TurnStart → Sched → Sched
unfolding finish
returned busy r result s =
    let item = s.heap r in
    let item' = if is_some result then record item { started = result } else item in
    let opened =
      output (started_gate r item'.started) (record s { heap = update s.heap r item' }) in
    if busy item.bot_id && holds_bot r s
    then record opened { phase = update opened.phase r awaiting_idle }
    else finish r opened

-- The run of an item throws.
unfoldable pub failed : ℕ → String → Sched → Sched
failed r message s =
    let marked = record s { heap = update s.heap r (with_reason (s.heap r) message) } in
    let told = emit r (remember_cancelled r (persist r LaneKeys.cancelled marked)) in
    let out = if is_running (s.heap r).status then told else s in
    let settled = output (settled_error r) (output (started_gate r (s.heap r).started) out) in
    let dropped = drop_running r settled in record dropped { phase = update dropped.phase r ended }

-- An item that waits for its bot goes on when the bot is noted idle and is not busy.
unfoldable pub resumed : (String → Bool) → String → ℕ → Sched → Sched
unfolding finish
resumed busy noted r s =
    if noted === (s.heap r).bot_id && not (busy (s.heap r).bot_id) then finish r s else s

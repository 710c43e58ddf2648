-- ===== src/Lanes/State.antt =====
-- The state of the lane scheduler (server/services/lanes.ts) and its helpers that touch one item.
-- A LaneItem is a mutable object that the queues, the running map, the cancelled list and the
-- dispatch in flight share, so items live on a heap and all of these hold references to it.
use velarix_bot.Prelude.{
  ℕ, zero, suc, String, Bool, false, List, [], ◌∷◌, ◌++◌, Option, none, some, ◌==◌, if◌then◌else◌,
  take,
}
use velarix_bot.Prelude.Dict.{Dict, get, delete}
use velarix_bot.LaneKeys.{
  SchedulerLane, user, channel, agent, background, Table, LaneKeyStatus, set_status,
}
use velarix_bot.Lanes.Opts.{LaneTurnOpts, request_id_of}

pub data LaneWorkStatus : Type 0 where
  queued running cancelled : LaneWorkStatus

pub record TurnStart : Type 0 where
  pub thread_id : String
  pub message_id : String

-- `custom_run` says that the item brings its own `run`.
pub record LaneItem : Type 0 where
  pub work_id : String
  pub lane : SchedulerLane
  pub bot_id : String
  pub text : String
  pub opts : Option LaneTurnOpts
  pub idempotency_key : Option String
  pub custom_run : Bool
  pub status : LaneWorkStatus
  pub queued_at : ℕ
  pub reason : Option String
  pub started : Option TurnStart

-- Where the `dispatch` of an item stands: not called, waiting for its run, waiting for the bot to
-- be idle, or over.
pub data Phase : Type 0 where
  idle awaiting_run awaiting_idle ended : Phase

-- What the scheduler does to the outside: a broadcast, a call of `run`, a settled promise, an
-- interrupted bot.
pub data Output : Type 0 where
  emitted : ℕ → LaneItem → Option String → Output
  ran : ℕ → Output
  started_gate : ℕ → Option TurnStart → Output
  settled_ok settled_error : ℕ → Output
  interrupted : String → Output

pub record Sched : Type 0 where
  pub heap : ℕ → LaneItem
  pub next_ref : ℕ
  pub queues : SchedulerLane → List ℕ
  pub running : Dict ℕ
  pub cancelled : List ℕ
  -- The source's cursor and 1, since that starts at -1.
  pub cursor : ℕ
  pub keys : Table
  pub phase : ℕ → Phase
  pub outputs : List Output

abbrev pub lane_index : SchedulerLane → ℕ
lane_index user = 0
lane_index channel = 1
lane_index agent = 2
lane_index background = 3

-- `SCHEDULER_LANES[i]`.
abbrev pub lane_at : ℕ → SchedulerLane
lane_at zero = user
lane_at (suc zero) = channel
lane_at (suc (suc zero)) = agent
lane_at (suc (suc (suc i))) = background

abbrev pub same_lane : SchedulerLane → SchedulerLane → Bool
same_lane a b = lane_index a == lane_index b

abbrev pub update {ℓ} : {A : Type ℓ} → (ℕ → A) → ℕ → A → ℕ → A
update f r v q = if q == r then v else f q

abbrev pub set_queue : (SchedulerLane → List ℕ) → SchedulerLane → List ℕ → SchedulerLane → List ℕ
set_queue queues lane q l = if same_lane l lane then q else queues l

abbrev pub cancelled_keep : ℕ
cancelled_keep = 50

-- `q.splice(q.indexOf(item), 1)`.
unfoldable pub remove_first : ℕ → List ℕ → List ℕ
remove_first r [] = []
remove_first r (q ∷ qs) = if q == r then qs else q ∷ remove_first r qs

unfoldable pub emit : ℕ → Sched → Sched
emit r s = record s {
  outputs = s.outputs ++ emitted r (s.heap r) (request_id_of (s.heap r).opts) ∷ [];
}

unfoldable pub persist : ℕ → LaneKeyStatus → Sched → Sched
persist r status s = record s {
  keys = elim (s.heap r).idempotency_key [
    | none ↦ s.keys
    | some key ↦ (set_status key status s.keys).0
  ];
}

-- `cancelled.unshift(item)`, and the cut to CANCELLED_KEEP.
unfoldable pub remember : ℕ → List ℕ → List ℕ
remember r xs = take cancelled_keep (r ∷ xs)

unfoldable pub remember_cancelled : ℕ → Sched → Sched
remember_cancelled r s = record s { cancelled = remember r s.cancelled }

unfoldable pub remove_queued : ℕ → Sched → Sched
unfolding remove_first
remove_queued r s =
    let lane = (s.heap r).lane in
    record s { queues = set_queue s.queues lane (remove_first r (s.queues lane)) }

-- `running.get(item.botId) === item`.
abbrev pub holds_bot : ℕ → Sched → Bool
holds_bot r s = elim (get (s.heap r).bot_id s.running) [ none ↦ false | some q ↦ q == r ]

unfoldable pub drop_running : ℕ → Sched → Sched
drop_running r s = record s {
  running = if holds_bot r s then delete (s.heap r).bot_id s.running else s.running;
}

abbrev pub output : Output → Sched → Sched
output o s = record s { outputs = s.outputs ++ o ∷ [] }

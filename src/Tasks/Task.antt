-- ===== src/Tasks/Task.antt =====
-- A task and what puts it in the active queue (server/agent-tasks.ts). Times are finite natural
-- numbers of milliseconds, so the tests of `Number.isFinite` hold.
use Prim.Native.Char.{code}
use velarix_bot.Prelude.{
  ℕ, ◌-◌, ◌*◌, String, Bool, true, false, not, List, ◌&&◌, ◌||◌, Option, none, some, ltb,
  if◌then◌else◌, get_or_else, truthy, trim, is_space, keep,
}

pub data AgentTaskState : Type 0 where
  pending active blocked completed cancelled superseded stale : AgentTaskState

pub data DeliveryState : Type 0 where
  result_stored delivery_pending delivered delivery_failed : DeliveryState

pub data RunOutcome : Type 0 where
  run_completed run_failed run_interrupted run_partial : RunOutcome

pub record AgentTask : Type 0 where
  pub id : String
  pub assignee_bot_id : String
  pub from_bot_id : String
  pub from_name : String
  pub source_thread_id : String
  pub assignment : String
  pub reason : Option String
  pub state : AgentTaskState
  pub result : Option String
  pub blocker : Option String
  pub blocker_owner : Option String
  pub next_action : Option String
  pub assignment_message_id : Option String
  pub created_at : ℕ
  pub updated_at : ℕ
  pub run_id : Option String
  pub delivery_state : Option DeliveryState
  pub run_outcome : Option RunOutcome
  pub failure_code : Option String

abbrev pub blocked_stale_after_ms : ℕ
blocked_stale_after_ms = 24 * 60 * 60 * 1000

-- `value.trim().replace(/\s+/g, " ")`; the flag says that the last character kept was a space.
collapse : Bool → String → String
collapse spaced String.[] = ""
collapse spaced (String.◌∷◌ c s) =
    let after_space = collapse true s in
    let after_char = collapse false s in
    if is_space (code c)
    then (if spaced then after_space else String.◌∷◌ " " after_space)
    else String.◌∷◌ c after_char

unfoldable pub normalize_assignment : String → String
unfolding collapse
normalize_assignment value = collapse false (trim value)

abbrev pub trimmed : Option String → String
trimmed value = trim (get_or_else value "")

unfoldable pub has_structured_blocker : AgentTask → Bool
has_structured_blocker t =
    truthy (trimmed t.blocker)
    && (truthy (trimmed t.blocker_owner) && truthy (trimmed t.next_action))

abbrev pub is_blocked : AgentTaskState → Bool
is_blocked pending = false
is_blocked active = false
is_blocked blocked = true
is_blocked completed = false
is_blocked cancelled = false
is_blocked superseded = false
is_blocked stale = false

abbrev pub is_started : AgentTaskState → Bool
is_started pending = true
is_started active = true
is_started blocked = false
is_started completed = false
is_started cancelled = false
is_started superseded = false
is_started stale = false

unfoldable pub is_blocked_past_staleness : AgentTask → ℕ → Bool
is_blocked_past_staleness t now =
    is_blocked t.state && ltb blocked_stale_after_ms (now - t.updated_at)

unfoldable pub is_active_queue_task : AgentTask → ℕ → Bool
is_active_queue_task t now =
    if is_started t.state
    then true
    else if not (is_blocked t.state)
    then false
    else has_structured_blocker t && not (is_blocked_past_staleness t now)

pub is_archived_task : AgentTask → ℕ → Bool
unfolding is_active_queue_task
is_archived_task t now = not (is_active_queue_task t now)

unfoldable pub should_persist_stale : AgentTask → ℕ → Bool
should_persist_stale t now =
    if not (is_blocked t.state)
    then false
    else not (has_structured_blocker t) || is_blocked_past_staleness t now

-- A text that is not blank, trimmed.
unfoldable pub optional_string : Option String → Option String
optional_string value = let s = trimmed value in if truthy s then some s else none

abbrev non_empty : Option String → Option String
non_empty none = none
non_empty (some s) = if truthy s then some s else none

-- A blocker that is blank is dropped, and a blocked task is then stale.
unfoldable pub coerce_task_state : AgentTaskState → Option String → AgentTaskState × Option String
coerce_task_state state blocker =
    if is_blocked state && not (truthy (trimmed blocker))
    then (stale, none)
    else if truthy (trimmed blocker)
    then (state, blocker)
    else (state, none)

abbrev pub has_ids : AgentTask → Bool
has_ids t =
    truthy t.id && (truthy t.assignee_bot_id && (truthy t.from_bot_id && truthy t.source_thread_id))

-- What `normalizeAgentTask` returns for a task that names its bots and its thread.
unfoldable pub normal_form : AgentTask → AgentTask
unfolding optional_string coerce_task_state
normal_form row =
    let coerced = coerce_task_state row.state (non_empty row.blocker) in
    record {
      id = row.id;
      assignee_bot_id = row.assignee_bot_id;
      from_bot_id = row.from_bot_id;
      from_name = if truthy (trim row.from_name) then trim row.from_name else "Lead";
      source_thread_id = row.source_thread_id;
      assignment = row.assignment;
      reason = optional_string row.reason;
      state = coerced.0;
      result = non_empty row.result;
      blocker = coerced.1;
      blocker_owner = optional_string row.blocker_owner;
      next_action = optional_string row.next_action;
      assignment_message_id = non_empty row.assignment_message_id;
      created_at = row.created_at;
      updated_at = row.updated_at;
      run_id = optional_string row.run_id;
      delivery_state = row.delivery_state;
      run_outcome = row.run_outcome;
      failure_code = non_empty row.failure_code;
    }

unfoldable pub normalize_agent_task : AgentTask → Option AgentTask
normalize_agent_task row = if has_ids row then some (normal_form row) else none

pub active_queue_tasks : List AgentTask → ℕ → List AgentTask
unfolding is_active_queue_task
active_queue_tasks tasks now = keep (λ t. is_active_queue_task t now) tasks

pub archived_tasks : List AgentTask → ℕ → List AgentTask
unfolding is_archived_task
archived_tasks tasks now = keep (λ t. is_archived_task t now) tasks

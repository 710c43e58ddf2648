-- ===== src/Tasks/Calls.antt =====
-- The calls on assigned tasks (server/agent-tasks.ts). The id of a new task and the time are arguments.
use velarix_bot.Prelude.{
  ℕ, ◌+◌, String, Bool, true, false, not, List, [], ◌∷◌, ◌&&◌, ◌||◌, Option, none, some, ◌===◌,
  ◌==◌, leb, if◌then◌else◌, get_or_else, keep, map, length, find_first, any, truthy, trim, codes,
}
use velarix_bot.Tasks.Task.{
  AgentTaskState, pending, blocked, completed, cancelled, superseded, stale, AgentTask,
  normalize_assignment, trimmed, is_started, is_blocked, has_structured_blocker,
  is_active_queue_task, should_persist_stale, optional_string,
}
use velarix_bot.Tasks.Store.{
  Rows, TaskPatch, no_patch, merge, insert, find, list, list_by_assignee, list_by_source_thread,
  update,
}

abbrev pub to_state : AgentTaskState → TaskPatch
to_state s = record no_patch { state = some s }

abbrev add_some : Option AgentTask → List AgentTask → List AgentTask
add_some none ts = ts
add_some (some t) ts = t ∷ ts

-- The tasks are those that were listed when the pass began.
unfoldable pub reconcile_all : ℕ → List AgentTask → Rows → Rows × List AgentTask
reconcile_all now [] rows = (rows, [])
reconcile_all now (t ∷ ts) rows =
    let (rows', next) =
      if should_persist_stale t now then update t.id (to_state stale) rows else (rows, none) in
    let (rest, changed) = reconcile_all now ts rows' in (rest, add_some next changed)

unfoldable pub reconcile_stale_blocked : ℕ → Rows → Rows × List AgentTask
unfolding reconcile_all
reconcile_stale_blocked now rows = reconcile_all now (list rows) rows

unfoldable pub get_agent_task : String → ℕ → Rows → Rows × Option AgentTask
get_agent_task id now rows = elim (find id rows) [
  | none ↦ (rows, none)
  | some task ↦
      let (rows', next) = update task.id (to_state stale) rows in
      if should_persist_stale task now
      then (rows', some (get_or_else next task))
      else (rows, some task)
]

unfoldable pub list_agent_tasks : ℕ → Rows → Rows × List AgentTask
list_agent_tasks now rows = let rows' = (reconcile_stale_blocked now rows).0 in (rows', list rows')

pub record CreateInput : Type 0 where
  pub assignee_bot_id : String
  pub from_bot_id : String
  pub from_name : String
  pub source_thread_id : String
  pub assignment : String
  pub reason : Option String
  pub assignment_message_id : Option String
  pub run_id : Option String

-- A task of the same lead, thread and assignee that is in the active queue.
unfoldable pub is_open_for : CreateInput → ℕ → AgentTask → Bool
is_open_for input now t =
    t.from_bot_id === input.from_bot_id
    && (t.source_thread_id === input.source_thread_id && is_active_queue_task t now)

unfoldable pub open_from_same_source : CreateInput → ℕ → Rows → List AgentTask
open_from_same_source input now rows =
    keep (is_open_for input now) (list_by_assignee input.assignee_bot_id rows)

abbrev has_run : String → AgentTask → Bool
has_run id t = get_or_else t.run_id "" === id

unfoldable pub open_with_run_id : String → ℕ → Rows → List AgentTask
open_with_run_id run_id now rows =
    let id = trim run_id in
    if not (truthy id)
    then []
    else keep (λ t. has_run id t && is_active_queue_task t now) (list rows)

-- Each of the tasks becomes superseded, but those whose id is to be skipped.
unfoldable pub supersede : ℕ → List String → List AgentTask → Rows → Rows
supersede now skip [] rows = rows
supersede now skip (t ∷ ts) rows = supersede now skip ts (
    if any (λ id. id === t.id) skip
    then rows
    else (update t.id (record no_patch { state = some superseded; updated_at = some now }) rows).0)

abbrev non_empty : Option String → Option String
non_empty none = none
non_empty (some s) = if truthy s then some s else none

abbrev pub new_task : CreateInput → String → ℕ → AgentTask
new_task input new_id now = record {
  id = new_id;
  assignee_bot_id = input.assignee_bot_id;
  from_bot_id = input.from_bot_id;
  from_name = input.from_name;
  source_thread_id = input.source_thread_id;
  assignment = input.assignment;
  reason = non_empty input.reason;
  state = pending;
  result = none;
  blocker = none;
  blocker_owner = none;
  next_action = none;
  assignment_message_id = non_empty input.assignment_message_id;
  created_at = now;
  updated_at = now;
  run_id = optional_string input.run_id;
  delivery_state = none;
  run_outcome = none;
  failure_code = none;
}

abbrev supersede_run : Option String → ℕ → List String → Rows → Rows
supersede_run none now skip rows = rows
supersede_run (some run_id) now skip rows =
    supersede now skip (open_with_run_id run_id now rows) rows

abbrev same_assignment : String → AgentTask → Bool
same_assignment assignment t = normalize_assignment t.assignment === normalize_assignment assignment

unfoldable pub create_reconciled : CreateInput → String → ℕ → Rows → Rows × AgentTask
unfolding supersede
create_reconciled input new_id now rows =
    let opened = open_from_same_source input now rows in
    elim (find_first (same_assignment input.assignment) opened) [
      | some duplicate ↦
          let (rows', next) =
            update duplicate.id
              (record no_patch {
                updated_at = some now;
                assignment_message_id = non_empty input.assignment_message_id;
                run_id = optional_string input.run_id;
              })
              rows in
          (rows', get_or_else next duplicate)
      | none ↦
          let rows' = supersede now [] opened rows in
          let rows'' =
            supersede_run (optional_string input.run_id) now (map (λ t. t.id) opened) rows' in
          let task = new_task input new_id now in (insert task rows'', task)
    ]

unfoldable pub create_agent_task : CreateInput → String → ℕ → Rows → Rows × AgentTask
create_agent_task input new_id now rows =
    create_reconciled input new_id now (reconcile_stale_blocked now rows).0

unfoldable pub patch_reconciled : String → TaskPatch → ℕ → Rows → Rows × Option AgentTask
patch_reconciled id patch now rows = elim (find id rows) [
  | none ↦ (rows, none)
  | some existing ↦
      let timed : TaskPatch = record patch { updated_at = some now } in
      let merged = merge existing timed in
      update id
        (if is_blocked merged.state && not (has_structured_blocker merged)
          then record timed { state = some stale }
          else timed)
        rows
]

-- `patch` gives no time of update; the call does.
unfoldable pub patch_agent_task : String → TaskPatch → ℕ → Rows → Rows × Option AgentTask
patch_agent_task id patch now rows =
    patch_reconciled id patch now (reconcile_stale_blocked now rows).0

lower : ℕ → ℕ
lower c = if leb b'A' c && leb c b'Z' then c + 32 else c

-- The whole of a text is a word, in either case.
is_word : List ℕ → List ℕ → Bool
unfolding lower
is_word [] [] = true
is_word [] (c ∷ text) = false
is_word (w ∷ word) [] = false
is_word (w ∷ word) (c ∷ text) = lower c == w && is_word word text

unfoldable pub is_cancelled_assignee_outcome : String → Bool
unfolding is_word
is_cancelled_assignee_outcome value =
    any (λ word. is_word (codes word) (codes value)) ("interrupted" ∷ "cancelled" ∷ "canceled" ∷ [])

pub record TurnOutcome : Type 0 where
  pub ok : Bool
  pub text : Option String
  pub detail : Option String
  pub blocker_owner : Option String
  pub next_action : Option String

unfoldable pub assignee_turn_task_patch : TurnOutcome → TaskPatch
assignee_turn_task_patch outcome =
    let result = trimmed outcome.text in
    let detail = trimmed outcome.detail in
    let cause = if truthy detail then detail else result in
    let owner = trimmed outcome.blocker_owner in
    let action = trimmed outcome.next_action in
    if is_cancelled_assignee_outcome detail || is_cancelled_assignee_outcome result
    then to_state cancelled
    else if outcome.ok
    then (if truthy result
        then record no_patch { state = some completed; result = some result }
        else to_state stale)
    else if truthy cause && (truthy owner && truthy action)
    then record no_patch {
      state = some blocked;
      blocker = some cause;
      blocker_owner = some owner;
      next_action = some action;
    }
    else to_state stale

unfoldable pub open_tasks_for_source : String → ℕ → Rows → List AgentTask
open_tasks_for_source thread_id now rows =
    keep (λ t. is_active_queue_task t now)
      (keep (λ t. is_started t.state) (list_by_source_thread thread_id rows))

-- The counts `assigned` and `active`.
pub task_counts : List AgentTask → ℕ → ℕ × ℕ
task_counts tasks now = let n = length (keep (λ t. is_active_queue_task t now) tasks) in (n, n)

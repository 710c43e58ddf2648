-- ===== src/Tasks/Store.antt =====
-- The task store of server/agent-tasks.ts, `createMemoryAgentTasksStore`: a map from ids to tasks.
use velarix_bot.Prelude.{
  ℕ, String, Bool, List, [], ◌∷◌, ◌||◌, Option, none, some, ltb, ◌===◌, if◌then◌else◌, get_or_else,
  or_else, keep, map,
}
use velarix_bot.Prelude.Dict.{Dict, get, set}
use velarix_bot.Tasks.Task.{AgentTaskState, AgentTask, normalize_agent_task}

abbrev pub Rows : Type 0
Rows = Dict AgentTask

-- A partial update; a field is `some` where the key is given.
pub record TaskPatch : Type 0 where
  pub state : Option AgentTaskState
  pub result : Option String
  pub blocker : Option String
  pub blocker_owner : Option String
  pub next_action : Option String
  pub reason : Option String
  pub assignment_message_id : Option String
  pub run_id : Option String
  pub updated_at : Option ℕ

abbrev pub no_patch : TaskPatch
no_patch = record {
  state = none;
  result = none;
  blocker = none;
  blocker_owner = none;
  next_action = none;
  reason = none;
  assignment_message_id = none;
  run_id = none;
  updated_at = none;
}

-- `{ ...existing, ...patch }`.
abbrev pub merge : AgentTask → TaskPatch → AgentTask
merge t p = record t {
  state = get_or_else p.state t.state;
  result = or_else p.result t.result;
  blocker = or_else p.blocker t.blocker;
  blocker_owner = or_else p.blocker_owner t.blocker_owner;
  next_action = or_else p.next_action t.next_action;
  reason = or_else p.reason t.reason;
  assignment_message_id = or_else p.assignment_message_id t.assignment_message_id;
  run_id = or_else p.run_id t.run_id;
  updated_at = get_or_else p.updated_at t.updated_at;
}

unfoldable pub insert : AgentTask → Rows → Rows
insert task rows = set task.id task rows

unfoldable pub find : String → Rows → Option AgentTask
find id rows = get id rows

-- The tasks by their time of creation, in the order of the map where it is the same.
unfoldable pub insert_by_time : AgentTask → List AgentTask → List AgentTask
insert_by_time t [] = t ∷ []
insert_by_time t (x ∷ xs) =
    if ltb x.created_at t.created_at then x ∷ insert_by_time t xs else t ∷ x ∷ xs

unfoldable pub sort_by_time : List AgentTask → List AgentTask
unfolding insert_by_time
sort_by_time [] = []
sort_by_time (t ∷ ts) = insert_by_time t (sort_by_time ts)

unfoldable pub list : Rows → List AgentTask
unfolding sort_by_time
list rows = sort_by_time (map (λ e. e.1) rows)

unfoldable pub list_by_assignee : String → Rows → List AgentTask
list_by_assignee bot_id rows = keep (λ t. t.assignee_bot_id === bot_id) (list rows)

unfoldable pub list_by_source_thread : String → Rows → List AgentTask
list_by_source_thread thread_id rows = keep (λ t. t.source_thread_id === thread_id) (list rows)

-- The id and the time of creation stay; a patch whose result is no task writes nothing.
unfoldable pub update : String → TaskPatch → Rows → Rows × Option AgentTask
update id patch rows = elim (get id rows) [
  | none ↦ (rows, none)
  | some existing ↦ elim (normalize_agent_task (record (merge existing patch) { id = id })) [
    | none ↦ (rows, none)
    | some next ↦ (set id next rows, some next)
  ]
]

abbrev is_of : String → AgentTask → Bool
is_of bot_id t = t.assignee_bot_id === bot_id || t.from_bot_id === bot_id

unfoldable pub delete_for_bot : String → Rows → Rows
delete_for_bot bot_id [] = []
delete_for_bot bot_id ((k, t) ∷ rows) =
    let rest = delete_for_bot bot_id rows in if is_of bot_id t then rest else (k, t) ∷ rest

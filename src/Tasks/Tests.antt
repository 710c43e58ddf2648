-- ===== src/Tasks/Tests.antt =====
-- The theorems on assigned tasks at concrete inputs.
use velarix_bot.Prelude.{
  ◌+◌, ◌≤◌, true, not, [], ◌∷◌, ◌||◌, none, some, arith, ◌≡◌, refl, subst, inl, inr, Bool-cases,
  ◌===◌, ===_iff, truthy, trim, length,
}
use velarix_bot.Prelude.Dict.{get, set}
use velarix_bot.Tasks.Task.{
  AgentTask, blocked, completed, has_ids, is_blocked, has_structured_blocker,
  blocked_stale_after_ms, normalize_assignment, normalize_agent_task, normal_form,
  coerce_task_state, optional_string, is_blocked_past_staleness, is_active_queue_task,
  should_persist_stale,
}
use velarix_bot.Tasks.Store.{
  Rows, list, update, insert, list_by_assignee, sort_by_time, insert_by_time,
}
use velarix_bot.Tasks.Calls.{
  CreateInput, TurnOutcome, new_task, to_state, create_agent_task, patch_agent_task,
  list_agent_tasks, reconcile_stale_blocked, reconcile_all, create_reconciled,
  open_from_same_source, is_open_for, supersede,
}
use velarix_bot.Tasks.Reconcile.{Sound, list_agent_tasks-structured}
use velarix_bot.Tasks.Delegated.{patched_state, patch_agent_task-state}

abbrev input : CreateInput
input = record {
  assignee_bot_id = "b";
  from_bot_id = "a";
  from_name = "Ann";
  source_thread_id = "th";
  assignment = "write  a report";
  reason = none;
  assignment_message_id = none;
  run_id = none;
}

abbrev waiting : AgentTask
waiting = record (new_task input "t" 5) {
  state = blocked;
  blocker = some "no key";
  blocker_owner = some "Ann";
  next_action = some "send it";
}

abbrev rows : Rows
rows = ("t", waiting) ∷ []

rows-Sound : Sound rows
unfolding get
rows-Sound k t e = elim (Bool-cases ("t" === k)) [
  | inl q ↦
      let same : waiting ≡ t = ground (arith, q, e) in
      subst (λ z. (z.id ≡ k) × (has_ids z ≡ true)) same ((===_iff "t" k).0 q, refl)
  | inr q ↦ absurd (ground (arith, q, e))
]

waits : get "t" (list_agent_tasks 9 rows).0 ≡ some waiting
unfolding list_agent_tasks reconcile_stale_blocked get set reconcile_all list sort_by_time
    insert_by_time update normalize_agent_task normal_form coerce_task_state optional_string
    has_structured_blocker is_blocked_past_staleness is_active_queue_task should_persist_stale trim
waits = refl

list_agent_tasks-structured_example :
    (truthy (trim "no key") ≡ true)
    × (truthy (trim "Ann") ≡ true)
    × (truthy (trim "send it") ≡ true)
    × (9 ≤ 5 + blocked_stale_after_ms)
list_agent_tasks-structured_example =
    list_agent_tasks-structured 9 rows "t" waiting rows-Sound waits refl

patch_agent_task-state_example :
    let (rows', next) = patch_agent_task "t" (to_state completed) 9 rows in
    (n : AgentTask) × (u : AgentTask) × (next ≡ some n)
    × (get "t" rows' ≡ some n)
    × (get "t" (reconcile_stale_blocked 9 rows).0 ≡ some u)
    × (n.state ≡ patched_state (to_state completed) u)
    × ((not (is_blocked n.state) || has_structured_blocker n) ≡ true)
unfolding get
patch_agent_task-state_example =
    patch_agent_task-state "t" (to_state completed) 9 rows waiting rows-Sound refl

abbrev outcome : TurnOutcome
outcome = record {
  ok = true;
  text = some " done ";
  detail = none;
  blocker_owner = none;
  next_action = none;
}

-- A second assignment that differs in spaces only is the same task; another one supersedes it.
again :
    let (one, t) = create_agent_task input "x" 1 [] in
    let (two, t') =
      create_agent_task (record input { assignment = " write a report " }) "y" 2 one in
    let (three, t'') = create_agent_task (record input { assignment = "read" }) "z" 3 two in
    (t'.id ≡ "x") × (length two ≡ 1) × (length three ≡ 2) × (t''.id ≡ "z")
unfolding create_agent_task create_reconciled open_from_same_source is_open_for list_by_assignee
    supersede insert normalize_assignment reconcile_stale_blocked get set reconcile_all list
    sort_by_time insert_by_time update normalize_agent_task normal_form coerce_task_state
    optional_string has_structured_blocker is_blocked_past_staleness is_active_queue_task
    should_persist_stale trim
again = (refl, refl, refl, refl)

-- ===== src/Tasks/Delegated.antt =====
-- What a patch and the end of an assignee's turn leave in a task (server/agent-tasks.ts).
use velarix_bot.Prelude.{
  ℕ, String, true, false, not, ◌&&◌, ◌||◌, some, arith, ◌≡◌, refl, ap, ◌∙◌, inl, inr, Bool-cases,
  if◌then◌else◌, get_or_else, truthy-trim,
}
use velarix_bot.Prelude.Dict.{get}
use velarix_bot.Tasks.Task.{
  AgentTaskState, stale, AgentTask, is_blocked, has_structured_blocker, coerce_task_state,
  normal_form, optional_string,
}
use velarix_bot.Tasks.Store.{Rows, TaskPatch, merge, find}
use velarix_bot.Tasks.Calls.{
  reconcile_stale_blocked, patch_reconciled, patch_agent_task, TurnOutcome,
  assignee_turn_task_patch,
}
use velarix_bot.Tasks.Reconcile.{
  Sound, update-same, reconcile_stale_blocked-Settled, reconcile_stale_blocked-is_there,
}

-- The normal form of a task with a structured blocker keeps its state and the structure; of a task that
-- is not blocked, its state.
normal_form-has_structured_blocker :
    (t : AgentTask)
    → has_structured_blocker t ≡ true
    → ((normal_form t).state ≡ t.state) × (has_structured_blocker (normal_form t) ≡ true)
unfolding normal_form has_structured_blocker coerce_task_state optional_string
normal_form-has_structured_blocker t h = ground (
  arith,
  h,
  truthy-trim (get_or_else t.blocker_owner ""),
  truthy-trim (get_or_else t.next_action ""),
)

normal_form-state : (t : AgentTask) → is_blocked t.state ≡ false → (normal_form t).state ≡ t.state
unfolding normal_form coerce_task_state
normal_form-state t h = ground (arith, h)

normal_form-kept :
    (t : AgentTask)
    → (is_blocked t.state && not (has_structured_blocker t)) ≡ false
    → let n = normal_form t in
      (n.state ≡ t.state) × ((not (is_blocked n.state) || has_structured_blocker n) ≡ true)
normal_form-kept t h = elim (Bool-cases (is_blocked t.state)) [
  | inl b ↦
      let (state, structured) = normal_form-has_structured_blocker t (ground (arith, h, b)) in
      (state, ground (arith, structured))
  | inr b ↦ let state = normal_form-state t b in (state, rw state (rw b refl))
]

abbrev pub patched_state : TaskPatch → AgentTask → AgentTaskState
patched_state patch t =
    let merged = merge t patch in
    if is_blocked merged.state && not (has_structured_blocker merged) then stale else merged.state

-- A patch of a stored task stores the task that it returns: with the state that the patch asks for,
-- or had the task no other state, but stale where that is blocked and the blocker, its owner or the
-- next action is missing; so a blocked task that a patch returns has all three.
pub patch_agent_task-state :
    (id : String) (patch : TaskPatch) (now : ℕ) (rows : Rows) (t : AgentTask)
    → Sound rows
    → get id rows ≡ some t
    → let (rows', next) = patch_agent_task id patch now rows in
      (n : AgentTask) × (u : AgentTask) × (next ≡ some n)
      × (get id rows' ≡ some n)
      × (get id (reconcile_stale_blocked now rows).0 ≡ some u)
      × (n.state ≡ patched_state patch u)
      × ((not (is_blocked n.state) || has_structured_blocker n) ≡ true)
unfolding patch_agent_task patch_reconciled find has_structured_blocker
patch_agent_task-state id patch now rows t h e =
    let rows₁ = (reconcile_stale_blocked now rows).0 in
    let sound = (reconcile_stale_blocked-Settled now id rows h).1 in
    let (u, k) = reconcile_stale_blocked-is_there now id rows t h e in
    let timed : TaskPatch = record patch { updated_at = some now } in
    let marked : TaskPatch = record timed { state = some stale } in
    let m : AgentTask = merge u timed in
    elim (Bool-cases (is_blocked m.state && not (has_structured_blocker m))) [
      | inl q ↦
          let next : AgentTask = record (merge u marked) { id = id } in
          let (got, made) = update-same id marked rows₁ u k (sound id u k) in
          let state = normal_form-state next refl in
          (
            normal_form next,
            u,
            rw (k, patch_reconciled) (rw q made),
            rw (k, patch_reconciled) (rw q got),
            k,
            rw q state,
            rw state refl,
          )
      | inr q ↦
          let next : AgentTask = record (merge u timed) { id = id } in
          let (state, structured) = normal_form-kept next q in
          let (got, made) = update-same id timed rows₁ u k (sound id u k) in
          (
            normal_form next,
            u,
            rw (k, patch_reconciled) (rw q made),
            rw (k, patch_reconciled) (rw q got),
            k,
            rw q state,
            structured,
          )
    ]

outcome_state :
    (outcome : TurnOutcome) (u : AgentTask)
    → some (patched_state (assignee_turn_task_patch outcome) u)
      ≡ (assignee_turn_task_patch outcome).state
unfolding assignee_turn_task_patch has_structured_blocker
outcome_state outcome u = ground (
  arith,
  truthy-trim (get_or_else outcome.detail ""),
  truthy-trim (get_or_else outcome.text ""),
  truthy-trim (get_or_else outcome.blocker_owner ""),
  truthy-trim (get_or_else outcome.next_action ""),
)

-- The end of an assignee's turn puts its task in the state that the outcome stands for, never in
-- another: cancelled, completed with a result, blocked with what it waits for, or stale.
assignee_turn_task_patch-state :
    (id : String) (outcome : TurnOutcome) (now : ℕ) (rows : Rows) (t : AgentTask)
    → Sound rows
    → get id rows ≡ some t
    → let (rows', next) = patch_agent_task id (assignee_turn_task_patch outcome) now rows in
      (n : AgentTask) × (next ≡ some n)
      × (get id rows' ≡ some n)
      × (some n.state ≡ (assignee_turn_task_patch outcome).state)
assignee_turn_task_patch-state id outcome now rows t h e =
    let (n, u, made, got, _, state, _) =
      patch_agent_task-state id (assignee_turn_task_patch outcome) now rows t h e in
    (n, made, got, ap some state ∙ outcome_state outcome u)

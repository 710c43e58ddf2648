-- ===== src/Ledger/Told.antt =====
-- What the stored task of a run says when the run has ended (`finalize` of
-- server/repositories/agent-task-runs.ts, `mapRunOutcomeToTaskPatch` of server/contracts.ts).
use velarix_bot.Prelude.{
  ◌∙◌, if◌then◌else◌, ℕ, String, true, Option, none, some, ◌≡◌, ◌≢◌, ◌↔◌, refl, sym, subst, arith,
  truthy, trim, get_or_else, or_else, ===_refl, inl, inr, Bool-cases,
}
use velarix_bot.Prelude.Dict.{get, get-set}
use velarix_bot.Tasks.Task.{
  AgentTask, has_ids, is_blocked, coerce_task_state, normal_form, normalize_agent_task,
}
use velarix_bot.Tasks.Task as Task
use velarix_bot.Tasks.Store.{Rows}
use velarix_bot.Ledger.Contracts.{
  RunFailureCode, Outcome, WorkerOutcome, WorkerCompletion, SealedRunResult, RunPatch, accepted,
  accept_worker_completion,
}
use velarix_bot.Ledger.Canonical.{Node}
use velarix_bot.Ledger.Report.{FinalizeInput, failure_code_of, code_name}
use velarix_bot.Ledger.Rows.{Run, Ledger, ok}
use velarix_bot.Ledger.Runs.{is_running}
use velarix_bot.Ledger.Stamps.{list_deliveries_for_run}
use velarix_bot.Ledger.Answers.{FinalizeAnswer, was_running, told_task, finalize_tx}
use velarix_bot.Ledger.Finalize.{
  terminalize, finalize, finalize_accepted, seal, project_task, run_outcome_of,
}
use velarix_bot.Ledger.Blockers.{patch_blocker}
use velarix_bot.Ledger.Outcomes.{task_patch, accepted_run_task}

-- The stored task with the patch over it.
abbrev merged : RunPatch → Outcome → Option RunFailureCode → ℕ → AgentTask → AgentTask
merged patch outcome code now current = record current {
  state = patch.state;
  result = or_else patch.result current.result;
  blocker = or_else patch.blocker current.blocker;
  blocker_owner = or_else patch.blocker_owner current.blocker_owner;
  next_action = or_else patch.next_action current.next_action;
  delivery_state = some Task.result_stored;
  run_outcome = some (run_outcome_of outcome);
  failure_code = code_name code;
  updated_at = now;
}

normal_form-ids : (t : AgentTask) → has_ids (normal_form t) ≡ has_ids t
unfolding normal_form
normal_form-ids t = refl

project-stored :
    (id : String) (patch : RunPatch) (o : Outcome) (code : Option RunFailureCode) (now : ℕ)
    (rows : Rows) (t : AgentTask)
    → get id rows ≡ some t
    → has_ids t ≡ true
    → get id (project_task id patch o code now rows)
      ≡ some (normal_form (merged patch o code now (normal_form t)))
unfolding project_task normalize_agent_task
project-stored id patch o code now rows t f h =
    rw (f, project_task)
      (rw h (rw (normal_form-ids t) (rw h (rw (get-set id id _ rows) (rw (===_refl id) refl)))))

normal_form-state :
    (t : AgentTask)
    → (is_blocked t.state ≡ true → truthy (trim (get_or_else t.blocker "")) ≡ true)
    → (normal_form t).state ≡ t.state
unfolding normal_form coerce_task_state
normal_form-state t h = elim (Bool-cases (is_blocked t.state)) [
  | inl b ↦ ground (arith, h b)
  | inr b ↦ ground arith
]

overrides :
    (new old : Option String)
    → truthy (trim (get_or_else new "")) ≡ true
    → truthy (trim (get_or_else (or_else new old) "")) ≡ true
unfolding trim
overrides none old h = absurd (ground arith)
overrides (some b) old h = h

merged-state :
    (input : WorkerCompletion) (result : SealedRunResult) (o : Outcome)
    (code : Option RunFailureCode) (now : ℕ) (t : AgentTask)
    → accept_worker_completion input ≡ accepted result
    → (normal_form (merged (task_patch result) o code now t)).state ≡ (task_patch result).state
merged-state input result o code now t e =
    normal_form-state (merged (task_patch result) o code now t)
      (λ b. overrides (task_patch result).blocker t.blocker (patch_blocker input result e b))

finalize-running :
    (node : Node) (input : FinalizeInput) (result : SealedRunResult) (l l' : Ledger) (r0 r : Run)
    → get input.identity.run_id l.runs ≡ some r0
    → is_running r0.state ≡ true
    → finalize_accepted node input result l ≡ (l', ok r)
    → seal node input result r0 l ≡ (l', ok r)
unfolding finalize_accepted
finalize-running node input result l l' r0 r f s e = ground arith

seal-tasks :
    (node : Node) (input : FinalizeInput) (result : SealedRunResult) (r0 : Run) (l l' : Ledger)
    (r : Run)
    → seal node input result r0 l ≡ (l', ok r)
    → l'.tasks
      ≡ project_task r0.task_id
          (task_patch result)
          result.outcome
          (failure_code_of result)
          input.now
          l.tasks
unfolding seal
seal-tasks node input result r0 l l' r e = ground arith

finalize_stores_task :
    (node : Node) (input : FinalizeInput) (result : SealedRunResult) (l l' : Ledger) (r0 r : Run)
    (t : AgentTask)
    → accept_worker_completion input.result ≡ accepted result
    → get input.identity.run_id l.runs ≡ some r0
    → is_running r0.state ≡ true
    → get r0.task_id l.tasks ≡ some t
    → has_ids t ≡ true
    → finalize node input l ≡ (l', ok r)
    → (t' : AgentTask) × (get r0.task_id l'.tasks ≡ some t')
      × ((t'.state ≡ Task.completed) ↔ (input.result.outcome ≡ WorkerOutcome.completed))
      × (t'.state ≢ Task.stale)
      × (t'.delivery_state ≡ some Task.result_stored)
      × (t'.run_outcome ≡ some (run_outcome_of result.outcome))
      × (t'.updated_at ≡ input.now)
unfolding finalize normal_form
finalize_stores_task node input result l l' r0 r t a f s ft h e =
    let code = failure_code_of result in
    let next =
      normal_form (merged (task_patch result) result.outcome code input.now (normal_form t)) in
    let sealed_ok = finalize-running node input result l l' r0 r f s (rw (a, finalize) at e) in
    let tasks = seal-tasks node input result r0 l l' r sealed_ok in
    let found =
      project-stored r0.task_id (task_patch result) result.outcome code input.now l.tasks t ft h in
    let state = merged-state input.result result result.outcome code input.now (normal_form t) a in
    let (done, not_stale) = accepted_run_task input.result result a in
    (
      next,
      subst (λ rows. get r0.task_id rows ≡ some next) (sym tasks) found,
      subst (λ x. (x ≡ Task.completed) ↔ (input.result.outcome ≡ WorkerOutcome.completed))
          (sym state) done,
      subst (λ x. x ≢ Task.stale) (sym state) not_stale,
      refl,
      refl,
      refl,
    )

answered :
    (node : Node) (input : FinalizeInput) (l l' : Ledger) (a : FinalizeAnswer)
    → finalize_tx node input l ≡ (l', ok a)
    → (finalize node input l ≡ (l', ok a.run))
      × (a.deliveries ≡ list_deliveries_for_run a.run.id l'.deliveries)
      × (a.task ≡ (
          if was_running (get input.identity.run_id l.runs)
          then told_task a.run.task_id l.tasks l'.tasks
          else none))
unfolding finalize_tx
answered node input l l' a e = ground arith

seal-task_id :
    (node : Node) (input : FinalizeInput) (result : SealedRunResult) (r0 : Run) (l l' : Ledger)
    (r : Run)
    → seal node input result r0 l ≡ (l', ok r)
    → r.task_id ≡ r0.task_id
unfolding seal terminalize
seal-task_id node input result r0 l l' r e = ground arith

told_task-found :
    (id : String) (before tasks : Rows) (t : AgentTask)
    → get id before ≡ some t
    → has_ids t ≡ true
    → told_task id before tasks ≡ get id tasks
unfolding told_task normalize_agent_task
told_task-found id before tasks t f h = ground arith

-- A finalize of a running run that goes through leaves the task of the run, where it is stored and
-- names its bots and its thread, with its result stored and the outcome of the run, and answers with
-- that task and the stored deliveries of the run. The task is completed exactly where the worker said
-- so, and this call does not make it stale.
pub finalize_tells_task :
    (node : Node) (input : FinalizeInput) (result : SealedRunResult) (l l' : Ledger) (r0 : Run)
    (a : FinalizeAnswer) (t : AgentTask)
    → accept_worker_completion input.result ≡ accepted result
    → get input.identity.run_id l.runs ≡ some r0
    → is_running r0.state ≡ true
    → get r0.task_id l.tasks ≡ some t
    → has_ids t ≡ true
    → finalize_tx node input l ≡ (l', ok a)
    → (a.deliveries ≡ list_deliveries_for_run a.run.id l'.deliveries)
      × ((t' : AgentTask) × (get r0.task_id l'.tasks ≡ some t')
          × (a.task ≡ some t')
          × ((t'.state ≡ Task.completed) ↔ (input.result.outcome ≡ WorkerOutcome.completed))
          × (t'.state ≢ Task.stale)
          × (t'.delivery_state ≡ some Task.result_stored)
          × (t'.run_outcome ≡ some (run_outcome_of result.outcome))
          × (t'.updated_at ≡ input.now))
unfolding finalize
finalize_tells_task node input result l l' r0 a t acc f s ft h e =
    let (e', rows, task) = answered node input l l' a e in
    let (t', found, done, not_stale, delivery, outcome, time) =
      finalize_stores_task node input result l l' r0 a.run t acc f s ft h e' in
    let sealed_ok =
      finalize-running node input result l l' r0 a.run f s (rw (acc, finalize) at e') in
    let id = seal-task_id node input result r0 l l' a.run sealed_ok in
    let ran : was_running (get input.identity.run_id l.runs) ≡ true = rw f s in
    let told = told_task-found r0.task_id l.tasks l'.tasks t ft h in
    let answer : a.task ≡ some t' = task ∙ rw ran (rw id (told ∙ found)) in
    (rows, (t', found, answer, done, not_stale, delivery, outcome, time))

-- ===== src/Ledger/Blockers.antt =====
-- The blocker of a task that the end of its run blocks (`acceptWorkerCompletion` and
-- `mapRunOutcomeToTaskPatch` of server/contracts.ts).
use velarix_bot.Prelude.{
  String, true, Option, some, ◌≡◌, refl, arith, truthy, trim, truthy-trim, get_or_else, inl, inr,
  Option-cases,
}
use velarix_bot.Tasks.Task.{
  AgentTask, has_ids, is_blocked, coerce_task_state, normal_form, normalize_agent_task,
}
use velarix_bot.Tasks.Task as Task
use velarix_bot.Ledger.Contracts.{
  RunFailureCode, Outcome, Blocker, code_text, structured_blocker_fields, WorkerOutcome,
  WorkerCompletion, SealedRunResult, accepted, accept_worker_completion,
  map_run_outcome_to_task_patch, failed_patch,
}
use velarix_bot.Ledger.Report.{failure_code_of}
use velarix_bot.Ledger.Outcomes.{task_patch}

code_text-full : (c : RunFailureCode) → truthy (trim (code_text c)) ≡ true
unfolding trim
code_text-full RunFailureCode.interrupted = refl
code_text-full RunFailureCode.cancelled = refl
code_text-full RunFailureCode.provider_error = refl
code_text-full RunFailureCode.auth = refl
code_text-full RunFailureCode.config = refl
code_text-full RunFailureCode.quota = refl

structured-full :
    (blocker owner next : Option String) (b : Blocker)
    → structured_blocker_fields blocker owner next ≡ some b
    → truthy (trim b.blocker) ≡ true
unfolding structured_blocker_fields
structured-full blocker owner next b e = ground (arith, truthy-trim (get_or_else blocker ""))

failed-full :
    (text : String) (c : RunFailureCode) (blocker owner next : Option String)
    → let patch = failed_patch text (some c) (structured_blocker_fields blocker owner next) in
      (patch.state ≡ Task.blocked) × (truthy (trim (get_or_else patch.blocker "")) ≡ true)
unfolding failed_patch
failed-full text c blocker owner next =
    elim (Option-cases (structured_blocker_fields blocker owner next)) [
      | inl e ↦ rw e (refl, code_text-full c)
      | inr (b, e) ↦ rw e (refl, structured-full blocker owner next b e)
    ]

failed_shape :
    (input : WorkerCompletion) (result : SealedRunResult)
    → accept_worker_completion input ≡ accepted result
    → result.outcome ≡ Outcome.failed
    → result.blocker ≡ structured_blocker_fields input.blocker input.blocker_owner input.next_action
unfolding accept_worker_completion
failed_shape input result e h = go input.outcome refl
  where
    go :
        (o : WorkerOutcome)
        → input.outcome ≡ o
        → result.blocker
          ≡ structured_blocker_fields input.blocker input.blocker_owner input.next_action
    go WorkerOutcome.completed q = absurd (ground arith)
    go WorkerOutcome.blocked q = ground arith
    go WorkerOutcome.failed q = ground arith
    go WorkerOutcome.interrupted q = absurd (ground arith)
    go WorkerOutcome.partial q = absurd (ground arith)

failed_code :
    (result : SealedRunResult)
    → result.outcome ≡ Outcome.failed
    → (c : RunFailureCode) × (failure_code_of result ≡ some c)
unfolding failure_code_of
failed_code result h = elim (Option-cases result.failure_code) [
  | inl e ↦ (RunFailureCode.provider_error, ground arith)
  | inr (c, e) ↦ (c, ground arith)
]

mapped-full :
    (o : Outcome) (text : String) (code : Option RunFailureCode) (c : RunFailureCode)
    (b : Option Blocker) (blocker owner next : Option String)
    → o ≡ Outcome.failed
    → code ≡ some c
    → b ≡ structured_blocker_fields blocker owner next
    → is_blocked (map_run_outcome_to_task_patch o text code b).state ≡ true
    → truthy (trim (get_or_else (map_run_outcome_to_task_patch o text code b).blocker "")) ≡ true
unfolding map_run_outcome_to_task_patch
mapped-full o text code c b blocker owner next e q p h =
    ground (arith, failed-full (trim text) c blocker owner next)

blocked_outcome :
    (o : Outcome) (text : String) (code : Option RunFailureCode) (b : Option Blocker)
    → is_blocked (map_run_outcome_to_task_patch o text code b).state ≡ true
    → o ≡ Outcome.failed
unfolding map_run_outcome_to_task_patch
blocked_outcome o text code b h = ground arith

-- The patch blocks the task only with a blocker that is not blank.
pub patch_blocker :
    (input : WorkerCompletion) (result : SealedRunResult)
    → accept_worker_completion input ≡ accepted result
    → is_blocked (task_patch result).state ≡ true
    → truthy (trim (get_or_else (task_patch result).blocker "")) ≡ true
patch_blocker input result e h =
    let o = blocked_outcome result.outcome result.text (failure_code_of result) result.blocker h in
    let (c, code) = failed_code result o in
    let shape = failed_shape input result e o in
    mapped-full result.outcome result.text (failure_code_of result) c result.blocker input.blocker
      input.blocker_owner input.next_action o code shape h

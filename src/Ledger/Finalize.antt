-- ===== src/Ledger/Finalize.antt =====
-- How a run ends (server/repositories/agent-task-runs.ts, `finalize`): the result is sealed, its
-- deliveries are queued and the task is told, in one transaction.
use velarix_bot.Prelude.{
  is_some, ℕ, String, Bool, true, false, not, List, [], ◌∷◌, ◌&&◌, ◌||◌, Option, none, some, ltb,
  ◌===◌, if◌then◌else◌, get_or_else, or_else, any, truthy,
}
use velarix_bot.Prelude.Dict.{Dict, get, set}
use velarix_bot.Tasks.Task.{RunOutcome, normalize_agent_task}
use velarix_bot.Tasks.Task as Task
use velarix_bot.Tasks.Store.{Rows}
use velarix_bot.Ledger.Contracts.{
  RunFailureCode, Outcome, SealedRunResult, rejected, accepted, accept_worker_completion, RunPatch,
  map_run_outcome_to_task_patch,
}
use velarix_bot.Ledger.Canonical.{Node, canonical_json, sha256_canonical, sealed_result_bytes}
use velarix_bot.Ledger.Rows.{
  RunState, sealed, Destination, parent, room, Run, Delivery, Ledger, Result, ok, err,
  identity_mismatch, conflicting_hash, illegal_transition, not_found, hash_mismatch, not_accepted,
  aborted,
}
use velarix_bot.Ledger.Report.{FinalizeInput, failure_code_of, code_name, deliveries_of}
use velarix_bot.Ledger.Runs.{identity_matches, is_running, same_text, put_run}

abbrev pub same_outcome : Outcome → Outcome → Bool
same_outcome Outcome.completed Outcome.completed = true
same_outcome Outcome.failed Outcome.failed = true
same_outcome Outcome.interrupted Outcome.interrupted = true
same_outcome Outcome.partial Outcome.partial = true
same_outcome _ _ = false

-- What a run that does not run answers to a finalize: its own result again, or a conflict.
unfoldable pub finalize_again : Run → Outcome → String → Result Run
finalize_again run outcome computed = elim run.state [
  | RunState.pending ↦ err illegal_transition
  | RunState.running ↦ err illegal_transition
  | sealed o ↦
      if same_outcome o outcome
        && (truthy (get_or_else run.result_hash "") && same_text run.result_hash (some computed))
      then ok run
      else err conflicting_hash
]

abbrev pub asserts_other : Option String → String → Bool
asserts_other none computed = false
asserts_other (some hash) computed = truthy hash && not (hash === computed)

abbrev pub run_outcome_of : Outcome → RunOutcome
run_outcome_of Outcome.completed = Task.run_completed
run_outcome_of Outcome.failed = Task.run_failed
run_outcome_of Outcome.interrupted = Task.run_interrupted
run_outcome_of Outcome.partial = Task.run_partial

-- The patch of the outcome over the stored task; the key of the failure code is always given.
unfoldable pub project_task : String → RunPatch → Outcome → Option RunFailureCode → ℕ → Rows → Rows
project_task task_id patch outcome code now rows = elim (get task_id rows) [
  | none ↦ rows
  | some row ↦ elim (normalize_agent_task row) [
    | none ↦ rows
    | some current ↦
        elim (normalize_agent_task (record current {
          state = patch.state;
          result = or_else patch.result current.result;
          blocker = or_else patch.blocker current.blocker;
          blocker_owner = or_else patch.blocker_owner current.blocker_owner;
          next_action = or_else patch.next_action current.next_action;
          delivery_state = some Task.result_stored;
          run_outcome = some (run_outcome_of outcome);
          failure_code = code_name code;
          updated_at = now;
        })) [ none ↦ rows | some next ↦ set task_id next rows ]
  ]
]

abbrev pub same_kind : Destination → Destination → Bool
same_kind parent parent = true
same_kind room room = true
same_kind _ _ = false

-- The unique keys of deliveries next to the primary one.
unfoldable pub collides : Delivery → Delivery → Bool
collides new old =
    (old.run_id === new.run_id && same_kind old.destination_kind new.destination_kind)
    || old.message_id === new.message_id

abbrev pub any_delivery : (Delivery → Bool) → Dict Delivery → Bool
any_delivery p rows = any (λ (e : String × Delivery). p e.1) rows

-- Rows are inserted in order; none where the schema refuses one.
unfoldable pub insert_deliveries : List Delivery → Dict Delivery → Option (Dict Delivery)
unfolding collides
insert_deliveries [] rows = some rows
insert_deliveries (d ∷ ds) rows =
    let rest = insert_deliveries ds (set d.id d rows) in
    if is_some (get d.id rows) || any_delivery (collides d) rows then none else rest

unfoldable pub terminalize : Node → FinalizeInput → SealedRunResult → Run → Run
unfolding failure_code_of sealed_result_bytes canonical_json sha256_canonical
terminalize node input result run = record run {
  state = sealed result.outcome;
  result_json = some (canonical_json node (sealed_result_bytes result));
  result_hash = some (sha256_canonical node (sealed_result_bytes result));
  failure_code = failure_code_of result;
  updated_at = input.now;
}

abbrev pub is_bound : Run → Bool
is_bound run =
    truthy (get_or_else run.turn_id "")
    && (truthy (get_or_else run.provider_instance_id "")
        && truthy (get_or_else run.provider_model ""))

-- The writes of a run that ends.
unfoldable pub seal : Node → FinalizeInput → SealedRunResult → Run → Ledger → Ledger × Result Run
seal node input result run l =
    let next = terminalize node input result run in
    let patch =
      map_run_outcome_to_task_patch result.outcome result.text (failure_code_of result)
        result.blocker in
    elim (insert_deliveries (deliveries_of node input result run) l.deliveries) [
      | none ↦ (l, err aborted)
      | some rows ↦
          let next_ledger : Ledger = record (put_run run.id next l) {
            deliveries = rows;
            tasks =
                project_task run.task_id patch result.outcome (failure_code_of result) input.now
                  l.tasks;
          } in
          if ltb input.now run.updated_at then (l, err aborted) else (next_ledger, ok next)
    ]

unfoldable pub finalize_accepted :
    Node → FinalizeInput → SealedRunResult → Ledger → Ledger × Result Run
finalize_accepted node input result l =
    let computed = sha256_canonical node (sealed_result_bytes result) in
    elim (get input.identity.run_id l.runs) [
      | none ↦ (l, err not_found)
      | some run ↦
          if not (identity_matches run input.identity)
          then (l, err identity_mismatch)
          else if asserts_other input.asserted_hash computed
          then (l, err hash_mismatch)
          else if not (is_running run.state)
          then (l, finalize_again run result.outcome computed)
          else if not (is_bound run)
          then (l, err illegal_transition)
          else seal node input result run l
    ]

unfoldable pub finalize : Node → FinalizeInput → Ledger → Ledger × Result Run
finalize node input l = elim (accept_worker_completion input.result) [
  | rejected code ↦ (l, err not_accepted)
  | accepted result ↦ finalize_accepted node input result l
]

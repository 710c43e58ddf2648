-- ===== src/Ledger/Report.antt =====
-- What a run that ends reports (server/repositories/agent-task-runs.ts, `finalize`): the message for its
-- parent and its room, and the rows that deliver it.
use velarix_bot.Prelude.{
  ℕ, String, Bool, true, false, List, [], ◌∷◌, Option, none, some, if◌then◌else◌, get_or_else,
  or_else, truthy,
}
use velarix_bot.Ledger.Contracts.{
  RunFailureCode, Outcome, WorkerCompletion, SealedRunResult, rejected, accepted,
  accept_worker_completion, RunPatch, map_run_outcome_to_task_patch, code_text,
}
use velarix_bot.Ledger.Contracts as Contracts
use velarix_bot.Ledger.Canonical.{
  Json, text, object, Fields, no_fields, field, Node, canonical_json, sha256_canonical,
  outcome_name, deterministic_delivery_message_id,
}
use velarix_bot.Ledger.Rows.{
  RunState, sealed, Destination, parent, room, Run, Delivery, Ledger, LedgerErrorCode, Result, ok,
  err, identity_mismatch, conflicting_hash, illegal_transition, not_found, hash_mismatch,
  not_accepted, aborted,
}
use velarix_bot.Ledger.Rows as Rows
use velarix_bot.Ledger.Runs.{RunBoundIdentity}

abbrev pub default_max_attempts : ℕ
default_max_attempts = 5

-- The options of a call of finalize, and the ids that the new deliveries get.
pub record FinalizeInput : Type 0 where
  pub identity : RunBoundIdentity
  pub result : WorkerCompletion
  pub asserted_hash : Option String
  pub worker_name : Option String
  pub worker_color : Option String
  pub now : ℕ
  pub parent_id : String
  pub room_id : String

abbrev is_completed : Outcome → Bool
is_completed Outcome.completed = true
is_completed Outcome.failed = false
is_completed Outcome.interrupted = false
is_completed Outcome.partial = false

abbrev default_code : Outcome → RunFailureCode
default_code Outcome.completed = Contracts.provider_error
default_code Outcome.failed = Contracts.provider_error
default_code Outcome.interrupted = RunFailureCode.interrupted
default_code Outcome.partial = RunFailureCode.interrupted

unfoldable pub failure_code_of : SealedRunResult → Option RunFailureCode
failure_code_of result =
    if is_completed result.outcome
    then none
    else or_else result.failure_code (some (default_code result.outcome))

abbrev report_status : Outcome → String
report_status Outcome.completed = "terminal"
report_status Outcome.failed = "failed"
report_status Outcome.interrupted = "terminal"
report_status Outcome.partial = "terminal"

abbrev optional_field : String → Option String → Fields
optional_field key none = no_fields
optional_field key (some value) = field key (text value) no_fields

abbrev truthy_only : Option String → Option String
truthy_only none = none
truthy_only (some s) = if truthy s then some s else none

abbrev pub code_name : Option RunFailureCode → Option String
code_name none = none
code_name (some code) = some (code_text code)

-- The message that the deliveries of the run carry.
unfoldable pub payload_of : FinalizeInput → SealedRunResult → Run → Json
unfolding failure_code_of
payload_of input result run =
    let shown =
      if truthy result.text
      then result.text
      else if is_completed result.outcome
      then "finished"
      else outcome_name result.outcome in
    let report : Fields =
      field "kind" (text (if is_completed result.outcome then "completion" else "blocker")) (
        field "fromBotId" (text run.worker_bot_id) (
          field "taskId" (text run.task_id) (
            field "status" (text (report_status result.outcome))
              (optional_field "failureCode" (code_name (failure_code_of result)))))) in
    let from : Fields = field "botId" (text run.worker_bot_id) (
      field "name" (text (get_or_else input.worker_name run.worker_bot_id))
        (optional_field "color" (truthy_only input.worker_color))) in
    object (
      field "role" (text "bot") (
        field "kind" (text "text") (
          field "text" (text shown) (
            field "report" (object report) (
              field "from" (object from)
                (field "task" (object (field "id" (text run.task_id) no_fields)) no_fields))))))

unfoldable pub new_delivery :
    Node → FinalizeInput → Json → Run → Destination → String → String → Delivery
unfolding canonical_json sha256_canonical deterministic_delivery_message_id
new_delivery node input payload run kind thread_id new_id = record {
  id = new_id;
  run_id = run.id;
  destination_kind = kind;
  destination_thread_id = thread_id;
  message_id = deterministic_delivery_message_id run.id kind;
  payload_json = canonical_json node payload;
  payload_hash = sha256_canonical node payload;
  state = Rows.pending;
  attempts = 0;
  max_attempts = default_max_attempts;
  retry_at = none;
  claim_token = none;
  claim_owner = none;
  claim_lease_expires_at = none;
  claim_generation = 0;
  failure_code = none;
  delivered_at = none;
  published_at = none;
  created_at = input.now;
  updated_at = input.now;
}

-- The parent, and the room if there is one.
unfoldable pub deliveries_of : Node → FinalizeInput → SealedRunResult → Run → List Delivery
unfolding payload_of new_delivery
deliveries_of node input result run =
    let payload = payload_of input result run in
    let for_room : List Delivery = elim (truthy_only run.room_thread_id) [
      | none ↦ []
      | some thread ↦ new_delivery node input payload run room thread input.room_id ∷ []
    ] in
    new_delivery node input payload run parent run.parent_thread_id input.parent_id ∷ for_room

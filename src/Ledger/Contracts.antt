-- ===== src/Ledger/Contracts.antt =====
-- What a worker hands in at the end of a run, and what it makes of the task (server/contracts.ts).
use velarix_bot.Prelude.{
  String, Bool, true, false, ◌&&◌, Option, none, some, if◌then◌else◌, get_or_else, or_else, truthy,
  trim,
}
use velarix_bot.Tasks.Task.{AgentTaskState}
use velarix_bot.Tasks.Task as Task

pub data RunFailureCode : Type 0 where
  interrupted cancelled provider_error auth config quota : RunFailureCode

pub data Outcome : Type 0 where
  completed failed interrupted partial : Outcome

pub data WorkerOutcome : Type 0 where
  completed blocked failed interrupted partial : WorkerOutcome

pub data RejectCode : Type 0 where
  empty_completed_result incomplete_blocker : RejectCode

pub record WorkerCompletion : Type 0 where
  pub outcome : WorkerOutcome
  pub text : Option String
  pub failure_code : Option RunFailureCode
  pub blocker : Option String
  pub blocker_owner : Option String
  pub next_action : Option String

pub record Blocker : Type 0 where
  pub blocker : String
  pub blocker_owner : String
  pub next_action : String

-- The result that is sealed, with the structured blocker if there is one.
pub record SealedRunResult : Type 0 where
  pub text : String
  pub outcome : Outcome
  pub failure_code : Option RunFailureCode
  pub blocker : Option Blocker

pub data Acceptance : Type 0 where
  rejected : RejectCode → Acceptance
  accepted : SealedRunResult → Acceptance

abbrev trimmed : Option String → String
trimmed value = trim (get_or_else value "")

-- none where one of the three is blank.
unfoldable pub structured_blocker_fields :
    Option String → Option String → Option String → Option Blocker
structured_blocker_fields blocker owner action =
    if truthy (trimmed blocker) && (truthy (trimmed owner) && truthy (trimmed action))
    then some (record {
      blocker = trimmed blocker;
      blocker_owner = trimmed owner;
      next_action = trimmed action;
    })
    else none

abbrev or_text : String → String → String
or_text s t = if truthy s then s else t

abbrev plain : String → Outcome → Option RunFailureCode → Option Blocker → Acceptance
plain text outcome code blocker =
    accepted (record { text = text; outcome = outcome; failure_code = code; blocker = blocker })

unfoldable pub accept_worker_completion : WorkerCompletion → Acceptance
accept_worker_completion input =
    let text = trimmed input.text in
    let structured =
      structured_blocker_fields input.blocker input.blocker_owner input.next_action in
    elim input.outcome [
      | WorkerOutcome.completed ↦
          if truthy text
          then plain text Outcome.completed input.failure_code none
          else rejected empty_completed_result
      | WorkerOutcome.blocked ↦ elim structured [
        | none ↦ rejected incomplete_blocker
        | some b ↦
            plain (or_text text b.blocker) Outcome.failed
              (or_else input.failure_code (some provider_error)) (some b)
      ]
      | WorkerOutcome.failed ↦ plain text Outcome.failed input.failure_code structured
      | WorkerOutcome.interrupted ↦ plain text Outcome.interrupted input.failure_code none
      | WorkerOutcome.partial ↦ plain text Outcome.partial input.failure_code none
    ]

-- The fields that the outcome of a run sets in its task; a field is none where the key is not given.
pub record RunPatch : Type 0 where
  pub state : AgentTaskState
  pub result : Option String
  pub blocker : Option String
  pub blocker_owner : Option String
  pub next_action : Option String

abbrev pub code_text : RunFailureCode → String
code_text RunFailureCode.interrupted = "interrupted"
code_text RunFailureCode.cancelled = "cancelled"
code_text provider_error = "provider_error"
code_text auth = "auth"
code_text config = "config"
code_text quota = "quota"

abbrev only : AgentTaskState → Option String → RunPatch
only state result = record {
  state = state;
  result = result;
  blocker = none;
  blocker_owner = none;
  next_action = none;
}

abbrev is_stopped : Option RunFailureCode → Bool
is_stopped none = false
is_stopped (some RunFailureCode.interrupted) = true
is_stopped (some RunFailureCode.cancelled) = true
is_stopped (some provider_error) = false
is_stopped (some auth) = false
is_stopped (some config) = false
is_stopped (some quota) = false

abbrev some_text : String → Option String
some_text s = if truthy s then some s else none

-- A run that failed for a reason of its own.
unfoldable pub failed_patch : String → Option RunFailureCode → Option Blocker → RunPatch
failed_patch text code (some b) = record {
  state = Task.blocked;
  result = none;
  blocker = some b.blocker;
  blocker_owner = some b.blocker_owner;
  next_action = some b.next_action;
}
failed_patch text (some code) none = record {
  state = Task.blocked;
  result = none;
  blocker = some (code_text code);
  blocker_owner = none;
  next_action = none;
}
failed_patch text none none =
    if truthy text
    then record {
      state = Task.blocked;
      result = none;
      blocker = some text;
      blocker_owner = none;
      next_action = none;
    }
    else only Task.stale none

-- The structured blocker of a sealed result is trimmed and has no blank part, so that reading its
-- fields anew gives it back.
unfoldable pub map_run_outcome_to_task_patch :
    Outcome → String → Option RunFailureCode → Option Blocker → RunPatch
unfolding failed_patch
map_run_outcome_to_task_patch outcome raw code blocker =
    let text = trim raw in
    let stopped = only Task.cancelled (some_text text) in
    elim outcome [
      | Outcome.completed ↦
          if truthy text then only Task.completed (some text) else only Task.stale none
      | Outcome.interrupted ↦ stopped
      | Outcome.partial ↦ stopped
      | Outcome.failed ↦ if is_stopped code then stopped else failed_patch text code blocker
    ]

-- ===== src/Ledger/Stamps.antt =====
-- What the progress messages of a run say of its end (`progressStampFromLedger` and
-- `stampProgressFromLedger` of server/services/delegated-results.ts). The messages whose report is one
-- of progress are kept apart from the messages that deliveries put: the report of a delivery is a
-- completion or a blocker, never progress. The deliveries of a run stand in the order of the query, as
-- that of its parent thread is inserted before that of its room.
use velarix_bot.Prelude.{
  String, Bool, true, false, not, List, [], ◌∷◌, ◌&&◌, ◌||◌, Option, none, some, map, ◌===◌,
  if◌then◌else◌, find_first, or_else, any,
}
use velarix_bot.Prelude.Dict.{Dict, get}
use velarix_bot.Ledger.Contracts.{Outcome, code_text}
use velarix_bot.Ledger.Rows.{
  RunState, sealed, Run, DeliveryState, DeliveryFailureCode, Delivery, Ledger,
}
use velarix_bot.Ledger.Deliveries.{is_delivered}
use velarix_bot.Ledger.Runs.{same_text}

pub data ReportStatus : Type 0 where
  pending terminal failed delivery_failed : ReportStatus

-- A message whose report is one of progress, with the fields of the report that stamps read or write.
pub record ProgressMessage : Type 0 where
  pub id : String
  pub thread_id : String
  pub task_id : String
  pub status : Option ReportStatus
  pub failure_code : Option String

pub record Stamp : Type 0 where
  pub status : ReportStatus
  pub failure_code : Option String

delivery_code_text : DeliveryFailureCode → String
delivery_code_text DeliveryFailureCode.destination_unavailable = "destination_unavailable"
delivery_code_text DeliveryFailureCode.io_error = "io_error"
delivery_code_text DeliveryFailureCode.conflict_retry = "conflict_retry"
delivery_code_text DeliveryFailureCode.auth = "auth"
delivery_code_text DeliveryFailureCode.config = "config"
delivery_code_text DeliveryFailureCode.quota = "quota"
delivery_code_text DeliveryFailureCode.payload_mismatch = "payload_mismatch"
delivery_code_text DeliveryFailureCode.identity_mismatch = "identity_mismatch"
delivery_code_text DeliveryFailureCode.attempts_exhausted = "attempts_exhausted"

delivery_code : Delivery → Option String
unfolding delivery_code_text
delivery_code d = elim d.failure_code [ none ↦ none | some code ↦ some (delivery_code_text code) ]

run_code : Run → Option String
run_code run = elim run.failure_code [ none ↦ none | some code ↦ some (code_text code) ]

is_permanent : Delivery → Bool
is_permanent d = elim d.state [
  | DeliveryState.pending ↦ false
  | DeliveryState.claimed ↦ false
  | DeliveryState.delivered ↦ false
  | DeliveryState.failed ↦ true
  | DeliveryState.rejected ↦ true
]

first_code : List Delivery → Option String
unfolding delivery_code
first_code [] = none
first_code (d ∷ ds) = or_else (delivery_code d) (first_code ds)

all_delivered : List Delivery → Bool
all_delivered [] = false
all_delivered (d ∷ []) = is_delivered d.state
all_delivered (d ∷ e ∷ ds) = is_delivered d.state && all_delivered (e ∷ ds)

-- The stamp of a run that has ended.
sealed_stamp : Run → Outcome → List Delivery → Stamp
unfolding is_permanent first_code all_delivered run_code delivery_code
sealed_stamp run outcome deliveries =
    let status : ReportStatus = elim outcome [
      | Outcome.completed ↦ terminal
      | Outcome.failed ↦ failed
      | Outcome.interrupted ↦ terminal
      | Outcome.partial ↦ terminal
    ] in
    elim (find_first is_permanent deliveries) [
      | some d ↦ record {
        status = delivery_failed;
        failure_code = or_else (delivery_code d) (run_code run);
      }
      | none ↦
          if all_delivered deliveries
          then record { status = status; failure_code = run_code run }
          else record {
            status = pending;
            failure_code = or_else (first_code deliveries) (run_code run);
          }
    ]

unfoldable pub progress_stamp_from_ledger : Run → List Delivery → Option Stamp
unfolding sealed_stamp
progress_stamp_from_ledger run deliveries = elim run.state [
  | RunState.pending ↦ none
  | RunState.running ↦ none
  | sealed outcome ↦ some (sealed_stamp run outcome deliveries)
]

unfoldable pub list_deliveries_for_run : String → Dict Delivery → List Delivery
list_deliveries_for_run run_id [] = []
list_deliveries_for_run run_id ((id, d) ∷ rows) =
    let rest = list_deliveries_for_run run_id rows in if d.run_id === run_id then d ∷ rest else rest

-- The threads whose messages are looked through.
threads_of : Run → List Delivery → List String
threads_of run deliveries = run.source_thread_id ∷ run.parent_thread_id ∷ elim run.room_thread_id [
  | none ↦ map (λ d. d.destination_thread_id) deliveries
  | some room ↦ room ∷ map (λ d. d.destination_thread_id) deliveries
]

same_status : Option ReportStatus → ReportStatus → Bool
same_status (some pending) pending = true
same_status (some terminal) terminal = true
same_status (some failed) failed = true
same_status (some delivery_failed) delivery_failed = true
same_status _ _ = false

-- A code that the stamp does not have stays.
unfoldable pub restamp : List String → String → Stamp → ProgressMessage → ProgressMessage
unfolding same_status
restamp threads task_id stamp message =
    if not (any (λ t. t === message.thread_id) threads) || not (message.task_id === task_id)
    then message
    else if same_status message.status stamp.status
        && same_text message.failure_code stamp.failure_code
    then message
    else record message {
      status = some stamp.status;
      failure_code = or_else stamp.failure_code message.failure_code;
    }

unfoldable pub stamp_progress_from_ledger :
    Run → Dict Delivery → List ProgressMessage → List ProgressMessage
unfolding threads_of
stamp_progress_from_ledger run rows messages =
    let deliveries = list_deliveries_for_run run.id rows in
    elim (progress_stamp_from_ledger run deliveries) [
      | none ↦ messages
      | some stamp ↦ map (restamp (threads_of run deliveries) run.task_id stamp) messages
    ]

unfoldable pub stamp_run_by_id : Ledger → String → List ProgressMessage → List ProgressMessage
stamp_run_by_id l run_id messages = elim (get run_id l.runs) [
  | none ↦ messages
  | some run ↦ stamp_progress_from_ledger run l.deliveries messages
]

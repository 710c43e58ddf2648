-- ===== src/Ledger/Pump.antt =====
-- The pump that delivers results (server/services/delegated-results.ts, `putFixed` of
-- server/repositories/messages.ts): a delivery is claimed, its message is stored and confirmed in one
-- transaction, or the attempt has failed. Payloads are compared as the canonical texts that deliveries
-- hold. The broadcasts are left out.
use velarix_bot.Prelude.{
  ℕ, String, Bool, true, false, ◌&&◌, is_some, not, List, [], ◌∷◌, Option, none, some, map, any,
  ◌===◌, if◌then◌else◌,
}
use velarix_bot.Prelude.Dict.{Dict, get, set}
use velarix_bot.Tasks.Task.{normalize_agent_task}
use velarix_bot.Tasks.Task as Task
use velarix_bot.Tasks.Store.{Rows}
use velarix_bot.Ledger.Rows.{
  Run, Delivery, DeliveryFailureCode, Ledger, LedgerErrorCode, Result, ok, err, stale_claim,
}
use velarix_bot.Ledger.Deliveries.{is_delivered, claim, default_claim_lease_ms}
use velarix_bot.Ledger.Receipts.{Messages, ack, fail_delivery, mark_published, is_committed}
use velarix_bot.Ledger.Stamps.{ProgressMessage, stamp_run_by_id}

pub record StoredMessage : Type 0 where
  pub thread_id : String
  pub payload : String

-- The threads that exist, and the messages by their ids.
pub record Inbox : Type 0 where
  pub threads : List String
  pub messages : Dict StoredMessage

pub data PutFixedResult : Type 0 where
  inserted verified missing_thread : PutFixedResult
  conflict : DeliveryFailureCode → PutFixedResult

-- A message whose id is taken is left as it is.
unfoldable pub put_fixed : String → String → String → Inbox → Inbox × PutFixedResult
put_fixed thread_id id payload inbox =
    let new : StoredMessage = record { thread_id = thread_id; payload = payload } in
    let stored : Inbox = record inbox { messages = set id new inbox.messages } in
    let answer : Inbox × PutFixedResult = elim (get id inbox.messages) [
      | none ↦ (stored, inserted)
      | some m ↦
          if not (m.thread_id === thread_id)
          then (inbox, conflict DeliveryFailureCode.identity_mismatch)
          else if not (m.payload === payload)
          then (inbox, conflict DeliveryFailureCode.payload_mismatch)
          else (inbox, verified)
    ] in
    if any (λ t. t === thread_id) inbox.threads then answer else (inbox, missing_thread)

-- The ids and the threads of the stored messages.
abbrev pub committed : Inbox → Messages
committed inbox = map (λ (e : String × StoredMessage). (e.0, e.1.thread_id)) inbox.messages

pub data Attempt : Type 0 where
  nothing_due delivered failed : Attempt
  threw : LedgerErrorCode → Attempt

pub record System : Type 0 where
  pub ledger : Ledger
  pub inbox : Inbox
  pub progress : List ProgressMessage

-- `projectTaskDelivery`: the task of the run is told.
unfoldable pub project_task_delivery : Option Run → ℕ → Rows → Rows
project_task_delivery none now rows = rows
project_task_delivery (some run) now rows = elim (get run.task_id rows) [
  | none ↦ rows
  | some task ↦
      elim (normalize_agent_task
        (record task { delivery_state = some Task.delivered; updated_at = now })) [
          | none ↦ rows
          | some next ↦ set run.task_id next rows
        ]
]

-- The run of a delivery that has failed is stamped; where `failDelivery` throws it is not.
abbrev answered : Ledger × Result Delivery → String → System → System × Attempt
answered r run_id s = elim r.1 [
  | ok d ↦ (record s { ledger = r.0; progress = stamp_run_by_id r.0 run_id s.progress }, failed)
  | err code ↦ (record s { ledger = r.0 }, threw code)
]

unfoldable pub fail_attempt :
    Delivery → String → DeliveryFailureCode → ℕ → System → System × Attempt
fail_attempt d token code now s = answered (fail_delivery d.id token code now s.ledger) d.run_id s

abbrev pub error_code : LedgerErrorCode → DeliveryFailureCode
error_code stale_claim = DeliveryFailureCode.conflict_retry
error_code _ = DeliveryFailureCode.io_error

-- What follows a receipt: the task, and the publication.
unfoldable pub publish : Messages → Delivery → ℕ → Ledger → Ledger
unfolding project_task_delivery
publish messages d now l =
    let told : Ledger = record l {
      tasks = project_task_delivery (get d.run_id l.runs) now l.tasks;
    } in
    (mark_published messages d.id now told).0

-- The message is stored with its receipt, or neither is.
unfoldable pub confirm : Delivery → String → ℕ → System → Inbox → System × Attempt
confirm d token now s inbox =
    let r = ack (committed inbox) d.id token now s.ledger in
    elim r.1 [
      | ok acked ↦ (
        record {
          ledger = publish (committed inbox) d now r.0;
          inbox = inbox;
          progress = stamp_run_by_id r.0 d.run_id s.progress;
        },
        delivered,
      )
      | err code ↦ fail_attempt d token (error_code code) now s
    ]

unfoldable pub put_and_ack : Delivery → String → ℕ → System → System × Attempt
put_and_ack d token now s =
    let put = put_fixed d.destination_thread_id d.message_id d.payload_json s.inbox in
    elim put.1 [
      | inserted ↦ confirm d token now s put.0
      | verified ↦ confirm d token now s put.0
      | missing_thread ↦ fail_attempt d token DeliveryFailureCode.destination_unavailable now s
      | conflict code ↦ fail_attempt d token code now s
    ]

unfoldable pub deliver_one : String → String → ℕ → System → System × Attempt
deliver_one token owner now s =
    let r = claim none token owner (some default_claim_lease_ms) now s.ledger in
    let claimed : System = record s { ledger = r.0 } in
    elim r.1 [
      | err code ↦ (claimed, threw code)
      | ok none ↦ (claimed, nothing_due)
      | ok (some d) ↦ put_and_ack d token now claimed
    ]

-- The loop of `pumpDue`, with the tokens of its claims, 32 at most; and whether an attempt threw.
unfoldable pub deliver_due : List String → String → ℕ → System → System × Bool
deliver_due [] owner now s = (s, false)
deliver_due (token ∷ tokens) owner now s =
    let r = deliver_one token owner now s in
    let rest = deliver_due tokens owner now r.0 in
    elim r.1 [
      | nothing_due ↦ (r.0, false)
      | delivered ↦ rest
      | failed ↦ rest
      | threw code ↦ (r.0, true)
    ]

-- `listUnpublished`; its order is without effect, as the marks are of different rows.
unfoldable pub list_unpublished : Dict Delivery → List Delivery
list_unpublished [] = []
list_unpublished ((id, d) ∷ rows) =
    let rest = list_unpublished rows in
    if is_delivered d.state && not (is_some d.published_at) then d ∷ rest else rest

-- A delivered row whose message is stored is marked as published.
unfoldable pub republish : Messages → List Delivery → ℕ → Ledger → Ledger
republish messages [] now l = l
republish messages (d ∷ ds) now l =
    let marked = republish messages ds now (mark_published messages d.id now l).0 in
    let passed = republish messages ds now l in if is_committed messages d then marked else passed

unfoldable pub pump_due : List String → String → ℕ → System → System
pump_due tokens owner now s =
    let r = deliver_due tokens owner now s in
    let messages = committed r.0.inbox in
    if r.1 then r.0 else record r.0 {
      ledger = republish messages (list_unpublished r.0.ledger.deliveries) now r.0.ledger;
    }

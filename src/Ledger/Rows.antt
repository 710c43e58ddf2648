-- ===== src/Ledger/Rows.antt =====
-- The tables of the ledger (server/repositories/agent-task-runs.ts, server/db/migrations.ts): each is a
-- map from its primary key. Texts have the lengths and numbers the ranges that the schema asks for.
use velarix_bot.Prelude.{ℕ, String, List, Option}
use velarix_bot.Prelude.Dict.{Dict}
use velarix_bot.Tasks.Store.{Rows}
use velarix_bot.Ledger.Contracts.{RunFailureCode, Outcome}

-- `execution_state` and `terminal_outcome`, which the schema holds equal once a run has ended.
pub data RunState : Type 0 where
  pending running : RunState
  sealed : Outcome → RunState

pub data Destination : Type 0 where
  parent room : Destination

pub data DeliveryState : Type 0 where
  pending claimed delivered failed rejected : DeliveryState

-- The codes of a delivery, transient ones first, then permanent ones.
pub data DeliveryFailureCode : Type 0 where
  destination_unavailable io_error conflict_retry : DeliveryFailureCode
  auth config quota payload_mismatch identity_mismatch : DeliveryFailureCode
  attempts_exhausted : DeliveryFailureCode

pub record Run : Type 0 where
  pub id : String
  pub task_id : String
  pub worker_bot_id : String
  pub worker_thread_id : String
  pub source_bot_id : String
  pub source_thread_id : String
  pub parent_thread_id : String
  pub room_thread_id : Option String
  pub attempt : ℕ
  pub state : RunState
  pub turn_id : Option String
  pub provider_instance_id : Option String
  pub provider_model : Option String
  pub started_at : Option ℕ
  pub created_at : ℕ
  pub updated_at : ℕ
  pub last_progress_at : Option ℕ
  pub progress_seq : ℕ
  pub progress_json : Option String
  pub result_json : Option String
  pub result_hash : Option String
  pub failure_code : Option RunFailureCode

pub record Delivery : Type 0 where
  pub id : String
  pub run_id : String
  pub destination_kind : Destination
  pub destination_thread_id : String
  pub message_id : String
  pub payload_json : String
  pub payload_hash : String
  pub state : DeliveryState
  pub attempts : ℕ
  pub max_attempts : ℕ
  pub retry_at : Option ℕ
  pub claim_token : Option String
  pub claim_owner : Option String
  pub claim_lease_expires_at : Option ℕ
  pub claim_generation : ℕ
  pub failure_code : Option DeliveryFailureCode
  pub delivered_at : Option ℕ
  pub published_at : Option ℕ
  pub created_at : ℕ
  pub updated_at : ℕ

pub data ClaimOutcome : Type 0 where
  acked reclaimed : ClaimOutcome

pub record Claim : Type 0 where
  pub delivery_id : String
  pub generation : ℕ
  pub token : String
  pub owner : String
  pub claimed_at : ℕ
  pub lease_expires_at : ℕ
  pub outcome : Option ClaimOutcome

pub record Ledger : Type 0 where
  pub runs : Dict Run
  pub deliveries : Dict Delivery
  pub claims : List Claim
  pub tasks : Rows

-- The codes of LedgerError, a completion that is not accepted, and a statement that the database aborts.
pub data LedgerErrorCode : Type 0 where
  identity_mismatch conflicting_hash illegal_transition stale_claim token_reused not_found :
      LedgerErrorCode
  not_failed hash_mismatch attempts_exhausted_illegal not_accepted aborted : LedgerErrorCode

pub data Result {ℓ} (A : Type ℓ) : Type ℓ where
  ok : A → Result A
  err : LedgerErrorCode → Result A

-- ===== src/Ledger/Schema.antt =====
-- What the schema asks of a delivery (server/db/migrations.ts, the table agent_task_deliveries and its
-- triggers): the states that follow each other, the fields that stay, and the checks of a row.
use velarix_bot.Prelude.{
  ℕ, ◌+◌, ◌≤◌, String, Bool, true, false, not, ◌&&◌, ◌||◌, Option, none, some, ltb, leb, is_some,
  ◌≡◌, refl, arith,
}
use velarix_bot.Ledger.Rows.{
  Destination, DeliveryState, DeliveryFailureCode, Delivery, pending, claimed, delivered, failed,
  rejected,
}
use velarix_bot.Ledger.Deliveries.{max_claim_lease_ms}
use velarix_bot.Ledger.Receipts.{is_exhausted_code}

-- agent_task_deliveries_legal_transition.
abbrev pub legal_transition : DeliveryState → DeliveryState → Bool
legal_transition pending pending = true
legal_transition pending claimed = true
legal_transition pending delivered = false
legal_transition pending failed = true
legal_transition pending rejected = true
legal_transition claimed new = true
legal_transition delivered delivered = true
legal_transition delivered _ = false
legal_transition failed failed = true
legal_transition failed pending = true
legal_transition failed _ = false
legal_transition rejected rejected = true
legal_transition rejected _ = false

abbrev pub is_terminal : DeliveryState → Bool
is_terminal pending = false
is_terminal claimed = false
is_terminal delivered = true
is_terminal failed = false
is_terminal rejected = true

-- The columns of agent_task_deliveries_identity_immutable.
abbrev pub Identity : Type 0
Identity = String × String × Destination × String × String × String × String

abbrev pub identity_of : Delivery → Identity
identity_of d = (
  d.id, d.run_id, d.destination_kind, d.destination_thread_id, d.message_id, d.payload_json,
  d.payload_hash,
)

-- An update that the triggers let through.
pub record Accepted (old new : Delivery) : Type 0 where
  pub transition : legal_transition old.state new.state ≡ true
  pub identity : identity_of new ≡ identity_of old
  pub receipt_code : is_terminal old.state ≡ true → new.failure_code ≡ old.failure_code
  pub receipt_time : is_terminal old.state ≡ true → new.delivered_at ≡ old.delivered_at
  pub time : old.updated_at ≤ new.updated_at

abbrev lease_ok : Option ℕ → ℕ → Bool
lease_ok none updated_at = false
lease_ok (some at) updated_at = ltb updated_at at && leb at (updated_at + max_claim_lease_ms)

-- The check of the table that relates the columns to the state, with the bounds of the lease.
unfoldable pub columns_ok : Delivery → Bool
columns_ok d = elim d.state [
  | pending ↦ not (is_some d.delivered_at)
  | claimed ↦
      is_some d.claim_token
      && (is_some d.claim_owner
          && (lease_ok d.claim_lease_expires_at d.updated_at && not (is_some d.delivered_at)))
  | delivered ↦ is_some d.delivered_at && is_some d.claim_token
  | failed ↦ not (is_some d.delivered_at)
  | rejected ↦ not (is_some d.delivered_at)
]

abbrev code_ok : Option DeliveryFailureCode → ℕ → ℕ → Bool
code_ok none attempts max_attempts = true
code_ok (some code) attempts max_attempts =
    not (is_exhausted_code code) || leb max_attempts attempts

unfoldable pub row_ok : Delivery → Bool
unfolding columns_ok
row_ok d = columns_ok d && code_ok d.failure_code d.attempts d.max_attempts

pub stays_legal : (s : DeliveryState) → legal_transition s s ≡ true
stays_legal pending = refl
stays_legal claimed = refl
stays_legal delivered = refl
stays_legal failed = refl
stays_legal rejected = refl

pub Accepted-refl : (d : Delivery) → Accepted d d
Accepted-refl d = record {
  transition = stays_legal d.state;
  identity = refl;
  receipt_code = λ _. refl;
  receipt_time = λ _. refl;
  time = omega arith;
}

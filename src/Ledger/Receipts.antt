-- ===== src/Ledger/Receipts.antt =====
-- What becomes of a claimed delivery (server/repositories/agent-task-runs.ts): receipt, failure, retry
-- and publication. The messages that are stored are an argument, by id and thread.
use velarix_bot.Prelude.{
  ℕ, ◌+◌, ◌-◌, ◌*◌, ◌^◌, String, Bool, true, false, not, List, ◌&&◌, ◌||◌, none, some, ltb, leb,
  ◌==◌, ◌===◌, if◌then◌else◌, is_some, any,
}
use velarix_bot.Prelude.Dict.{get}
use velarix_bot.Ledger.Rows.{
  RunState, sealed, DeliveryState, claimed, delivered, failed, DeliveryFailureCode,
  attempts_exhausted, Run, Delivery, ClaimOutcome, acked, reclaimed, Claim, Ledger, LedgerErrorCode,
  Result, ok, err, illegal_transition, stale_claim, token_reused, not_found, not_failed,
  attempts_exhausted_illegal, aborted,
}
use velarix_bot.Ledger.Rows as Rows
use velarix_bot.Ledger.Runs.{same_text}
use velarix_bot.Ledger.Deliveries.{
  min, max, is_claimed, is_delivered, is_failed, put_delivery, mark_claim_outcome,
}

unfoldable pub delivery_backoff_ms : ℕ → ℕ
delivery_backoff_ms attempts = let exp = min (max attempts 1) 8 in min (1000 * 2 ^ (exp - 1)) 60000

abbrev pub is_transient_delivery_failure : DeliveryFailureCode → Bool
is_transient_delivery_failure Rows.destination_unavailable = true
is_transient_delivery_failure Rows.io_error = true
is_transient_delivery_failure Rows.conflict_retry = true
is_transient_delivery_failure _ = false

abbrev pub is_permanent_delivery_failure : DeliveryFailureCode → Bool
is_permanent_delivery_failure DeliveryFailureCode.auth = true
is_permanent_delivery_failure DeliveryFailureCode.config = true
is_permanent_delivery_failure DeliveryFailureCode.quota = true
is_permanent_delivery_failure DeliveryFailureCode.payload_mismatch = true
is_permanent_delivery_failure DeliveryFailureCode.identity_mismatch = true
is_permanent_delivery_failure _ = false

abbrev pub is_exhausted_code : DeliveryFailureCode → Bool
is_exhausted_code attempts_exhausted = true
is_exhausted_code _ = false

-- The messages that are stored: their ids and their threads.
abbrev pub Messages : Type 0
Messages = List (String × String)

unfoldable pub is_committed : Messages → Delivery → Bool
is_committed messages d =
    any (λ (m : String × String). m.0 === d.message_id && m.1 === d.destination_thread_id) messages

-- A token that another claim of the delivery has had.
unfoldable pub is_used : Delivery → String → Claim → Bool
is_used d token c =
    c.delivery_id === d.id && (c.token === token && not (c.generation == d.claim_generation))

abbrev pub holds_claim : Delivery → String → Bool
holds_claim d token = is_claimed d.state && same_text d.claim_token (some token)

abbrev pub acked_row : Delivery → ℕ → Delivery
acked_row d now = record d {
  state = DeliveryState.delivered;
  delivered_at = some now;
  updated_at = now;
  failure_code = none;
  retry_at = none;
}

unfoldable pub ack : Messages → String → String → ℕ → Ledger → Ledger × Result Delivery
unfolding is_used is_committed mark_claim_outcome
ack messages id token now l = elim (get id l.deliveries) [
  | none ↦ (l, err not_found)
  | some d ↦
      let next_ledger : Ledger = record (put_delivery id (acked_row d now) l) {
        claims = mark_claim_outcome acked d.id d.claim_generation l.claims;
      } in
      if is_delivered d.state && same_text d.claim_token (some token)
      then (l, ok d)
      else if any (is_used d token) l.claims
      then (l, err token_reused)
      else if not (holds_claim d token)
      then (l, err stale_claim)
      else if not (is_committed messages d) || ltb now d.updated_at
      then (l, err aborted)
      else (next_ledger, ok (acked_row d now))
]

-- The row after an attempt that failed: it waits for another, or it has failed for good.
unfoldable pub failed_row : Delivery → DeliveryFailureCode → ℕ → Delivery
unfolding delivery_backoff_ms
failed_row d failure_code now =
    let exhausted = leb d.max_attempts d.attempts in
    let permanent = is_permanent_delivery_failure failure_code || is_exhausted_code failure_code in
    let code =
      if exhausted && is_transient_delivery_failure failure_code
      then attempts_exhausted
      else failure_code in
    if permanent || exhausted
    then record d {
      state = DeliveryState.failed;
      failure_code = some code;
      retry_at = none;
      updated_at = now;
    }
    else record d {
      state = DeliveryState.pending;
      failure_code = some code;
      retry_at = some (now + delivery_backoff_ms d.attempts);
      claim_token = none;
      claim_owner = none;
      claim_lease_expires_at = none;
      updated_at = now;
    }

unfoldable pub fail_delivery :
    String → String → DeliveryFailureCode → ℕ → Ledger → Ledger × Result Delivery
unfolding failed_row
fail_delivery id token failure_code now l = elim (get id l.deliveries) [
  | none ↦ (l, err not_found)
  | some d ↦
      let next = failed_row d failure_code now in
      if not (holds_claim d token)
      then (l, err stale_claim)
      else if is_exhausted_code failure_code && ltb d.attempts d.max_attempts
      then (l, err attempts_exhausted_illegal)
      else if ltb now d.updated_at
      then (l, err aborted)
      else (put_delivery id next l, ok next)
]

unfoldable pub retry_failed : String → ℕ → Ledger → Ledger × Result Delivery
retry_failed id now l = elim (get id l.deliveries) [
  | none ↦ (l, err not_found)
  | some d ↦
      let next : Delivery = record d {
        state = DeliveryState.pending;
        retry_at = some now;
        failure_code = none;
        claim_token = none;
        claim_owner = none;
        claim_lease_expires_at = none;
        updated_at = now;
      } in
      if not (is_failed d.state)
      then (l, err not_failed)
      else if ltb now d.updated_at
      then (l, err aborted)
      else (put_delivery id next l, ok next)
]

unfoldable pub mark_published : Messages → String → ℕ → Ledger → Ledger × Result Delivery
unfolding is_committed
mark_published messages id now l = elim (get id l.deliveries) [
  | none ↦ (l, err not_found)
  | some d ↦
      let next : Delivery = record d {
        published_at = some now;
        updated_at = max d.updated_at now;
      } in
      if not (is_delivered d.state && not (is_some d.published_at))
      then (l, ok d)
      else if not (is_committed messages d)
      then (l, err aborted)
      else (put_delivery id next l, ok next)
]

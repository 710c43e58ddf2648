-- ===== src/Ledger/Retries.antt =====
-- What claims, retries and publications write (server/repositories/agent-task-runs.ts).
use velarix_bot.Prelude.{
  ℕ, ◌≤◌, String, Bool, true, false, not, Option, none, some, any, leb, is_some, if◌then◌else◌,
  get_or_else, ◌&&◌, ◌≡◌, refl, arith, inl, inr, Option-cases, Bool-cases,
}
use velarix_bot.Prelude.Dict.{get, set}
use velarix_bot.Ledger.Rows.{DeliveryState, Delivery, Ledger, claimed}
use velarix_bot.Ledger.Deliveries.{
  is_delivered, is_failed, is_claimable, claimed_row, take_claim, claim, candidate, is_sealed_run,
  max, claims_collide, reclaim, new_claim, default_claim_lease_ms,
}
use velarix_bot.Ledger.Receipts.{Messages, retry_failed, mark_published, is_committed}
use velarix_bot.Ledger.Schema.{Accepted, legal_transition, is_terminal, row_ok, stays_legal}
use velarix_bot.Ledger.Writes.{Writes, put_if, open_update, legal-failed, failed-open}

abbrev retried_row : Delivery → ℕ → Delivery
retried_row d now = record d {
  state = DeliveryState.pending;
  retry_at = some now;
  failure_code = none;
  claim_token = none;
  claim_owner = none;
  claim_lease_expires_at = none;
  updated_at = now;
}

retry_effect :
    (id : String) (now : ℕ) (l : Ledger) (d : Delivery)
    → get id l.deliveries ≡ some d
    → (retry_failed id now l).0.deliveries ≡ (
        if is_failed d.state && leb d.updated_at now
        then set id (retried_row d now) l.deliveries
        else l.deliveries)
unfolding retry_failed
retry_effect id now l d e = ground arith

retried-Accepted :
    (d : Delivery) (now : ℕ)
    → (is_failed d.state && leb d.updated_at now) ≡ true
    → Accepted d (retried_row d now)
retried-Accepted d now h =
    open_update d (retried_row d now) (failed-open d.state (ground arith))
      (legal-failed d.state (ground arith)) refl (ground arith)

retried-row_ok :
    (d : Delivery) (now : ℕ)
    → (is_failed d.state && leb d.updated_at now) ≡ true
    → row_ok d ≡ true
    → row_ok (retried_row d now) ≡ true
unfolding row_ok
retried-row_ok d now h ok = ground arith

pub retry_failed-Writes :
    (id : String) (now : ℕ) (l : Ledger) → Writes l.deliveries (retry_failed id now l).0.deliveries
unfolding retry_failed
retry_failed-Writes id now l = elim (Option-cases (get id l.deliveries)) [
  | inl e ↦ inl (rw (e, retry_failed) refl)
  | inr (d, e) ↦ rw (retry_effect id now l d e) (
      put_if (is_failed d.state && leb d.updated_at now) id d (retried_row d now) l.deliveries e
        (retried-Accepted d now) (retried-row_ok d now))
]

abbrev published_row : Delivery → ℕ → Delivery
published_row d now = record d { published_at = some now; updated_at = max d.updated_at now }

publishes : Messages → Delivery → Bool
publishes messages d =
    is_delivered d.state && (not (is_some d.published_at) && is_committed messages d)

publish_effect :
    (messages : Messages) (id : String) (now : ℕ) (l : Ledger) (d : Delivery)
    → get id l.deliveries ≡ some d
    → (mark_published messages id now l).0.deliveries
      ≡ (if publishes messages d then set id (published_row d now) l.deliveries else l.deliveries)
unfolding mark_published publishes
publish_effect messages id now l d e = ground arith

publishes-delivered :
    (messages : Messages) (d : Delivery) → publishes messages d ≡ true → is_delivered d.state ≡ true
unfolding publishes
publishes-delivered messages d h = ground arith

published-Accepted : (d : Delivery) (now : ℕ) → Accepted d (published_row d now)
published-Accepted d now = record {
  transition = stays_legal d.state;
  identity = refl;
  receipt_code = λ _. refl;
  receipt_time = λ _. refl;
  time = ground arith;
}

published-row_ok :
    (d : Delivery) (now : ℕ)
    → is_delivered d.state ≡ true
    → row_ok d ≡ true
    → row_ok (published_row d now) ≡ true
unfolding row_ok
published-row_ok d now h ok = ground arith

pub mark_published-Writes :
    (messages : Messages) (id : String) (now : ℕ) (l : Ledger)
    → Writes l.deliveries (mark_published messages id now l).0.deliveries
unfolding mark_published
mark_published-Writes messages id now l = elim (Option-cases (get id l.deliveries)) [
  | inl e ↦ inl (rw (e, mark_published) refl)
  | inr (d, e) ↦ rw (publish_effect messages id now l d e) (
      put_if (publishes messages d) id d (published_row d now) l.deliveries e
        (λ _. published-Accepted d now)
        (λ h ok. published-row_ok d now (publishes-delivered messages d h) ok))
]

claims_through : Delivery → Delivery → String → String → ℕ → ℕ → Ledger → Bool
claims_through d stored token owner lease_ms now l =
    is_claimable now stored
    && (leb stored.updated_at now
        && not (any (claims_collide (new_claim d token owner lease_ms now)) (reclaim d l.claims)))

claim_effect :
    (d : Delivery) (token owner : String) (lease_ms now : ℕ) (l : Ledger) (stored : Delivery)
    → get d.id l.deliveries ≡ some stored
    → (take_claim d token owner lease_ms now l).0.deliveries ≡ (
        if claims_through d stored token owner lease_ms now l
        then set d.id (claimed_row stored d token owner lease_ms now) l.deliveries
        else l.deliveries)
unfolding take_claim claims_through
claim_effect d token owner lease_ms now l stored e = ground arith

claims-legal :
    (d stored : Delivery) (token owner : String) (lease_ms now : ℕ) (l : Ledger)
    → claims_through d stored token owner lease_ms now l ≡ true
    → (legal_transition stored.state claimed ≡ true)
      × (is_terminal stored.state ≡ false)
      × (stored.updated_at ≤ now)
      × ((row_ok stored ≡ true) → is_some stored.delivered_at ≡ false)
unfolding claims_through is_claimable row_ok
claims-legal d stored token owner lease_ms now l h = ground arith

claimed-row_ok :
    (stored d : Delivery) (token owner : String) (lease_ms now : ℕ)
    → is_some stored.delivered_at ≡ false
    → row_ok (claimed_row stored d token owner lease_ms now) ≡ true
unfolding row_ok
claimed-row_ok stored d token owner lease_ms now h = ground arith

take_claim-Writes :
    (d : Delivery) (token owner : String) (lease_ms now : ℕ) (l : Ledger)
    → Writes l.deliveries (take_claim d token owner lease_ms now l).0.deliveries
unfolding take_claim
take_claim-Writes d token owner lease_ms now l = elim (Option-cases (get d.id l.deliveries)) [
  | inl e ↦ inl (rw (e, take_claim) refl)
  | inr (stored, e) ↦
      let next = claimed_row stored d token owner lease_ms now in
      rw (claim_effect d token owner lease_ms now l stored e) (
        put_if (claims_through d stored token owner lease_ms now l) d.id stored next l.deliveries e
          (λ h.
            let (legal, receipt, le, ok) = claims-legal d stored token owner lease_ms now l h in
            open_update stored next receipt legal refl le)
          (λ h ok.
            claimed-row_ok stored d token owner lease_ms now
              ((claims-legal d stored token owner lease_ms now l h).3 ok)))
]

pub claim-Writes :
    (id : Option String) (token owner : String) (lease_ms : Option ℕ) (now : ℕ) (l : Ledger)
    → Writes l.deliveries (claim id token owner lease_ms now l).0.deliveries
unfolding claim
claim-Writes id token owner lease_ms now l = elim (Option-cases (candidate id now l.deliveries)) [
  | inl e ↦ inl (rw (e, claim) refl)
  | inr (d, e) ↦ elim (Bool-cases (is_sealed_run (get d.run_id l.runs))) [
    | inl q ↦
        rw (e, claim, q)
          (take_claim-Writes d token owner (get_or_else lease_ms default_claim_lease_ms) now l)
    | inr q ↦ inl (rw (e, claim, q) refl)
  ]
]

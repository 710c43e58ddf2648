-- ===== src/Ledger/Attempts.antt =====
-- What the receipt and the failure of an attempt write (server/repositories/agent-task-runs.ts).
use velarix_bot.Prelude.{
  ℕ, ◌≤◌, String, Bool, true, false, not, some, any, ltb, leb, if◌then◌else◌, ◌&&◌, ◌≡◌, refl,
  arith, inl, inr, Option-cases,
}
use velarix_bot.Prelude.Dict.{get, set}
use velarix_bot.Ledger.Rows.{DeliveryFailureCode, Delivery, Ledger, delivered}
use velarix_bot.Ledger.Deliveries.{is_claimed}
use velarix_bot.Ledger.Receipts.{
  Messages, ack, acked_row, fail_delivery, failed_row, holds_claim, is_used, is_committed,
  is_exhausted_code,
}
use velarix_bot.Ledger.Schema.{Accepted, row_ok}
use velarix_bot.Ledger.Writes.{Writes, put_if, open_update, legal-claimed, claimed-open}

acked-Accepted :
    (d : Delivery) (now : ℕ)
    → is_claimed d.state ≡ true
    → d.updated_at ≤ now
    → Accepted d (acked_row d now)
acked-Accepted d now h le =
    open_update d (acked_row d now) (claimed-open d.state h) (legal-claimed d.state delivered h)
      refl le

acked-row_ok :
    (d : Delivery) (token : String) (now : ℕ)
    → holds_claim d token ≡ true
    → row_ok (acked_row d now) ≡ true
unfolding row_ok
acked-row_ok d token now h = ground arith

failed-Accepted :
    (d : Delivery) (code : DeliveryFailureCode) (now : ℕ)
    → is_claimed d.state ≡ true
    → d.updated_at ≤ now
    → Accepted d (failed_row d code now)
unfolding failed_row
failed-Accepted d code now h le =
    open_update d (failed_row d code now) (claimed-open d.state h)
      (legal-claimed d.state (failed_row d code now).state h) (ground arith) (ground arith)

failed-row_ok :
    (d : Delivery) (code : DeliveryFailureCode) (now : ℕ)
    → is_claimed d.state ≡ true
    → (is_exhausted_code code && ltb d.attempts d.max_attempts) ≡ false
    → row_ok d ≡ true
    → row_ok (failed_row d code now) ≡ true
unfolding row_ok failed_row
failed-row_ok d code now h e ok = ground arith

acks : Messages → Delivery → String → ℕ → Ledger → Bool
acks messages d token now l =
    not (any (is_used d token) l.claims)
    && (holds_claim d token && (is_committed messages d && leb d.updated_at now))

ack_effect :
    (messages : Messages) (id token : String) (now : ℕ) (l : Ledger) (d : Delivery)
    → get id l.deliveries ≡ some d
    → (ack messages id token now l).0.deliveries ≡ (
        if acks messages d token now l then set id (acked_row d now) l.deliveries else l.deliveries)
unfolding ack acks
ack_effect messages id token now l d e = ground arith

acks-holds :
    (messages : Messages) (d : Delivery) (token : String) (now : ℕ) (l : Ledger)
    → acks messages d token now l ≡ true
    → (holds_claim d token ≡ true) × (d.updated_at ≤ now)
unfolding acks
acks-holds messages d token now l h = ground arith

holds-claimed :
    (d : Delivery) (token : String) → holds_claim d token ≡ true → is_claimed d.state ≡ true
holds-claimed d token h = ground arith

pub ack-Writes :
    (messages : Messages) (id token : String) (now : ℕ) (l : Ledger)
    → Writes l.deliveries (ack messages id token now l).0.deliveries
unfolding ack
ack-Writes messages id token now l = elim (Option-cases (get id l.deliveries)) [
  | inl e ↦ inl (rw (e, ack) refl)
  | inr (d, e) ↦ rw (ack_effect messages id token now l d e) (
      put_if (acks messages d token now l) id d (acked_row d now) l.deliveries e
        (λ h.
          let (held, le) = acks-holds messages d token now l h in
          acked-Accepted d now (holds-claimed d token held) le)
        (λ h ok. acked-row_ok d token now (acks-holds messages d token now l h).0))
]

fails : Delivery → String → DeliveryFailureCode → ℕ → Bool
fails d token code now =
    holds_claim d token
    && (not (is_exhausted_code code && ltb d.attempts d.max_attempts) && leb d.updated_at now)

fail_effect :
    (id token : String) (code : DeliveryFailureCode) (now : ℕ) (l : Ledger) (d : Delivery)
    → get id l.deliveries ≡ some d
    → (fail_delivery id token code now l).0.deliveries ≡ (
        if fails d token code now
        then set id (failed_row d code now) l.deliveries
        else l.deliveries)
unfolding fail_delivery fails
fail_effect id token code now l d e = ground arith

fails-holds :
    (d : Delivery) (token : String) (code : DeliveryFailureCode) (now : ℕ)
    → fails d token code now ≡ true
    → (holds_claim d token ≡ true)
      × ((is_exhausted_code code && ltb d.attempts d.max_attempts) ≡ false)
      × (d.updated_at ≤ now)
unfolding fails
fails-holds d token code now h = ground arith

pub fail_delivery-Writes :
    (id token : String) (code : DeliveryFailureCode) (now : ℕ) (l : Ledger)
    → Writes l.deliveries (fail_delivery id token code now l).0.deliveries
unfolding fail_delivery
fail_delivery-Writes id token code now l = elim (Option-cases (get id l.deliveries)) [
  | inl e ↦ inl (rw (e, fail_delivery) refl)
  | inr (d, e) ↦ rw (fail_effect id token code now l d e) (
      put_if (fails d token code now) id d (failed_row d code now) l.deliveries e
        (λ h.
          let (held, legal, le) = fails-holds d token code now h in
          failed-Accepted d code now (holds-claimed d token held) le)
        (λ h ok.
          let (held, legal, le) = fails-holds d token code now h in
          failed-row_ok d code now (holds-claimed d token held) legal ok))
]

-- ===== src/Ledger/Delivered.antt =====
-- What the pump promises (server/services/delegated-results.ts): a message for each receipt.
use velarix_bot.Prelude.{
  ℕ, String, Bool, true, false, Option, none, some, ===_iff, ===_refl, ◌≡◌, refl, arith, inl, inr,
  Option-cases,
}
use velarix_bot.Prelude.Dict.{get, get-set}
use velarix_bot.Ledger.Canonical.{Node}
use velarix_bot.Ledger.Rows.{Delivery, Ledger, Result, ok, err}
use velarix_bot.Ledger.Deliveries.{claim, default_claim_lease_ms, is_delivered}
use velarix_bot.Ledger.Receipts.{Messages, ack}
use velarix_bot.Ledger.Calls.{publishes, step}
use velarix_bot.Ledger.Schema.{Accepted, legal_transition}
use velarix_bot.Ledger.Kept.{step-Accepted}
use velarix_bot.Ledger.Pump.{
  StoredMessage, Inbox, PutFixedResult, inserted, verified, missing_thread, conflict, put_fixed,
  committed, delivered, System, fail_attempt, publish, project_task_delivery, confirm, put_and_ack,
  deliver_one,
}

-- What was stored or was found to be there.
abbrev pub message_of : Delivery → StoredMessage
message_of d = record { thread_id = d.destination_thread_id; payload = d.payload_json }

unfoldable pub is_put : PutFixedResult → Bool
is_put inserted = true
is_put verified = true
is_put missing_thread = false
is_put (conflict code) = false

pub put-stored :
    (d : Delivery) (inbox : Inbox)
    → is_put (put_fixed d.destination_thread_id d.message_id d.payload_json inbox).1 ≡ true
    → get d.message_id
        (put_fixed d.destination_thread_id d.message_id d.payload_json inbox).0.messages
      ≡ some (message_of d)
unfolding put_fixed is_put
put-stored d inbox h = elim (Option-cases (get d.message_id inbox.messages)) [
  | inl e ↦ grind (arith, get-set, ===_refl)
  | inr (m, e) ↦
      ground (arith, ===_iff m.thread_id d.destination_thread_id, ===_iff m.payload d.payload_json)
]

confirmed :
    (d : Delivery) (token : String) (now : ℕ) (s s' : System) (inbox : Inbox)
    → confirm d token now s inbox ≡ (s', delivered)
    → (s'.inbox ≡ inbox)
      × ((l : Ledger) × (acked : Delivery) × (ack (committed inbox) d.id token now s.ledger
            ≡ (l, ok acked))
          × (s'.ledger ≡ publish (committed inbox) d now l))
unfolding confirm fail_attempt
confirmed d token now s s' inbox e = go (ack (committed inbox) d.id token now s.ledger) refl
  where
    go :
        (r : Ledger × Result Delivery)
        → ack (committed inbox) d.id token now s.ledger ≡ r
        → (s'.inbox ≡ inbox)
          × ((l : Ledger) × (acked : Delivery) × (ack (committed inbox) d.id token now s.ledger
                ≡ (l, ok acked))
              × (s'.ledger ≡ publish (committed inbox) d now l))
    go (l, ok acked) q = (ground arith, (l, acked, q, ground arith))
    go (l, err code) q = absurd (ground arith)

ack-ok :
    (messages : Messages) (id token : String) (now : ℕ) (l l' : Ledger) (d : Delivery)
    → ack messages id token now l ≡ (l', ok d)
    → (get id l'.deliveries ≡ some d) × (is_delivered d.state ≡ true)
unfolding ack
ack-ok messages id token now l l' d e = grind (arith, get-set, ===_refl)

any_node : Node
any_node = record { stringify = λ _. ""; sha256 = λ s. s }

told : Delivery → ℕ → Ledger → Ledger
told d now l = record l { tasks = project_task_delivery (get d.run_id l.runs) now l.tasks }

publish-step :
    (messages : Messages) (d : Delivery) (now : ℕ) (l : Ledger)
    → publish messages d now l ≡ step any_node (told d now l) (publishes messages d.id now)
unfolding publish step told
publish-step messages d now l = refl

stays_delivered :
    (old new : Delivery)
    → is_delivered old.state ≡ true
    → Accepted old new
    → is_delivered new.state ≡ true
stays_delivered old new h a =
    let legal : legal_transition old.state new.state ≡ true = a.transition in ground arith

publish-delivered :
    (messages : Messages) (d acked : Delivery) (now : ℕ) (l : Ledger)
    → get d.id l.deliveries ≡ some acked
    → is_delivered acked.state ≡ true
    → (row : Delivery) × (get d.id (publish messages d now l).deliveries ≡ some row)
      × (is_delivered row.state ≡ true)
unfolding told
publish-delivered messages d acked now l e h =
    let (row, found, a) =
      step-Accepted any_node (told d now l) (publishes messages d.id now) d.id acked e in
    (row, rw (publish-step messages d now l) found, stays_delivered acked row h a)

-- A receipt and its message.
abbrev pub Received : Delivery → System → Type 0
Received d s =
    (get d.message_id s.inbox.messages ≡ some (message_of d))
    × ((row : Delivery) × (get d.id s.ledger.deliveries ≡ some row)
        × (is_delivered row.state ≡ true))

confirm-Received :
    (d : Delivery) (token : String) (now : ℕ) (s s' : System) (inbox : Inbox)
    → confirm d token now s inbox ≡ (s', delivered)
    → get d.message_id inbox.messages ≡ some (message_of d)
    → Received d s'
confirm-Received d token now s s' inbox e m =
    let (same, (l, acked, a, ledger)) = confirmed d token now s s' inbox e in
    let (found, state) = ack-ok (committed inbox) d.id token now s.ledger l acked a in
    (rw same m, rw ledger (publish-delivered (committed inbox) d acked now l found state))

put_and_ack-Received :
    (d : Delivery) (token : String) (now : ℕ) (s s' : System)
    → put_and_ack d token now s ≡ (s', delivered)
    → Received d s'
unfolding put_and_ack fail_attempt is_put
put_and_ack-Received d token now s s' e =
    go (put_fixed d.destination_thread_id d.message_id d.payload_json s.inbox).1 refl
  where
    go :
        (r : PutFixedResult)
        → (put_fixed d.destination_thread_id d.message_id d.payload_json s.inbox).1 ≡ r
        → Received d s'
    go inserted q =
        confirm-Received d token now s s' _ (rw (q, put_and_ack) at e)
          (put-stored d s.inbox (rw q refl))
    go verified q =
        confirm-Received d token now s s' _ (rw (q, put_and_ack) at e)
          (put-stored d s.inbox (rw q refl))
    go missing_thread q = absurd (ground arith)
    go (conflict code) q = absurd (ground arith)

-- An attempt that is reported as delivered has claimed some delivery, and afterwards its row is
-- delivered and its message is stored, with its id, thread and payload.
pub deliver_one_receipt :
    (token owner : String) (now : ℕ) (s s' : System)
    → deliver_one token owner now s ≡ (s', delivered)
    → (d : Delivery) × ((claim none token owner (some default_claim_lease_ms) now s.ledger).1
        ≡ ok (some d))
      × Received d s'
unfolding deliver_one
deliver_one_receipt token owner now s s' e =
    go (claim none token owner (some default_claim_lease_ms) now s.ledger).1 refl
  where
    go :
        (r : Result (Option Delivery))
        → (claim none token owner (some default_claim_lease_ms) now s.ledger).1 ≡ r
        → (d : Delivery) × ((claim none token owner (some default_claim_lease_ms) now s.ledger).1
            ≡ ok (some d))
          × Received d s'
    go (err code) q = absurd (ground arith)
    go (ok none) q = absurd (ground arith)
    go (ok (some d)) q = (d, q, put_and_ack-Received d token now _ s' (rw (q, deliver_one) at e))

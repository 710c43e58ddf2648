-- ===== src/Ledger/Pumped.antt =====
-- What the pump leaves (server/services/delegated-results.ts): the stored messages, and all of a
-- progress message but what it says of its run.
use velarix_bot.Prelude.{
  ℕ, String, List, [], ◌∷◌, Option, none, some, map, ===_iff, ◌≡◌, refl, ◌∙◌, arith, ◌⊎◌, inl, inr,
}
use velarix_bot.Prelude.Dict.{Dict, get, get-set}
use velarix_bot.Ledger.Rows.{Delivery, DeliveryFailureCode, Ledger, Result, ok, err, Run}
use velarix_bot.Ledger.Deliveries.{claim, default_claim_lease_ms}
use velarix_bot.Ledger.Receipts.{ack, fail_delivery}
use velarix_bot.Ledger.Stamps.{
  ProgressMessage, Stamp, restamp, stamp_progress_from_ledger, stamp_run_by_id,
}
use velarix_bot.Ledger.Pump.{
  StoredMessage, Inbox, put_fixed, committed, System, fail_attempt, confirm, put_and_ack,
  deliver_one, deliver_due, pump_due,
}

-- A call of `putFixed` leaves the messages that are stored.
put-keeps :
    (thread id payload key : String) (inbox : Inbox) (m : StoredMessage)
    → get key inbox.messages ≡ some m
    → get key (put_fixed thread id payload inbox).0.messages ≡ some m
unfolding put_fixed
put-keeps thread id payload key inbox m e = grind (arith, get-set, ===_iff id key)

fail-inbox :
    (d : Delivery) (token : String) (code : DeliveryFailureCode) (now : ℕ) (s : System)
    → (fail_attempt d token code now s).0.inbox ≡ s.inbox
unfolding fail_attempt
fail-inbox d token code now s = ground arith

confirm-inbox :
    (d : Delivery) (token : String) (now : ℕ) (s : System) (inbox : Inbox)
    → ((confirm d token now s inbox).0.inbox ≡ inbox)
      ⊎ ((confirm d token now s inbox).0.inbox ≡ s.inbox)
unfolding confirm fail_attempt
confirm-inbox d token now s inbox = ground arith

put_and_ack-inbox :
    (d : Delivery) (token : String) (now : ℕ) (s : System)
    → ((put_and_ack d token now s).0.inbox
        ≡ (put_fixed d.destination_thread_id d.message_id d.payload_json s.inbox).0)
      ⊎ ((put_and_ack d token now s).0.inbox ≡ s.inbox)
unfolding put_and_ack fail_attempt
put_and_ack-inbox d token now s = ground (
  arith,
  confirm-inbox d token now s
      (put_fixed d.destination_thread_id d.message_id d.payload_json s.inbox).0,
)

put_and_ack-keeps :
    (d : Delivery) (token key : String) (now : ℕ) (s : System) (m : StoredMessage)
    → get key s.inbox.messages ≡ some m
    → get key (put_and_ack d token now s).0.inbox.messages ≡ some m
put_and_ack-keeps d token key now s m e = elim (put_and_ack-inbox d token now s) [
  | inl q ↦ rw q (put-keeps d.destination_thread_id d.message_id d.payload_json key s.inbox m e)
  | inr q ↦ rw q e
]

deliver_one-keeps :
    (token owner key : String) (now : ℕ) (s : System) (m : StoredMessage)
    → get key s.inbox.messages ≡ some m
    → get key (deliver_one token owner now s).0.inbox.messages ≡ some m
unfolding deliver_one
deliver_one-keeps token owner key now s m e =
    go (claim none token owner (some default_claim_lease_ms) now s.ledger).1 refl
  where
    go :
        (r : Result (Option Delivery))
        → (claim none token owner (some default_claim_lease_ms) now s.ledger).1 ≡ r
        → get key (deliver_one token owner now s).0.inbox.messages ≡ some m
    go (err code) q = rw (q, deliver_one) e
    go (ok none) q = rw (q, deliver_one) e
    go (ok (some d)) q = rw (q, deliver_one) (put_and_ack-keeps d token key now _ m e)

-- What a stamp leaves of a progress message.
abbrev pub who : ProgressMessage → String × String × String
who p = (p.id, p.thread_id, p.task_id)

restamp-who :
    (threads : List String) (task_id : String) (stamp : Stamp) (p : ProgressMessage)
    → who (restamp threads task_id stamp p) ≡ who p
unfolding restamp
restamp-who threads task_id stamp p = ground arith

restamps-who :
    (threads : List String) (task_id : String) (stamp : Stamp) (ps : List ProgressMessage)
    → map who (map (restamp threads task_id stamp) ps) ≡ map who ps
restamps-who threads task_id stamp [] = refl
restamps-who threads task_id stamp (p ∷ ps) =
    rw (restamp-who threads task_id stamp p) (rw (restamps-who threads task_id stamp ps) refl)

stamp_progress-who :
    (run : Run) (rows : Dict Delivery) (ps : List ProgressMessage)
    → map who (stamp_progress_from_ledger run rows ps) ≡ map who ps
unfolding stamp_progress_from_ledger
stamp_progress-who run rows ps = grind (arith, restamps-who)

stamp-who :
    (l : Ledger) (run_id : String) (ps : List ProgressMessage)
    → map who (stamp_run_by_id l run_id ps) ≡ map who ps
unfolding stamp_run_by_id
stamp-who l run_id ps = grind (arith, stamp_progress-who)

fail-who :
    (d : Delivery) (token : String) (code : DeliveryFailureCode) (now : ℕ) (s : System)
    → map who (fail_attempt d token code now s).0.progress ≡ map who s.progress
unfolding fail_attempt
fail-who d token code now s =
    ground (arith, stamp-who (fail_delivery d.id token code now s.ledger).0 d.run_id s.progress)

confirm-who :
    (d : Delivery) (token : String) (now : ℕ) (s : System) (inbox : Inbox)
    → map who (confirm d token now s inbox).0.progress ≡ map who s.progress
unfolding confirm
confirm-who d token now s inbox =
    let acked = ack (committed inbox) d.id token now s.ledger in
    ground (
      arith,
      stamp-who acked.0 d.run_id s.progress,
      fail-who d token DeliveryFailureCode.conflict_retry now s,
      fail-who d token DeliveryFailureCode.io_error now s,
    )

put_and_ack-who :
    (d : Delivery) (token : String) (now : ℕ) (s : System)
    → map who (put_and_ack d token now s).0.progress ≡ map who s.progress
unfolding put_and_ack
put_and_ack-who d token now s = grind (arith, confirm-who, fail-who)

deliver_one-who :
    (token owner : String) (now : ℕ) (s : System)
    → map who (deliver_one token owner now s).0.progress ≡ map who s.progress
unfolding deliver_one
deliver_one-who token owner now s = grind (arith, put_and_ack-who)

-- The message `m` under the key is stored, and the progress messages are the same but for their stamps.
abbrev pub Undisturbed : String → StoredMessage → System → System → Type 0
Undisturbed key m s s' =
    (get key s'.inbox.messages ≡ some m) × (map who s'.progress ≡ map who s.progress)

deliver_due-keeps :
    (tokens : List String) (owner key : String) (now : ℕ) (s : System) (m : StoredMessage)
    → get key s.inbox.messages ≡ some m
    → Undisturbed key m s (deliver_due tokens owner now s).0
unfolding deliver_due
deliver_due-keeps [] owner key now s m e = (e, refl)
deliver_due-keeps (token ∷ tokens) owner key now s m e =
    let kept = deliver_one-keeps token owner key now s m e in
    let same = deliver_one-who token owner now s in
    let (rest, others) =
      deliver_due-keeps tokens owner key now (deliver_one token owner now s).0 m kept in
    let both = others ∙ same in ground (arith, kept, rest, same, both)

-- The pump neither removes nor overwrites a message that it may put: whatever it delivers, such a
-- message that is stored stays, in its thread and with its payload. Of the progress messages it
-- changes only the status and the failure code: they stay, in their threads and of their tasks.
pub pump_due_keeps :
    (tokens : List String) (owner key : String) (now : ℕ) (s : System) (m : StoredMessage)
    → get key s.inbox.messages ≡ some m
    → Undisturbed key m s (pump_due tokens owner now s)
unfolding pump_due
pump_due_keeps tokens owner key now s m e =
    let kept = deliver_due-keeps tokens owner key now s m e in ground (arith, kept)

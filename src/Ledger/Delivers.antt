-- ===== src/Ledger/Delivers.antt =====
-- The pump delivers what is due (server/services/delegated-results.ts).
use velarix_bot.Prelude.{
  ℕ, ◌+◌, ◌≤◌, String, true, false, ◌&&◌, List, [], ◌∷◌, none, some, map, any, ◌===◌, ===_iff,
  ===_refl, ==_refl, ◌≡◌, refl, ap, ◌∙◌, arith, ◌⊎◌, inl, inr, Bool-cases, find_first_sound,
}
use velarix_bot.Prelude.Dict.{Dict, get, get-set}
use velarix_bot.Ledger.Rows.{Delivery, Ledger, Claim, ok}
use velarix_bot.Ledger.Deliveries.{
  claim, take_claim, candidate, is_claimable, claimed_row, new_claim, reclaim, claims_collide,
  is_sealed_run, list_claimable, default_claim_lease_ms, is_claimed, put_delivery,
}
use velarix_bot.Ledger.Receipts.{Messages, ack, acked_row, is_used, is_committed, holds_claim}
use velarix_bot.Ledger.Pump.{
  StoredMessage, Inbox, put_fixed, committed, delivered, System, confirm, put_and_ack, deliver_one,
}
use velarix_bot.Ledger.Delivered.{message_of, is_put, put-stored}

candidate-claimable :
    (now : ℕ) (rows : Dict Delivery) (d : Delivery)
    → candidate none now rows ≡ some d
    → is_claimable now d ≡ true
unfolding candidate
candidate-claimable now rows d e =
    (find_first_sound (is_claimable now) (list_claimable now rows) d e).0

-- The ledger after the claim.
abbrev with_claim : Delivery → String → String → ℕ → Ledger → Ledger
with_claim d token owner now l =
    record (put_delivery d.id (claimed_row d d token owner default_claim_lease_ms now) l) {
      claims = new_claim d token owner default_claim_lease_ms now ∷ reclaim d l.claims;
    }

takes :
    (d : Delivery) (token owner : String) (now : ℕ) (l : Ledger)
    → get d.id l.deliveries ≡ some d
    → is_claimable now d ≡ true
    → d.updated_at ≤ now
    → any (claims_collide (new_claim d token owner default_claim_lease_ms now)) (reclaim d l.claims)
      ≡ false
    → take_claim d token owner default_claim_lease_ms now l ≡ (
      with_claim d token owner now l,
      ok (some (claimed_row d d token owner default_claim_lease_ms now)),
    )
unfolding take_claim
takes d token owner now l f c le fresh = ground arith

claims-due :
    (d : Delivery) (token owner : String) (now : ℕ) (l : Ledger)
    → candidate none now l.deliveries ≡ some d
    → is_sealed_run (get d.run_id l.runs) ≡ true
    → claim none token owner (some default_claim_lease_ms) now l
      ≡ take_claim d token owner default_claim_lease_ms now l
unfolding claim
claims-due d token owner now l c s = ground arith

unused :
    (d : Delivery) (new : Claim) (cs : List Claim)
    → any (claims_collide new) cs ≡ false
    → any (is_used d new.token) cs ≡ false
unfolding is_used claims_collide
unused d new [] h = refl
unused d new (c ∷ cs) h = ground (arith, unused d new cs, h)

listed :
    (id thread : String) (m : Dict StoredMessage) (msg : StoredMessage)
    → get id m ≡ some msg
    → msg.thread_id ≡ thread
    → any
        (λ (e : String × String). e.0 === id && e.1 === thread)
        (map (λ (e : String × StoredMessage). (e.0, e.1.thread_id)) m)
      ≡ true
unfolding get
listed id thread [] msg e t = absurd (ground arith)
listed id thread ((k, x) ∷ m) msg e t = elim (Bool-cases (k === id)) [
  | inl q ↦
      let same : x ≡ msg = ground arith in
      let there : (x.thread_id === thread) ≡ true =
        (===_iff x.thread_id thread).1 (ap (λ z. z.thread_id) same ∙ t) in
      rw (q, there) refl
  | inr q ↦ ground (arith, listed id thread m msg (rw q at e) t)
]

acks-held :
    (messages : Messages) (d : Delivery) (token : String) (now : ℕ) (l : Ledger)
    → get d.id l.deliveries ≡ some d
    → is_claimed d.state ≡ true
    → holds_claim d token ≡ true
    → any (is_used d token) l.claims ≡ false
    → is_committed messages d ≡ true
    → d.updated_at ≤ now
    → (ack messages d.id token now l).1 ≡ ok (acked_row d now)
unfolding ack
acks-held messages d token now l f s h u c le = ground arith

put-goes :
    (d : Delivery) (inbox : Inbox)
    → any (λ t. t === d.destination_thread_id) inbox.threads ≡ true
    → (get d.message_id inbox.messages ≡ none)
      ⊎ (get d.message_id inbox.messages ≡ some (message_of d))
    → is_put (put_fixed d.destination_thread_id d.message_id d.payload_json inbox).1 ≡ true
unfolding put_fixed is_put
put-goes d inbox t (inl e) = ground arith
put-goes d inbox t (inr e) =
    ground (arith, ===_refl d.destination_thread_id, ===_refl d.payload_json)

confirm-goes :
    (d : Delivery) (token : String) (now : ℕ) (s : System) (inbox : Inbox) (acked : Delivery)
    → (ack (committed inbox) d.id token now s.ledger).1 ≡ ok acked
    → (confirm d token now s inbox).1 ≡ delivered
unfolding confirm
confirm-goes d token now s inbox acked e = rw (e, confirm) refl

put_and_ack-goes :
    (d : Delivery) (token : String) (now : ℕ) (s : System) (acked : Delivery)
    → let put = put_fixed d.destination_thread_id d.message_id d.payload_json s.inbox in
      is_put put.1 ≡ true
      → (ack (committed put.0) d.id token now s.ledger).1 ≡ ok acked
      → (put_and_ack d token now s).1 ≡ delivered
unfolding put_and_ack is_put
put_and_ack-goes d token now s acked p a = ground (
  arith,
  confirm-goes d token now s
      (put_fixed d.destination_thread_id d.message_id d.payload_json s.inbox).0 acked a,
)

first_use :
    (d : Delivery) (token owner : String) (now : ℕ) (l : Ledger)
    → any (claims_collide (new_claim d token owner default_claim_lease_ms now)) (reclaim d l.claims)
      ≡ false
    → any
        (is_used (claimed_row d d token owner default_claim_lease_ms now) token)
        (with_claim d token owner now l).claims
      ≡ false
unfolding is_used
first_use d token owner now l fresh = ground (
  arith,
  ==_refl (d.claim_generation + 1),
  unused (claimed_row d d token owner default_claim_lease_ms now)
      (new_claim d token owner default_claim_lease_ms now) (reclaim d l.claims) fresh,
)

commits :
    (d : Delivery) (inbox : Inbox)
    → get d.message_id inbox.messages ≡ some (message_of d)
    → is_committed (committed inbox) d ≡ true
unfolding is_committed
commits d inbox e = listed d.message_id d.destination_thread_id inbox.messages (message_of d) e refl

claimed-then :
    (token owner : String) (now : ℕ) (s : System) (l : Ledger) (d : Delivery)
    → claim none token owner (some default_claim_lease_ms) now s.ledger ≡ (l, ok (some d))
    → deliver_one token owner now s ≡ put_and_ack d token now (record s { ledger = l })
unfolding deliver_one
claimed-then token owner now s l d e =
    rw (e, deliver_one) (ap (λ x. put_and_ack d token now (record s { ledger = x.0 })) e)

-- A delivery that is the oldest one due, of a sealed run, whose thread exists and whose message is not
-- stored or was stored before, is delivered by the pump's next attempt, if its token is new and the
-- clock has not gone back.
pub deliver_one_delivers :
    (token owner : String) (now : ℕ) (s : System) (d : Delivery)
    → candidate none now s.ledger.deliveries ≡ some d
    → get d.id s.ledger.deliveries ≡ some d
    → is_sealed_run (get d.run_id s.ledger.runs) ≡ true
    → d.updated_at ≤ now
    → any
        (claims_collide (new_claim d token owner default_claim_lease_ms now))
        (reclaim d s.ledger.claims)
      ≡ false
    → any (λ t. t === d.destination_thread_id) s.inbox.threads ≡ true
    → (get d.message_id s.inbox.messages ≡ none)
      ⊎ (get d.message_id s.inbox.messages ≡ some (message_of d))
    → (deliver_one token owner now s).1 ≡ delivered
deliver_one_delivers token owner now s d c f sealed_run le fresh thread place =
    let l = with_claim d token owner now s.ledger in
    let d1 = claimed_row d d token owner default_claim_lease_ms now in
    let s1 : System = record s { ledger = l } in
    let put = put_fixed d1.destination_thread_id d1.message_id d1.payload_json s.inbox in
    let stored : is_put put.1 ≡ true = put-goes d1 s.inbox thread place in
    let taken : claim none token owner (some default_claim_lease_ms) now s.ledger
        ≡ (l, ok (some d1)) =
      claims-due d token owner now s.ledger c sealed_run
      ∙ takes d token owner now s.ledger f (candidate-claimable now s.ledger.deliveries d c) le
          fresh in
    let found : get d1.id l.deliveries ≡ some d1 = grind (arith, get-set, ===_refl) in
    let acked : (ack (committed put.0) d1.id token now l).1 ≡ ok (acked_row d1 now) =
      acks-held (committed put.0) d1 token now l found refl (===_refl token)
        (first_use d token owner now s.ledger fresh)
        (commits d1 put.0 (put-stored d1 s.inbox stored)) (omega arith) in
    ap (λ r. r.1) (claimed-then token owner now s l d1 taken)
    ∙ put_and_ack-goes d1 token now s1 (acked_row d1 now) stored acked

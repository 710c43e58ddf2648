-- ===== src/Ledger/Stale.antt =====
-- A worker that lost its claim can neither confirm nor fail the delivery
-- (server/repositories/agent-task-runs.ts, `claim`, `ack` and `failDelivery`).
use velarix_bot.Prelude.{
  ℕ, ◌+◌, String, Bool, true, false, Option, some, ltb, ◌&&◌, ◌==◌, ◌===◌, ===_iff, ===_refl, ◌≡◌,
  refl, sym, ap, subst, ◌∙◌, arith, Option-cases, Bool-cases, truthy, inl, inr, List, [], ◌∷◌, any,
  get_or_else,
}
use mathlib.Core.List.{Memᴰ}
use velarix_bot.Prelude.Dict.{Dict, get, set, get-set}
use velarix_bot.Ledger.Rows.{
  Delivery, DeliveryFailureCode, Claim, Ledger, ok, err, token_reused, stale_claim, reclaimed,
  ClaimOutcome,
}
use velarix_bot.Ledger.Runs.{same_text}
use velarix_bot.Ledger.Deliveries.{
  claim, take_claim, candidate, is_claimed, claimed_row, new_claim, reclaim, mark_claim_outcome,
  claims_collide, marked, default_claim_lease_ms,
}
use velarix_bot.Ledger.Receipts.{Messages, ack, fail_delivery, is_used}

any-mem :
    {A : Type 0} (p : A → Bool) (xs : List A) (x : A) → Memᴰ x xs → p x ≡ true → any p xs ≡ true
any-mem p (y ∷ xs) x (Memᴰ.head e) h =
    let k : p y ≡ true = subst (λ z. p z ≡ true) e h in ground arith
any-mem p (y ∷ xs) x (Memᴰ.tail m) h = ground (arith, any-mem p xs x m h)
any-mem p [] x m h = elim m [ ]

-- The same claim, whatever its outcome.
abbrev SameClaim : Claim → Claim → Type 0
SameClaim c c' =
    (c'.token ≡ c.token) × (c'.delivery_id ≡ c.delivery_id) × (c'.generation ≡ c.generation)

marked_same : (o : ClaimOutcome) (id : String) (n : ℕ) (c : Claim) → SameClaim c (marked o id n c)
marked_same o id n c = ground arith

marked-mem :
    (o : ClaimOutcome) (id : String) (n : ℕ) (cs : List Claim) (c : Claim)
    → Memᴰ c cs
    → (c' : Claim) × Memᴰ c' (mark_claim_outcome o id n cs) × SameClaim c c'
unfolding mark_claim_outcome
marked-mem o id n (b ∷ cs) c (Memᴰ.head e) = (
  marked o id n b,
  Memᴰ.head refl,
  subst (λ x. SameClaim x (marked o id n b)) (sym e) (marked_same o id n b),
)
marked-mem o id n (b ∷ cs) c (Memᴰ.tail m) =
    let (c', m', s) = marked-mem o id n cs c m in (c', Memᴰ.tail m', s)
marked-mem o id n [] c m = elim m [ ]

reclaimed-mem :
    (d : Delivery) (cs : List Claim) (c : Claim)
    → Memᴰ c cs
    → (c' : Claim) × Memᴰ c' (reclaim d cs) × SameClaim c c'
unfolding reclaim
reclaimed-mem d cs c m = elim (Bool-cases (is_claimed d.state && ltb 0 d.claim_generation)) [
  | inl q ↦ rw (q, reclaim) (marked-mem reclaimed d.id d.claim_generation cs c m)
  | inr q ↦ rw (q, reclaim) (c, m, (refl, refl, refl))
]

-- A claim that was granted, on the row itself.
took :
    (d : Delivery) (token owner : String) (lease_ms now : ℕ) (l l' : Ledger) (d' : Delivery)
    → get d.id l.deliveries ≡ some d
    → take_claim d token owner lease_ms now l ≡ (l', ok (some d'))
    → (any (claims_collide (new_claim d token owner lease_ms now)) (reclaim d l.claims) ≡ false)
      × (d' ≡ claimed_row d d token owner lease_ms now)
      × (l'.deliveries ≡ set d.id d' l.deliveries)
      × (l'.claims ≡ new_claim d token owner lease_ms now ∷ reclaim d l.claims)
unfolding take_claim
took d token owner lease_ms now l l' d' f e = ground arith

candidate-row :
    (id : String) (now : ℕ) (rows : Dict Delivery) (d c : Delivery)
    → truthy id ≡ true
    → get id rows ≡ some d
    → candidate (some id) now rows ≡ some c
    → c ≡ d
unfolding candidate
candidate-row id now rows d c t f e = ground arith

claimed-took :
    (id token owner : String) (lease_ms : Option ℕ) (now : ℕ) (l l' : Ledger) (d d' : Delivery)
    → truthy id ≡ true
    → get id l.deliveries ≡ some d
    → claim (some id) token owner lease_ms now l ≡ (l', ok (some d'))
    → take_claim d token owner (get_or_else lease_ms default_claim_lease_ms) now l
      ≡ (l', ok (some d'))
unfolding claim
claimed-took id token owner lease_ms now l l' d d' t f e =
    elim (Option-cases (candidate (some id) now l.deliveries)) [
      | inl n ↦ absurd (ground arith)
      | inr (c, q) ↦ let same : c ≡ d = candidate-row id now l.deliveries d c t f q in ground arith
    ]

-- The token of a claim that was on record is not given again.
token_fresh :
    (new : Claim) (cs : List Claim) (c : Claim)
    → Memᴰ c cs
    → any (claims_collide new) cs ≡ false
    → (c.token === new.token) ≡ false
unfolding claims_collide
token_fresh new cs c m h = elim (Bool-cases (c.token === new.token)) [
  | inl q ↦ absurd (
      let k : any (claims_collide new) cs ≡ true =
        any-mem (claims_collide new) cs c m (ground arith) in
      ground arith)
  | inr q ↦ q
]

used_token :
    (d : Delivery) (new c : Claim) (cs : List Claim)
    → Memᴰ c cs
    → c.delivery_id ≡ d.id
    → (c.generation == d.claim_generation) ≡ false
    → any (is_used d c.token) (new ∷ cs) ≡ true
unfolding is_used
used_token d new c cs m i g = ground (
  arith,
  any-mem (is_used d c.token) cs c m (ground (arith, ===_refl c.token, ===_iff c.delivery_id d.id)),
)

refuses :
    (messages : Messages) (id token : String) (code : DeliveryFailureCode) (now : ℕ) (l : Ledger)
    (d : Delivery)
    → get id l.deliveries ≡ some d
    → is_claimed d.state ≡ true
    → same_text d.claim_token (some token) ≡ false
    → any (is_used d token) l.claims ≡ true
    → (ack messages id token now l ≡ (l, err token_reused))
      × (fail_delivery id token code now l ≡ (l, err stale_claim))
unfolding ack fail_delivery
refuses messages id token code now l d f h other used = ground arith

-- The holder of a claim whose lease ran out, and whose delivery another worker has claimed since, can
-- neither confirm nor fail the delivery: its token is refused whatever the time and the messages, and
-- nothing is written.
pub stale_holder_refused :
    (id token owner : String) (lease_ms : Option ℕ) (now : ℕ) (l l' : Ledger) (d d' : Delivery)
    (c : Claim) (messages : Messages) (code : DeliveryFailureCode) (later : ℕ)
    → truthy id ≡ true
    → get id l.deliveries ≡ some d
    → d.id ≡ id
    → Memᴰ c l.claims
    → c.delivery_id ≡ id
    → c.generation ≡ d.claim_generation
    → claim (some id) token owner lease_ms now l ≡ (l', ok (some d'))
    → (ack messages id c.token later l' ≡ (l', err token_reused))
      × (fail_delivery id c.token code later l' ≡ (l', err stale_claim))
stale_holder_refused id token owner lease_ms now l l' d d' c messages code later t f own m ci cg e =
    let ms = get_or_else lease_ms default_claim_lease_ms in
    let stored : get d.id l.deliveries ≡ some d =
      subst (λ k. get k l.deliveries ≡ some d) (sym own) f in
    let (free, row, rows, claims) =
      took d token owner ms now l l' d' stored
        (claimed-took id token owner lease_ms now l l' d d' t f e) in
    let (c', m', (ct, cd, cn)) = reclaimed-mem d l.claims c m in
    let d'_id : d'.id ≡ d.id = ap (λ x. x.id) row in
    let fresh : (c.token === token) ≡ false =
      subst (λ x. (x === token) ≡ false) ct
        (token_fresh (new_claim d token owner ms now) (reclaim d l.claims) c' m' free) in
    let older : (c'.generation == d'.claim_generation) ≡ false =
      let n : d'.claim_generation ≡ d.claim_generation + 1 = ap (λ x. x.claim_generation) row in
      ground arith in
    let used : any (is_used d' c.token) l'.claims ≡ true = rw claims (
      subst (λ x. any (is_used d' x) (new_claim d token owner ms now ∷ reclaim d l.claims) ≡ true)
        ct
        (used_token d' (new_claim d token owner ms now) c' (reclaim d l.claims) m'
          (cd ∙ ci ∙ sym own ∙ sym d'_id) older)) in
    let found : get id l'.deliveries ≡ some d' = rw rows (grind (arith, get-set, own, ===_refl)) in
    let held : d'.claim_token ≡ some token = ap (λ x. x.claim_token) row in
    refuses messages id c.token code later l' d' found (rw row refl)
      (rw held (ground (arith, ===_iff token c.token, ===_iff c.token token))) used

-- ===== src/Ledger/Deliveries.antt =====
-- The calls on deliveries (server/repositories/agent-task-runs.ts). The token of a new claim is an
-- argument, and so are the messages that are stored, by id and thread. A statement that the schema
-- refuses is `aborted`, and nothing is written.
use velarix_bot.Prelude.{
  ℕ, ◌+◌, String, Bool, true, false, not, List, [], ◌∷◌, ◌&&◌, ◌||◌, Option, none, some, ltb, leb,
  ◌==◌, ◌===◌, if◌then◌else◌, get_or_else, any, map, keep, find_first, truthy,
}
use velarix_bot.Prelude.Dict.{Dict, get, set}
use velarix_bot.Ledger.Canonical.{text_ltb}
use velarix_bot.Ledger.Rows.{
  RunState, sealed, DeliveryState, Run, Delivery, ClaimOutcome, reclaimed, Claim, Ledger, Result,
  ok, err, illegal_transition, aborted,
}

abbrev pub default_claim_lease_ms : ℕ
default_claim_lease_ms = 15000

abbrev pub max_claim_lease_ms : ℕ
max_claim_lease_ms = 300000

abbrev pub min : ℕ → ℕ → ℕ
min a b = if leb a b then a else b

abbrev pub max : ℕ → ℕ → ℕ
max a b = if leb a b then b else a

abbrev pub clamp_lease : ℕ → ℕ
clamp_lease lease_ms = min (max lease_ms 1) max_claim_lease_ms

abbrev is_due : Option ℕ → ℕ → Bool
is_due none now = true
is_due (some at) now = leb at now

-- A pending row whose time has come, or a claimed one whose lease has run out.
unfoldable pub is_claimable : ℕ → Delivery → Bool
is_claimable now d = elim d.state [
  | DeliveryState.pending ↦ is_due d.retry_at now
  | DeliveryState.claimed ↦ leb (get_or_else d.claim_lease_expires_at 0) now
  | DeliveryState.delivered ↦ false
  | DeliveryState.failed ↦ false
  | DeliveryState.rejected ↦ false
]

abbrev pub is_pending : DeliveryState → Bool
is_pending DeliveryState.pending = true
is_pending _ = false

abbrev pub is_claimed : DeliveryState → Bool
is_claimed DeliveryState.claimed = true
is_claimed _ = false

abbrev pub is_delivered : DeliveryState → Bool
is_delivered DeliveryState.delivered = true
is_delivered _ = false

abbrev pub is_failed : DeliveryState → Bool
is_failed DeliveryState.failed = true
is_failed _ = false

-- `ORDER BY created_at, id`.
abbrev comes_before : Delivery → Delivery → Bool
comes_before c d =
    ltb c.created_at d.created_at || (c.created_at == d.created_at && text_ltb c.id d.id)

insert_by_age : Delivery → List Delivery → List Delivery
insert_by_age d [] = d ∷ []
insert_by_age d (c ∷ cs) = if comes_before c d then c ∷ insert_by_age d cs else d ∷ c ∷ cs

sort_by_age : List Delivery → List Delivery
unfolding insert_by_age
sort_by_age [] = []
sort_by_age (d ∷ ds) = insert_by_age d (sort_by_age ds)

unfoldable pub list_claimable : ℕ → Dict Delivery → List Delivery
unfolding sort_by_age is_claimable
list_claimable now rows = sort_by_age (keep (is_claimable now) (map (λ e. e.1) rows))

abbrev row_of : Option Delivery → List Delivery
row_of none = []
row_of (some d) = d ∷ []

-- The row that is claimed: the one asked for, if its time has come, or the oldest.
unfoldable pub candidate : Option String → ℕ → Dict Delivery → Option Delivery
unfolding list_claimable is_claimable
candidate none now rows = find_first (is_claimable now) (list_claimable now rows)
candidate (some id) now rows =
    find_first (is_claimable now)
      (if truthy id then row_of (get id rows) else list_claimable now rows)

abbrev pub is_generation : String → ℕ → Claim → Bool
is_generation id generation c = c.delivery_id === id && c.generation == generation

abbrev with_outcome : ClaimOutcome → Claim → Claim
with_outcome outcome c = elim c.outcome [ none ↦ record c { outcome = some outcome } | some o ↦ c ]

-- The outcome of a claim is written once.
abbrev pub marked : ClaimOutcome → String → ℕ → Claim → Claim
marked outcome id generation c = if is_generation id generation c then with_outcome outcome c else c

unfoldable pub mark_claim_outcome : ClaimOutcome → String → ℕ → List Claim → List Claim
mark_claim_outcome outcome id generation claims = map (marked outcome id generation) claims

unfoldable pub claims_collide : Claim → Claim → Bool
claims_collide new old = is_generation new.delivery_id new.generation old || old.token === new.token

abbrev pub is_sealed_run : Option Run → Bool
is_sealed_run none = false
is_sealed_run (some run) = elim run.state [
  | RunState.pending ↦ false
  | RunState.running ↦ false
  | sealed o ↦ truthy (get_or_else run.result_hash "")
]

abbrev pub put_delivery : String → Delivery → Ledger → Ledger
put_delivery id d l = record l { deliveries = set id d l.deliveries }

-- The stored row as a claim leaves it: one more generation and attempt than the row that was read.
abbrev pub claimed_row : Delivery → Delivery → String → String → ℕ → ℕ → Delivery
claimed_row stored d token owner lease_ms now = record stored {
  state = DeliveryState.claimed;
  claim_token = some token;
  claim_owner = some owner;
  claim_lease_expires_at = some (now + clamp_lease lease_ms);
  claim_generation = d.claim_generation + 1;
  attempts = d.attempts + 1;
  retry_at = none;
  failure_code = none;
  updated_at = now;
}

abbrev pub new_claim : Delivery → String → String → ℕ → ℕ → Claim
new_claim d token owner lease_ms now = record {
  delivery_id = d.id;
  generation = d.claim_generation + 1;
  token = token;
  owner = owner;
  claimed_at = now;
  lease_expires_at = now + clamp_lease lease_ms;
  outcome = none;
}

unfoldable pub reclaim : Delivery → List Claim → List Claim
unfolding mark_claim_outcome
reclaim d claims =
    if is_claimed d.state && ltb 0 d.claim_generation
    then mark_claim_outcome reclaimed d.id d.claim_generation claims
    else claims

-- The writes of a claim.
unfoldable pub take_claim :
    Delivery → String → String → ℕ → ℕ → Ledger → Ledger × Result (Option Delivery)
unfolding reclaim claims_collide is_claimable
take_claim d token owner lease_ms now l =
    let new = new_claim d token owner lease_ms now in
    let claims = reclaim d l.claims in
    let marked : Ledger = record l { claims = claims } in
    elim (get d.id l.deliveries) [
      | none ↦ (marked, ok none)
      | some stored ↦
          let next = claimed_row stored d token owner lease_ms now in
          if not (is_claimable now stored)
          then (marked, ok none)
          else if ltb now stored.updated_at || any (claims_collide new) claims
          then (l, err aborted)
          else (record (put_delivery d.id next l) { claims = new ∷ claims }, ok (some next))
    ]

unfoldable pub claim :
    Option String → String → String → Option ℕ → ℕ → Ledger → Ledger × Result (Option Delivery)
unfolding take_claim candidate
claim id token owner lease_ms now l = elim (candidate id now l.deliveries) [
  | none ↦ (l, ok none)
  | some d ↦
      if not (is_sealed_run (get d.run_id l.runs))
      then (l, err illegal_transition)
      else take_claim d token owner (get_or_else lease_ms default_claim_lease_ms) now l
]

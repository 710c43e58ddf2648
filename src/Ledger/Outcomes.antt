-- ===== src/Ledger/Outcomes.antt =====
-- What becomes of the task when a run ends, and when a delivery is tried again
-- (server/contracts.ts, server/repositories/agent-task-runs.ts).
use Prim.Native.Nat.{zero, suc}
use velarix_bot.Prelude.{
  ◌∙◌, List, ℕ, ◌+◌, ◌≤◌, ◌<◌, String, Bool, true, false, Option, none, some, if◌then◌else◌, leb,
  ===_refl, ◌≡◌, ◌≢◌, ◌↔◌, refl, sym, ap, subst, arith, truthy, truthy-trim, get_or_else, any,
}
use velarix_bot.Prelude.Dict.{Dict, get, set, get-set}
use velarix_bot.Tasks.Task as Task
use velarix_bot.Ledger.Contracts.{
  WorkerOutcome, WorkerCompletion, SealedRunResult, RunPatch, accepted, accept_worker_completion,
  map_run_outcome_to_task_patch, failed_patch,
}
use velarix_bot.Ledger.Report.{failure_code_of}
use velarix_bot.Ledger.Rows.{Delivery, DeliveryFailureCode, Claim, Ledger, ok}
use velarix_bot.Ledger.Deliveries.{
  claim, take_claim, candidate, is_claimable, claimed_row, new_claim, reclaim, claims_collide,
  is_sealed_run, is_claimed, default_claim_lease_ms,
}
use velarix_bot.Ledger.Receipts.{
  fail_delivery, failed_row, delivery_backoff_ms, is_transient_delivery_failure,
}

-- The patch that the run's task gets.
abbrev pub task_patch : SealedRunResult → RunPatch
task_patch result =
    map_run_outcome_to_task_patch result.outcome result.text (failure_code_of result) result.blocker

pub accepted_run_task :
    (input : WorkerCompletion) (result : SealedRunResult)
    → accept_worker_completion input ≡ accepted result
    → (((task_patch result).state ≡ Task.completed) ↔ (input.outcome ≡ WorkerOutcome.completed))
      × ((task_patch result).state ≢ Task.stale)
unfolding accept_worker_completion map_run_outcome_to_task_patch failed_patch failure_code_of
accepted_run_task input result e = go input.outcome refl
  where
    go :
        (o : WorkerOutcome)
        → input.outcome ≡ o
        → (((task_patch result).state ≡ Task.completed) ↔ (input.outcome ≡ WorkerOutcome.completed))
          × ((task_patch result).state ≢ Task.stale)
    go WorkerOutcome.completed q = ground (arith, truthy-trim (get_or_else input.text ""))
    go WorkerOutcome.blocked q = ground arith
    go WorkerOutcome.failed q = ground arith
    go WorkerOutcome.interrupted q = ground arith
    go WorkerOutcome.partial q = ground arith

backoff_suc : (n : ℕ) → delivery_backoff_ms n ≤ delivery_backoff_ms (suc n)
unfolding delivery_backoff_ms
backoff_suc zero = omega arith
backoff_suc (suc zero) = omega arith
backoff_suc (suc (suc zero)) = omega arith
backoff_suc (suc (suc (suc zero))) = omega arith
backoff_suc (suc (suc (suc (suc zero)))) = omega arith
backoff_suc (suc (suc (suc (suc (suc zero))))) = omega arith
backoff_suc (suc (suc (suc (suc (suc (suc zero)))))) = omega arith
backoff_suc (suc (suc (suc (suc (suc (suc (suc zero))))))) = omega arith
backoff_suc (suc (suc (suc (suc (suc (suc (suc (suc n)))))))) = ground arith

backoff_add : (n k : ℕ) → delivery_backoff_ms n ≤ delivery_backoff_ms (n + k)
backoff_add n zero = let e : n + 0 ≡ n = omega arith in rw e (omega arith)
backoff_add n (suc k) =
    let e : n + suc k ≡ suc (n + k) = omega arith in
    rw e (omega (arith, backoff_add n k, backoff_suc (n + k)))

-- The wait after a failed attempt lies between a second and a minute, and does not get shorter with
-- more attempts.
delivery_backoff_bounds :
    (n k : ℕ)
    → (1000 ≤ delivery_backoff_ms n)
      × (delivery_backoff_ms n ≤ 60000)
      × (delivery_backoff_ms n ≤ delivery_backoff_ms (n + k))
unfolding delivery_backoff_ms
delivery_backoff_bounds n k =
    let e : 0 + n ≡ n = omega arith in
    (subst (λ m. 1000 ≤ delivery_backoff_ms m) e (backoff_add 0 n), ground arith, backoff_add n k)

retried :
    (id token : String) (code : DeliveryFailureCode) (now : ℕ) (l l' : Ledger) (d d' : Delivery)
    → get id l.deliveries ≡ some d
    → fail_delivery id token code now l ≡ (l', ok d')
    → (d' ≡ failed_row d code now)
      × (l'.deliveries ≡ set id d' l.deliveries)
      × (l'.runs ≡ l.runs)
      × (d.updated_at ≤ now)
unfolding fail_delivery
retried id token code now l l' d d' f e = ground arith

retried-fields :
    (d : Delivery) (code : DeliveryFailureCode) (now : ℕ)
    → is_transient_delivery_failure code ≡ true
    → d.attempts < d.max_attempts
    → let d' = failed_row d code now in
      (d'.id ≡ d.id)
      × (d'.run_id ≡ d.run_id)
      × (d'.updated_at ≡ now)
      × (is_claimed d'.state ≡ false)
unfolding failed_row
retried-fields d code now t a = ground arith

reclaim-none : (d : Delivery) (cs : List Claim) → is_claimed d.state ≡ false → reclaim d cs ≡ cs
unfolding reclaim
reclaim-none d cs h = rw (h, reclaim) refl

retried-due :
    (d : Delivery) (code : DeliveryFailureCode) (now later : ℕ)
    → is_transient_delivery_failure code ≡ true
    → d.attempts < d.max_attempts
    → is_claimable later (failed_row d code now) ≡ leb (now + delivery_backoff_ms d.attempts) later
unfolding is_claimable failed_row
retried-due d code now later t a = ground arith

candidate-one :
    (id : String) (now : ℕ) (rows : Dict Delivery) (d : Delivery)
    → truthy id ≡ true
    → get id rows ≡ some d
    → candidate (some id) now rows ≡ (if is_claimable now d then some d else none)
unfolding candidate
candidate-one id now rows d t f = ground arith

take-granted :
    (d : Delivery) (token owner : String) (lease_ms now : ℕ) (l : Ledger)
    → get d.id l.deliveries ≡ some d
    → is_claimable now d ≡ true
    → d.updated_at ≤ now
    → any (claims_collide (new_claim d token owner lease_ms now)) (reclaim d l.claims) ≡ false
    → (take_claim d token owner lease_ms now l).1
      ≡ ok (some (claimed_row d d token owner lease_ms now))
unfolding take_claim
take-granted d token owner lease_ms now l f c le fresh = ground arith

claim-one :
    (id token owner : String) (lease_ms : Option ℕ) (now : ℕ) (l : Ledger) (d : Delivery)
    → truthy id ≡ true
    → get id l.deliveries ≡ some d
    → is_sealed_run (get d.run_id l.runs) ≡ true
    → (claim (some id) token owner lease_ms now l).1 ≡ (
        if is_claimable now d
        then (take_claim d token owner (get_or_else lease_ms default_claim_lease_ms) now l).1
        else ok none)
unfolding claim
claim-one id token owner lease_ms now l d t f s =
    ground (arith, candidate-one id now l.deliveries d t f)

-- A claim on one row of a sealed run that nobody holds.
claim-open :
    (id token owner : String) (lease_ms : Option ℕ) (now : ℕ) (l : Ledger) (d : Delivery) (b : Bool)
    → truthy id ≡ true
    → get id l.deliveries ≡ some d
    → d.id ≡ id
    → is_sealed_run (get d.run_id l.runs) ≡ true
    → is_claimed d.state ≡ false
    → is_claimable now d ≡ b
    → (b ≡ true → d.updated_at ≤ now)
    → any
        (claims_collide (new_claim d token owner (get_or_else lease_ms default_claim_lease_ms) now))
        l.claims
      ≡ false
    → (claim (some id) token owner lease_ms now l).1 ≡ (
        if b
        then ok
            (some (claimed_row d d token owner (get_or_else lease_ms default_claim_lease_ms) now))
        else ok none)
claim-open id token owner lease_ms now l d false t f own s o c le fresh =
    claim-one id token owner lease_ms now l d t f s ∙ rw c refl
claim-open id token owner lease_ms now l d true t f own s o c le fresh =
    claim-one id token owner lease_ms now l d t f s
    ∙ rw c (
        take-granted d token owner (get_or_else lease_ms default_claim_lease_ms) now l
          (subst (λ k. get k l.deliveries ≡ some d) (sym own) f) c (le refl)
          (rw (reclaim-none d l.claims o) fresh))

-- A delivery whose attempt failed for a passing reason, with attempts left, waits for its time and then
-- goes to whoever claims it: before the time a claim gets nothing, from then on it gets the row.
pub failed_delivery_returns :
    (id token : String) (code : DeliveryFailureCode) (now : ℕ) (l l' : Ledger) (d d' : Delivery)
    (next_token owner : String) (lease_ms : Option ℕ) (later : ℕ)
    → truthy id ≡ true
    → get id l.deliveries ≡ some d
    → d.id ≡ id
    → is_sealed_run (get d.run_id l.runs) ≡ true
    → is_transient_delivery_failure code ≡ true
    → d.attempts < d.max_attempts
    → fail_delivery id token code now l ≡ (l', ok d')
    → any
        (claims_collide
          (new_claim d' next_token owner (get_or_else lease_ms default_claim_lease_ms) later))
        l'.claims
      ≡ false
    → (claim (some id) next_token owner lease_ms later l').1 ≡ (
        if leb (now + delivery_backoff_ms d.attempts) later
        then ok (
            some (
              claimed_row d' d' next_token owner
                (get_or_else lease_ms default_claim_lease_ms)
                later))
        else ok none)
failed_delivery_returns id token code now l l' d d' next_token owner lease_ms later t f own s tr a e
      fresh =
    let (row, rows, runs, le) = retried id token code now l l' d d' f e in
    let (same_id, same_run, time, open_row) = retried-fields d code now tr a in
    let found : get id l'.deliveries ≡ some d' = rw rows (grind (arith, get-set, ===_refl)) in
    claim-open id next_token owner lease_ms later l' d'
      (leb (now + delivery_backoff_ms d.attempts) later) t found
      (ap (λ x. x.id) row ∙ same_id ∙ own) (rw (runs, row, same_run) s) (rw row open_row)
      (rw row (retried-due d code now later tr a)) (λ h. rw (row, time) (leb_now h)) fresh
  where
    leb_now : leb (now + delivery_backoff_ms d.attempts) later ≡ true → now ≤ later
    leb_now h = ground arith

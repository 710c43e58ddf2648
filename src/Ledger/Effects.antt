-- ===== src/Ledger/Effects.antt =====
-- What the calls write to the runs (server/repositories/agent-task-runs.ts): which of them go through,
-- and on which run.
use velarix_bot.Prelude.{
  ℕ, String, Bool, true, false, not, Option, some, is_some, if◌then◌else◌, ltb, leb, ◌||◌, ◌&&◌,
  ===_iff, ◌≡◌, refl, arith,
}
use velarix_bot.Prelude.Dict.{get, set}
use velarix_bot.Ledger.Contracts.{SealedRunResult}
use velarix_bot.Ledger.Canonical.{Node}
use velarix_bot.Ledger.Rows.{DeliveryFailureCode, Run, RunState, sealed, Ledger}
use velarix_bot.Ledger.Runs.{
  RunBoundIdentity, bind_running, record_progress, is_pending, identity_matches,
}
use velarix_bot.Ledger.Report.{FinalizeInput, deliveries_of}
use velarix_bot.Ledger.Finalize.{insert_deliveries, seal, terminalize}
use velarix_bot.Ledger.Deliveries.{take_claim, claim}
use velarix_bot.Ledger.Receipts.{Messages, ack, fail_delivery, retry_failed, mark_published}
use velarix_bot.Ledger.Kept.{goes_through}
use velarix_bot.Ledger.Runs.{any_run, is_taken, is_before, bound_run, progressed_run}

abbrev pub has_ended : RunState → Bool
has_ended RunState.pending = false
has_ended RunState.running = false
has_ended (sealed o) = true

pub matches-id : (r : Run) (i : RunBoundIdentity) → identity_matches r i ≡ true → r.id ≡ i.run_id
unfolding identity_matches
matches-id r i h = (===_iff r.id i.run_id).0 (ground arith)

pub binds_through : RunBoundIdentity → String → String → ℕ → Run → Ledger → Bool
binds_through identity turn instance now r0 l =
    identity_matches r0 identity
    && (is_pending r0.state
        && not
            (any_run (is_taken r0.worker_thread_id instance turn) l.runs || ltb now r0.updated_at))

pub bind_effect :
    (identity : RunBoundIdentity) (turn instance model : String) (now : ℕ) (l : Ledger) (r0 : Run)
    → get identity.run_id l.runs ≡ some r0
    → (bind_running identity turn instance model now l).0.runs ≡ (
        if binds_through identity turn instance now r0 l
        then set r0.id (bound_run r0 turn instance model now) l.runs
        else l.runs)
unfolding bind_running binds_through
bind_effect identity turn instance model now l r0 e = ground arith

pub bind-open :
    (identity : RunBoundIdentity) (turn instance : String) (now : ℕ) (r0 : Run) (l : Ledger)
    → binds_through identity turn instance now r0 l ≡ true
    → (identity_matches r0 identity ≡ true) × (has_ended r0.state ≡ false)
unfolding binds_through
bind-open identity turn instance now r0 l h = ground arith

pub progresses_through : RunBoundIdentity → ℕ → Run → Bool
progresses_through identity now r0 =
    identity_matches r0 identity
    && (not (has_ended r0.state)
        && not (ltb now r0.updated_at || is_before now r0.last_progress_at))

pub progress_effect :
    (identity : RunBoundIdentity) (json : String) (now : ℕ) (l : Ledger) (r0 : Run)
    → get identity.run_id l.runs ≡ some r0
    → (record_progress identity json now l).0.runs ≡ (
        if progresses_through identity now r0
        then set r0.id (progressed_run r0 json now) l.runs
        else l.runs)
unfolding record_progress progresses_through
progress_effect identity json now l r0 e = ground arith

pub progress-open :
    (identity : RunBoundIdentity) (now : ℕ) (r0 : Run)
    → progresses_through identity now r0 ≡ true
    → (identity_matches r0 identity ≡ true) × (has_ended r0.state ≡ false)
unfolding progresses_through
progress-open identity now r0 h = ground arith

pub goes-open :
    (input : FinalizeInput) (computed : String) (r0 : Run)
    → goes_through input computed r0 ≡ true
    → (identity_matches r0 input.identity ≡ true) × (has_ended r0.state ≡ false)
unfolding goes_through
goes-open input computed r0 h = ground arith

pub seal_writes : Node → FinalizeInput → SealedRunResult → Run → Ledger → Bool
seal_writes node input result r l =
    is_some (insert_deliveries (deliveries_of node input result r) l.deliveries)
    && leb r.updated_at input.now

pub seal_effect :
    (node : Node) (input : FinalizeInput) (result : SealedRunResult) (r : Run) (l : Ledger)
    → (seal node input result r l).0.runs ≡ (
        if seal_writes node input result r l
        then set r.id (terminalize node input result r) l.runs
        else l.runs)
unfolding seal seal_writes
seal_effect node input result r l = ground arith

pub if-runs :
    (b : Bool) (l l' : Ledger) → (if b then l' else l).runs ≡ (if b then l'.runs else l.runs)
if-runs true l l' = refl
if-runs false l l' = refl

pub claim-runs :
    (id : Option String) (token owner : String) (lease_ms : Option ℕ) (now : ℕ) (l : Ledger)
    → (claim id token owner lease_ms now l).0.runs ≡ l.runs
unfolding claim take_claim
claim-runs id token owner lease_ms now l = ground arith

pub ack-runs :
    (messages : Messages) (id token : String) (now : ℕ) (l : Ledger)
    → (ack messages id token now l).0.runs ≡ l.runs
unfolding ack
ack-runs messages id token now l = ground arith

pub fail-runs :
    (id token : String) (code : DeliveryFailureCode) (now : ℕ) (l : Ledger)
    → (fail_delivery id token code now l).0.runs ≡ l.runs
unfolding fail_delivery
fail-runs id token code now l = ground arith

pub retry-runs : (id : String) (now : ℕ) (l : Ledger) → (retry_failed id now l).0.runs ≡ l.runs
unfolding retry_failed
retry-runs id now l = ground arith

pub publish-runs :
    (messages : Messages) (id : String) (now : ℕ) (l : Ledger)
    → (mark_published messages id now l).0.runs ≡ l.runs
unfolding mark_published
publish-runs messages id now l = ground arith

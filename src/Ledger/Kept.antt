-- ===== src/Ledger/Kept.antt =====
-- What stays in the ledger over its calls (server/repositories/agent-task-runs.ts, server/db/migrations.ts).
use velarix_bot.Prelude.{
  ℕ, String, Bool, true, false, not, none, some, List, [], ◌∷◌, if◌then◌else◌, ◌&&◌, ltb, ◌===◌,
  ===_iff, ◌≡◌, refl, sym, subst, arith, inl, inr, Option-cases, Bool-cases, All,
}
use velarix_bot.Prelude.Dict.{Dict, get, set, get-set, AllValues, set-AllValues, get-AllValues}
use velarix_bot.Ledger.Contracts.{
  SealedRunResult, Acceptance, rejected, accepted, accept_worker_completion,
}
use velarix_bot.Ledger.Canonical.{Node, sealed_result_bytes, sha256_canonical}
use velarix_bot.Ledger.Rows.{Delivery, Run, Ledger}
use velarix_bot.Ledger.Runs.{
  RunCreateInput, RunBoundIdentity, create_pending, bind_running, record_progress, is_running,
  identity_matches,
}
use velarix_bot.Ledger.Report.{FinalizeInput, new_delivery, deliveries_of}
use velarix_bot.Ledger.Finalize.{
  insert_deliveries, seal, asserts_other, is_bound, finalize_accepted, finalize,
}
use velarix_bot.Ledger.Calls.{
  Call, creates, binds, progresses, finalizes, claims, acks, fails, retries, publishes, step, run,
}
use velarix_bot.Ledger.Schema.{Accepted, Accepted-refl, row_ok}
use velarix_bot.Ledger.Writes.{Put, Writes}
use velarix_bot.Ledger.Attempts.{ack-Writes, fail_delivery-Writes}
use velarix_bot.Ledger.Retries.{claim-Writes, retry_failed-Writes, mark_published-Writes}

unfoldable pub Ok : Delivery → Type 0
unfolding row_ok
Ok d = row_ok d ≡ true

-- Both halves of what one call does to the table: rows stay and change as the triggers allow, and the
-- checks of the table hold again.
pub record Kept (rows rows' : Dict Delivery) : Type 0 where
  pub rows_stay :
      (id : String) (d : Delivery)
      → get id rows ≡ some d
      → (d' : Delivery) × (get id rows' ≡ some d') × Accepted d d'
  pub rows_ok : AllValues Ok rows → AllValues Ok rows'

Kept-refl : (rows : Dict Delivery) → Kept rows rows
Kept-refl rows = record { rows_stay = λ id d e. (d, e, Accepted-refl d); rows_ok = λ h. h }

put_stays :
    (p : String) (old new : Delivery) (rows : Dict Delivery)
    → get p rows ≡ some old
    → Accepted old new
    → (id : String) (d : Delivery) → get id rows ≡ some d
    → (d' : Delivery) × (get id (set p new rows) ≡ some d') × Accepted d d'
put_stays p old new rows stored acc id d e = elim (Bool-cases (p === id)) [
  | inl q ↦
      let same : old ≡ d = grind (arith, ===_iff p id) in
      (new, grind (arith, get-set, ===_iff), subst (λ x. Accepted x new) same acc)
  | inr q ↦ (d, grind (arith, get-set), Accepted-refl d)
]

Put-Kept : (rows rows' : Dict Delivery) → Put rows rows' → Kept rows rows'
unfolding Ok
Put-Kept rows rows' p =
    subst (λ x. Kept rows x) (sym p.result)
      (record {
        rows_stay = put_stays p.id p.old p.new rows p.stored p.accepted;
        rows_ok = λ h.
            set-AllValues Ok p.id p.new rows
              (p.keeps_ok (get-AllValues Ok p.id rows p.old h p.stored)) h;
      })

Writes-Kept : (rows rows' : Dict Delivery) → Writes rows rows' → Kept rows rows'
Writes-Kept rows rows' (inl e) = subst (λ x. Kept rows x) (sym e) (Kept-refl rows)
Writes-Kept rows rows' (inr p) = Put-Kept rows rows' p

Kept-trans :
    (a b c : Dict Delivery)
    → ((id : String) (d : Delivery) → get id a ≡ some d → get id b ≡ some d)
    → (AllValues Ok a → AllValues Ok b)
    → Kept b c
    → Kept a c
Kept-trans a b c stays ok k = record {
  rows_stay = λ id d e. k.rows_stay id d (stays id d e);
  rows_ok = λ h. k.rows_ok (ok h);
}

insert_first :
    (d : Delivery) (ds : List Delivery) (rows rows' : Dict Delivery)
    → insert_deliveries (d ∷ ds) rows ≡ some rows'
    → (get d.id rows ≡ none) × (insert_deliveries ds (set d.id d rows) ≡ some rows')
unfolding insert_deliveries
insert_first d ds rows rows' e = ground arith

set-new :
    (k : String) (v : Delivery) (rows : Dict Delivery)
    → get k rows ≡ none
    → (id : String) (d : Delivery) → get id rows ≡ some d
    → get id (set k v rows) ≡ some d
set-new k v rows free id d e = grind (arith, get-set, ===_iff)

insert-Kept :
    (ds : List Delivery) (rows rows' : Dict Delivery)
    → All Ok ds
    → insert_deliveries ds rows ≡ some rows'
    → Kept rows rows'
unfolding insert_deliveries
insert-Kept [] rows rows' h e =
    let same : rows ≡ rows' = ground arith in subst (λ x. Kept rows x) same (Kept-refl rows)
insert-Kept (d ∷ ds) rows rows' h e =
    let (free, rest) = insert_first d ds rows rows' e in
    Kept-trans rows (set d.id d rows) rows' (set-new d.id d rows free)
      (set-AllValues Ok d.id d rows h.0) (insert-Kept ds (set d.id d rows) rows' h.1 rest)

new-Ok :
    (node : Node) (input : FinalizeInput) (result : SealedRunResult) (r : Run)
    → All Ok (deliveries_of node input result r)
unfolding deliveries_of new_delivery Ok row_ok
new-Ok node input result r = ground arith

seal-Kept :
    (node : Node) (input : FinalizeInput) (result : SealedRunResult) (r : Run) (l : Ledger)
    → Kept l.deliveries (seal node input result r l).0.deliveries
unfolding seal
seal-Kept node input result r l =
    elim (Option-cases (insert_deliveries (deliveries_of node input result r) l.deliveries)) [
      | inl e ↦ rw (e, seal) (Kept-refl l.deliveries)
      | inr (rows, e) ↦
          let kept =
            insert-Kept (deliveries_of node input result r) l.deliveries rows
              (new-Ok node input result r) e in
          elim (Bool-cases (ltb input.now r.updated_at)) [
            | inl q ↦ rw (e, seal, q) (Kept-refl l.deliveries)
            | inr q ↦ rw (e, seal, q) kept
          ]
    ]

unfoldable pub goes_through : FinalizeInput → String → Run → Bool
goes_through input computed r =
    identity_matches r input.identity
    && (not (asserts_other input.asserted_hash computed) && (is_running r.state && is_bound r))

pub finalize_effect :
    (node : Node) (input : FinalizeInput) (result : SealedRunResult) (l : Ledger) (r : Run)
    → get input.identity.run_id l.runs ≡ some r
    → (finalize_accepted node input result l).0 ≡ (
        if goes_through input (sha256_canonical node (sealed_result_bytes result)) r
        then (seal node input result r l).0
        else l)
unfolding finalize_accepted goes_through
finalize_effect node input result l r e = ground arith

if-Kept :
    (b : Bool) (l l' : Ledger)
    → Kept l.deliveries l'.deliveries
    → Kept l.deliveries (if b then l' else l).deliveries
if-Kept true l l' k = k
if-Kept false l l' k = Kept-refl l.deliveries

accepted-Kept :
    (node : Node) (input : FinalizeInput) (result : SealedRunResult) (l : Ledger)
    → Kept l.deliveries (finalize_accepted node input result l).0.deliveries
unfolding finalize_accepted
accepted-Kept node input result l = elim (Option-cases (get input.identity.run_id l.runs)) [
  | inl e ↦ rw (e, finalize_accepted) (Kept-refl l.deliveries)
  | inr (r, e) ↦ rw (finalize_effect node input result l r e) (
      if-Kept (goes_through input (sha256_canonical node (sealed_result_bytes result)) r) l
        (seal node input result r l).0 (seal-Kept node input result r l))
]

acceptance-Kept :
    (node : Node) (input : FinalizeInput) (l : Ledger) (a : Acceptance)
    → accept_worker_completion input.result ≡ a
    → Kept l.deliveries (finalize node input l).0.deliveries
unfolding finalize
acceptance-Kept node input l (rejected code) e = rw (e, finalize) (Kept-refl l.deliveries)
acceptance-Kept node input l (accepted result) e =
    rw (e, finalize) (accepted-Kept node input result l)

finalize-Kept :
    (node : Node) (input : FinalizeInput) (l : Ledger)
    → Kept l.deliveries (finalize node input l).0.deliveries
finalize-Kept node input l =
    acceptance-Kept node input l (accept_worker_completion input.result) refl

-- The calls on runs do not touch the deliveries.
create-deliveries :
    (input : RunCreateInput) (new_id : String) (now : ℕ) (l : Ledger)
    → (create_pending input new_id now l).0.deliveries ≡ l.deliveries
unfolding create_pending
create-deliveries input new_id now l = ground arith

bind-deliveries :
    (identity : RunBoundIdentity) (turn instance model : String) (now : ℕ) (l : Ledger)
    → (bind_running identity turn instance model now l).0.deliveries ≡ l.deliveries
unfolding bind_running
bind-deliveries identity turn instance model now l = ground arith

progress-deliveries :
    (identity : RunBoundIdentity) (json : String) (now : ℕ) (l : Ledger)
    → (record_progress identity json now l).0.deliveries ≡ l.deliveries
unfolding record_progress
progress-deliveries identity json now l = ground arith

step-Kept : (node : Node) (l : Ledger) (c : Call) → Kept l.deliveries (step node l c).deliveries
unfolding step
step-Kept node l (creates input new_id now) =
    rw (create-deliveries input new_id now l) (Kept-refl l.deliveries)
step-Kept node l (binds identity turn instance model now) =
    rw (bind-deliveries identity turn instance model now l) (Kept-refl l.deliveries)
step-Kept node l (progresses identity json now) =
    rw (progress-deliveries identity json now l) (Kept-refl l.deliveries)
step-Kept node l (finalizes input) = finalize-Kept node input l
step-Kept node l (claims id token owner lease_ms now) =
    Writes-Kept _ _ (claim-Writes id token owner lease_ms now l)
step-Kept node l (acks messages id token now) = Writes-Kept _ _ (ack-Writes messages id token now l)
step-Kept node l (fails id token code now) =
    Writes-Kept _ _ (fail_delivery-Writes id token code now l)
step-Kept node l (retries id now) = Writes-Kept _ _ (retry_failed-Writes id now l)
step-Kept node l (publishes messages id now) =
    Writes-Kept _ _ (mark_published-Writes messages id now l)

-- Each call leaves every delivery in place, and changes it as the triggers of the schema let through.
pub step-Accepted :
    (node : Node) (l : Ledger) (c : Call) (id : String) (d : Delivery)
    → get id l.deliveries ≡ some d
    → (d' : Delivery) × (get id (step node l c).deliveries ≡ some d') × Accepted d d'
step-Accepted node l c id d e = (step-Kept node l c).rows_stay id d e

-- Each call keeps the checks of the table: over a run of calls, every delivery that is stored passes
-- them if all did at the start.
pub run-Ok :
    (node : Node) (l : Ledger) (cs : List Call)
    → AllValues Ok l.deliveries
    → AllValues Ok (run node l cs).deliveries
unfolding run
run-Ok node l [] h = h
run-Ok node l (c ∷ cs) h = run-Ok node (step node l c) cs ((step-Kept node l c).rows_ok h)

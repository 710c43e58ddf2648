-- ===== src/Ledger/Sealed.antt =====
-- A run that has ended is final (server/repositories/agent-task-runs.ts, server/db/migrations.ts).
use velarix_bot.Prelude.{
  ℕ, String, Bool, true, false, some, if◌then◌else◌, ◌===◌, ===_iff, ◌≡◌, refl, subst, arith, inl,
  inr, Option-cases, Bool-cases,
}
use velarix_bot.Prelude.Dict.{Dict, get, set, get-set}
use velarix_bot.Ledger.Contracts.{
  SealedRunResult, Acceptance, rejected, accepted, accept_worker_completion,
}
use velarix_bot.Ledger.Canonical.{Node, sealed_result_bytes, sha256_canonical}
use velarix_bot.Ledger.Rows.{Run, Ledger}
use velarix_bot.Ledger.Runs.{
  RunCreateInput, RunBoundIdentity, create_pending, bind_running, record_progress,
}
use velarix_bot.Ledger.Report.{FinalizeInput}
use velarix_bot.Ledger.Finalize.{seal, terminalize, finalize_accepted, finalize}
use velarix_bot.Ledger.Calls.{
  Call, creates, binds, progresses, finalizes, claims, acks, fails, retries, publishes, step,
}
use velarix_bot.Ledger.Effects.{
  has_ended, matches-id, binds_through, bind_effect, bind-open, progresses_through, progress_effect,
  progress-open, goes-open, seal_writes, seal_effect, claim-runs, ack-runs, fail-runs, retry-runs,
  publish-runs,
}
use velarix_bot.Ledger.Runs.{bound_run, progressed_run}
use velarix_bot.Ledger.Kept.{goes_through, finalize_effect}

set-ended :
    (k : String) (r0 next : Run) (runs : Dict Run)
    → get k runs ≡ some r0
    → has_ended r0.state ≡ false
    → (id : String) (r : Run) → get id runs ≡ some r
    → has_ended r.state ≡ true
    → get id (set k next runs) ≡ some r
set-ended k r0 next runs e open_run id r e' ended = elim (Bool-cases (k === id)) [
  | inl q ↦
      let same : r0 ≡ r = grind (arith, ===_iff k id) in
      absurd (
        let f : has_ended r.state ≡ false = subst (λ x. has_ended x.state ≡ false) same open_run in
        ground arith)
  | inr q ↦ grind (arith, get-set)
]

-- The write of a call that goes through on a run that is open.
stays_if :
    (b : Bool) (k : String) (r0 next : Run) (runs : Dict Run)
    → get k runs ≡ some r0
    → (b ≡ true → (r0.id ≡ k) × (has_ended r0.state ≡ false))
    → (id : String) (r : Run) → get id runs ≡ some r
    → has_ended r.state ≡ true
    → get id (if b then set r0.id next runs else runs) ≡ some r
stays_if false k r0 next runs e h id r e' ended = e'
stays_if true k r0 next runs e h id r e' ended =
    rw (h refl).0 (set-ended k r0 next runs e (h refl).1 id r e' ended)

module _ (id : String) (r : Run) (ended : has_ended r.state ≡ true) where
  create-stays :
      (input : RunCreateInput) (new_id : String) (now : ℕ) (l : Ledger)
      → get id l.runs ≡ some r
      → get id (create_pending input new_id now l).0.runs ≡ some r
  unfolding create_pending
  create-stays input new_id now l e = grind (arith, get-set, ===_iff)

  bind-stays :
      (identity : RunBoundIdentity) (turn instance model : String) (now : ℕ) (l : Ledger)
      → get id l.runs ≡ some r
      → get id (bind_running identity turn instance model now l).0.runs ≡ some r
  unfolding bind_running
  bind-stays identity turn instance model now l e =
      elim (Option-cases (get identity.run_id l.runs)) [
        | inl f ↦ rw (f, bind_running) e
        | inr (r0, f) ↦ rw (bind_effect identity turn instance model now l r0 f) (
            stays_if (binds_through identity turn instance now r0 l) identity.run_id r0
              (bound_run r0 turn instance model now) l.runs f
              (λ h.
                let (m, o) = bind-open identity turn instance now r0 l h in
                (matches-id r0 identity m, o))
              id r e ended)
      ]

  progress-stays :
      (identity : RunBoundIdentity) (json : String) (now : ℕ) (l : Ledger)
      → get id l.runs ≡ some r
      → get id (record_progress identity json now l).0.runs ≡ some r
  unfolding record_progress
  progress-stays identity json now l e = elim (Option-cases (get identity.run_id l.runs)) [
    | inl f ↦ rw (f, record_progress) e
    | inr (r0, f) ↦ rw (progress_effect identity json now l r0 f) (
        stays_if (progresses_through identity now r0) identity.run_id r0
          (progressed_run r0 json now) l.runs f
          (λ h. let (m, o) = progress-open identity now r0 h in (matches-id r0 identity m, o)) id r
          e ended)
  ]

  seal-stays :
      (node : Node) (input : FinalizeInput) (result : SealedRunResult) (r0 : Run) (l : Ledger)
      → get input.identity.run_id l.runs ≡ some r0
      → goes_through input (sha256_canonical node (sealed_result_bytes result)) r0 ≡ true
      → get id l.runs ≡ some r
      → get id (seal node input result r0 l).0.runs ≡ some r
  seal-stays node input result r0 l f h e =
      let (m, o) = goes-open input (sha256_canonical node (sealed_result_bytes result)) r0 h in
      rw (seal_effect node input result r0 l) (
        stays_if (seal_writes node input result r0 l) input.identity.run_id r0
          (terminalize node input result r0) l.runs f (λ _. (matches-id r0 input.identity m, o)) id
          r e ended)

  accepted-stays :
      (node : Node) (input : FinalizeInput) (result : SealedRunResult) (l : Ledger)
      → get id l.runs ≡ some r
      → get id (finalize_accepted node input result l).0.runs ≡ some r
  unfolding finalize_accepted
  accepted-stays node input result l e = elim (Option-cases (get input.identity.run_id l.runs)) [
    | inl f ↦ rw (f, finalize_accepted) e
    | inr (r0, f) ↦
        let computed = sha256_canonical node (sealed_result_bytes result) in
        elim (Bool-cases (goes_through input computed r0)) [
          | inl q ↦
              rw (finalize_effect node input result l r0 f, q)
                (seal-stays node input result r0 l f q e)
          | inr q ↦ rw (finalize_effect node input result l r0 f, q) e
        ]
  ]

  acceptance-stays :
      (node : Node) (input : FinalizeInput) (l : Ledger) (a : Acceptance)
      → accept_worker_completion input.result ≡ a
      → get id l.runs ≡ some r
      → get id (finalize node input l).0.runs ≡ some r
  unfolding finalize
  acceptance-stays node input l (rejected code) q e = rw (q, finalize) e
  acceptance-stays node input l (accepted result) q e =
      rw (q, finalize) (accepted-stays node input result l e)

-- No call changes a run that has ended: its result, its hash and every other column stay.
pub ended_run_stays :
    (node : Node) (l : Ledger) (c : Call) (id : String) (r : Run)
    → get id l.runs ≡ some r
    → has_ended r.state ≡ true
    → get id (step node l c).runs ≡ some r
unfolding step
ended_run_stays node l (creates input new_id now) id r e ended =
    create-stays id r ended input new_id now l e
ended_run_stays node l (binds identity turn instance model now) id r e ended =
    bind-stays id r ended identity turn instance model now l e
ended_run_stays node l (progresses identity json now) id r e ended =
    progress-stays id r ended identity json now l e
ended_run_stays node l (finalizes input) id r e ended =
    acceptance-stays id r ended node input l (accept_worker_completion input.result) refl e
ended_run_stays node l (claims key token owner lease_ms now) id r e ended =
    rw (claim-runs key token owner lease_ms now l) e
ended_run_stays node l (acks messages key token now) id r e ended =
    rw (ack-runs messages key token now l) e
ended_run_stays node l (fails key token code now) id r e ended =
    rw (fail-runs key token code now l) e
ended_run_stays node l (retries key now) id r e ended = rw (retry-runs key now l) e
ended_run_stays node l (publishes messages key now) id r e ended =
    rw (publish-runs messages key now l) e

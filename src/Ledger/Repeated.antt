-- ===== src/Ledger/Repeated.antt =====
-- What a run that has ended answers to another finalize (server/repositories/agent-task-runs.ts).
use velarix_bot.Prelude.{
  ◌⊎◌, ℕ, String, true, false, some, ===_iff, ===_refl, ◌≡◌, ◌≢◌, sym, refl, subst, ◌∙◌, arith,
  Option-cases, truthy, inl, inr,
}
use velarix_bot.Prelude.Dict.{get, set, get-set}
use velarix_bot.Ledger.Contracts.{
  Outcome, SealedRunResult, Acceptance, rejected, accepted, accept_worker_completion,
}
use velarix_bot.Ledger.Canonical.{Node, canonical_json, sealed_result_bytes, sha256_canonical}
use velarix_bot.Ledger.Rows.{Run, RunState, sealed, Ledger, ok, err, conflicting_hash}
use velarix_bot.Ledger.Runs.{RunBoundIdentity, identity_matches}
use velarix_bot.Ledger.Effects.{has_ended, matches-id}
use velarix_bot.Ledger.Report.{FinalizeInput}
use velarix_bot.Ledger.Finalize.{
  seal, terminalize, finalize_accepted, finalize, finalize_again, asserts_other, same_outcome,
}

same_outcome_refl : (o : Outcome) → same_outcome o o ≡ true
same_outcome_refl Outcome.completed = refl
same_outcome_refl Outcome.failed = refl
same_outcome_refl Outcome.interrupted = refl
same_outcome_refl Outcome.partial = refl

refused_again :
    (node : Node) (later : FinalizeInput) (second : SealedRunResult) (l : Ledger) (r : Run)
    (o : Outcome) (hash : String)
    → accept_worker_completion later.result ≡ accepted second
    → asserts_other later.asserted_hash (sha256_canonical node (sealed_result_bytes second)) ≡ false
    → get later.identity.run_id l.runs ≡ some r
    → identity_matches r later.identity ≡ true
    → r.state ≡ sealed o
    → r.result_hash ≡ some hash
    → hash ≢ sha256_canonical node (sealed_result_bytes second)
    → finalize node later l ≡ (l, err conflicting_hash)
unfolding finalize finalize_accepted finalize_again
refused_again node later second l r o hash a n f m s h other =
    ground (arith, ===_iff hash (sha256_canonical node (sealed_result_bytes second)))

-- The same call at another time, whose new rows would have other ids.
abbrev pub later_call : FinalizeInput → ℕ → String → String → FinalizeInput
later_call input now parent_id room_id = record input {
  now = now;
  parent_id = parent_id;
  room_id = room_id;
}

-- What holds once a finalize has gone through.
record Answered (node : Node) (input : FinalizeInput) (result : SealedRunResult) (l : Ledger)
    (r : Run) : Type 0 where
  found : get input.identity.run_id l.runs ≡ some r
  matches : identity_matches r input.identity ≡ true
  asserted :
      asserts_other input.asserted_hash (sha256_canonical node (sealed_result_bytes result)) ≡ false
  state : r.state ≡ sealed result.outcome
  hash : r.result_hash ≡ some (sha256_canonical node (sealed_result_bytes result))

hash_truthy :
    (node : Node) (result : SealedRunResult)
    → ((s : String) → truthy (node.sha256 s) ≡ true)
    → truthy (sha256_canonical node (sealed_result_bytes result)) ≡ true
unfolding sha256_canonical
hash_truthy node result hex = hex (canonical_json node (sealed_result_bytes result))

answer :
    (node : Node) (input : FinalizeInput) (result : SealedRunResult) (l : Ledger) (r : Run)
    → truthy (sha256_canonical node (sealed_result_bytes result)) ≡ true
    → Answered node input result l r
    → finalize_accepted node input result l ≡ (l, ok r)
unfolding finalize_accepted finalize_again
answer node input result l r hex a = ground (
  arith,
  a.found,
  a.matches,
  a.asserted,
  a.state,
  a.hash,
  same_outcome_refl result.outcome,
  ===_refl (sha256_canonical node (sealed_result_bytes result)),
)

terminalize-matches :
    (node : Node) (input : FinalizeInput) (result : SealedRunResult) (r : Run)
    (i : RunBoundIdentity)
    → identity_matches (terminalize node input result r) i ≡ identity_matches r i
unfolding terminalize identity_matches
terminalize-matches node input result r i = refl

seal-ok :
    (node : Node) (input : FinalizeInput) (result : SealedRunResult) (r0 : Run) (l l' : Ledger)
    (r : Run)
    → seal node input result r0 l ≡ (l', ok r)
    → (r ≡ terminalize node input result r0) × (l'.runs ≡ set r0.id r l.runs)
unfolding seal
seal-ok node input result r0 l l' r e = ground arith

terminalize-state :
    (node : Node) (input : FinalizeInput) (result : SealedRunResult) (r0 : Run)
    → ((terminalize node input result r0).state ≡ sealed result.outcome)
      × ((terminalize node input result r0).result_hash
          ≡ some (sha256_canonical node (sealed_result_bytes result)))
unfolding terminalize
terminalize-state node input result r0 = (refl, refl)

through_or_again :
    (node : Node) (input : FinalizeInput) (result : SealedRunResult) (l l' : Ledger) (r0 r : Run)
    → get input.identity.run_id l.runs ≡ some r0
    → finalize_accepted node input result l ≡ (l', ok r)
    → let computed = sha256_canonical node (sealed_result_bytes result) in
      (identity_matches r0 input.identity ≡ true)
      × (asserts_other input.asserted_hash computed ≡ false)
      × ((seal node input result r0 l ≡ (l', ok r))
          ⊎ ((l ≡ l') × (finalize_again r0 result.outcome computed ≡ ok r)))
unfolding finalize_accepted
through_or_again node input result l l' r0 r f e = ground arith

same_outcome_eq : (o p : Outcome) → same_outcome o p ≡ true → o ≡ p
same_outcome_eq o p h = ground arith

state_cases : (s : RunState) → (has_ended s ≡ false) ⊎ ((o : Outcome) × (s ≡ sealed o))
state_cases RunState.pending = inl refl
state_cases RunState.running = inl refl
state_cases (sealed o) = inr (o, refl)

again-ok :
    (r0 r : Run) (o : Outcome) (computed : String)
    → finalize_again r0 o computed ≡ ok r
    → (r0 ≡ r) × (r0.state ≡ sealed o) × (r0.result_hash ≡ some computed)
unfolding finalize_again
again-ok r0 r o computed e = elim (state_cases r0.state) [
  | inl q ↦ absurd (ground arith)
  | inr (p, q) ↦ elim (Option-cases r0.result_hash) [
    | inl n ↦ absurd (ground arith)
    | inr (h, m) ↦ ground (arith, same_outcome_eq p o, ===_iff h computed)
  ]
]

again-Answered :
    (node : Node) (input : FinalizeInput) (result : SealedRunResult) (l : Ledger) (r0 r : Run)
    → get input.identity.run_id l.runs ≡ some r0
    → identity_matches r0 input.identity ≡ true
    → asserts_other input.asserted_hash (sha256_canonical node (sealed_result_bytes result)) ≡ false
    → finalize_again r0 result.outcome (sha256_canonical node (sealed_result_bytes result)) ≡ ok r
    → Answered node input result l r
again-Answered node input result l r0 r f m a e =
    let (same, state, hash) =
      again-ok r0 r result.outcome (sha256_canonical node (sealed_result_bytes result)) e in
    subst (λ x. Answered node input result l x) same
      (record { found = f; matches = m; asserted = a; state = state; hash = hash })

seal-Answered :
    (node : Node) (input : FinalizeInput) (result : SealedRunResult) (l l' : Ledger) (r0 r : Run)
    → identity_matches r0 input.identity ≡ true
    → asserts_other input.asserted_hash (sha256_canonical node (sealed_result_bytes result)) ≡ false
    → seal node input result r0 l ≡ (l', ok r)
    → Answered node input result l' r
seal-Answered node input result l l' r0 r m a e =
    let (same, runs) = seal-ok node input result r0 l l' r e in
    let (state, hash) = terminalize-state node input result r0 in
    record {
      found = rw runs (grind (arith, get-set, matches-id r0 input.identity m, ===_refl));
      matches = rw same (terminalize-matches node input result r0 input.identity ∙ m);
      asserted = a;
      state = rw same state;
      hash = rw same hash;
    }

accepted-Answered :
    (node : Node) (input : FinalizeInput) (result : SealedRunResult) (l l' : Ledger) (r : Run)
    → finalize_accepted node input result l ≡ (l', ok r)
    → Answered node input result l' r
unfolding finalize_accepted
accepted-Answered node input result l l' r e =
    elim (Option-cases (get input.identity.run_id l.runs)) [
      | inl f ↦ absurd (ground arith)
      | inr (r0, f) ↦
          let (m, a, how) = through_or_again node input result l l' r0 r f e in
          elim how [
            | inl s ↦ seal-Answered node input result l l' r0 r m a s
            | inr (same, s) ↦
                subst (λ x. Answered node input result x r) same
                  (again-Answered node input result l r0 r f m a s)
          ]
    ]

relabel :
    (node : Node) (input : FinalizeInput) (result : SealedRunResult) (l : Ledger) (r : Run)
    (now : ℕ) (parent_id room_id : String)
    → Answered node input result l r
    → Answered node (later_call input now parent_id room_id) result l r
relabel node input result l r now parent_id room_id a = record {
  found = a.found;
  matches = a.matches;
  asserted = a.asserted;
  state = a.state;
  hash = a.hash;
}

-- A finalize that went through can be repeated: it writes nothing, and answers with the same run.
pub finalize_repeats :
    (node : Node) (input : FinalizeInput) (l l' : Ledger) (r : Run) (now : ℕ)
    (parent_id room_id : String)
    → ((s : String) → truthy (node.sha256 s) ≡ true)
    → finalize node input l ≡ (l', ok r)
    → finalize node (later_call input now parent_id room_id) l' ≡ (l', ok r)
unfolding finalize
finalize_repeats node input l l' r now parent_id room_id hex e =
    go (accept_worker_completion input.result) refl
  where
    go :
        (a : Acceptance)
        → accept_worker_completion input.result ≡ a
        → finalize node (later_call input now parent_id room_id) l' ≡ (l', ok r)
    go (rejected code) q = absurd (ground arith)
    go (accepted result) q =
        rw (q, finalize)
          (answer node (later_call input now parent_id room_id) result l' r
            (hash_truthy node result hex)
            (relabel node input result l' r now parent_id room_id
              (accepted-Answered node input result l l' r (rw (q, finalize) at e))))

-- After a finalize has gone through, a finalize of the same run with a result that has another hash
-- is refused as a conflict, whenever it comes and whatever else it carries, and nothing is written;
-- provided that the hash it asserts, if any, is the one of its own result.
pub finalize_conflict :
    (node : Node) (input later : FinalizeInput) (result second : SealedRunResult) (l l' : Ledger)
    (r : Run)
    → accept_worker_completion input.result ≡ accepted result
    → accept_worker_completion later.result ≡ accepted second
    → later.identity ≡ input.identity
    → asserts_other later.asserted_hash (sha256_canonical node (sealed_result_bytes second)) ≡ false
    → sha256_canonical node (sealed_result_bytes result)
      ≢ sha256_canonical node (sealed_result_bytes second)
    → finalize node input l ≡ (l', ok r)
    → finalize node later l' ≡ (l', err conflicting_hash)
unfolding finalize
finalize_conflict node input later result second l l' r a b same n other e =
    let h = accepted-Answered node input result l l' r (rw (a, finalize) at e) in
    refused_again node later second l' r result.outcome
      (sha256_canonical node (sealed_result_bytes result)) b n
      (subst (λ i. get i.run_id l'.runs ≡ some r) (sym same) h.found)
      (subst (λ i. identity_matches r i ≡ true) (sym same) h.matches) h.state h.hash other

-- ===== src/Workflow/Laws.antt =====
-- A bot is waited for once (server/workflow.ts).
use velarix_bot.Prelude.{
  String, true, not, List, [], ◌∷◌, ◌++◌, Option, some, arith, ◌≡◌, get_or_else, keep, ◌===◌,
  ===_refl,
}
use velarix_bot.Workflow.{WorkflowWaitingFor, remove_waiting_for, upsert_waiting_for}

keep_again :
    (id : String) (ws : List WorkflowWaitingFor) (w : WorkflowWaitingFor)
    → (w.bot_id === id) ≡ true
    → keep (λ x. not (x.bot_id === id)) (keep (λ x. not (x.bot_id === id)) ws ++ w ∷ [])
      ≡ keep (λ x. not (x.bot_id === id)) ws
keep_again id [] w e = ground (arith, e)
keep_again id (x ∷ ws) w e = ground (arith, e, keep_again id ws w e)

-- Removing a bot that was added, or added anew under another name, leaves what removing it before
-- would have left.
remove_waiting_for-upsert :
    (current : Option (List WorkflowWaitingFor)) (add : WorkflowWaitingFor)
    → remove_waiting_for (some (upsert_waiting_for current add)) add.bot_id
      ≡ remove_waiting_for current add.bot_id
unfolding remove_waiting_for upsert_waiting_for
remove_waiting_for-upsert current add =
    keep_again add.bot_id (get_or_else current []) add (===_refl add.bot_id)

-- ===== src/Workflow/Tests.antt =====
-- The theorem on whom a lead waits for at a concrete input.
use velarix_bot.Prelude.{[], ◌∷◌, some, ◌≡◌, refl}
use velarix_bot.Workflow.{WorkflowWaitingFor, upsert_waiting_for}

abbrev ann : WorkflowWaitingFor
ann = record { bot_id = "a"; name = "Ann" }

abbrev anna : WorkflowWaitingFor
anna = record { bot_id = "a"; name = "Anna" }

renames : upsert_waiting_for (some (ann ∷ [])) anna ≡ anna ∷ []
unfolding upsert_waiting_for
renames = refl

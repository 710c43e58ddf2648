-- ===== src/Workflow.antt =====
-- Whom a lead waits for, server/workflow.ts.
mod Laws
mod Tests
use velarix_bot.Prelude.{String, Bool, not, List, [], ◌∷◌, ◌++◌, Option, get_or_else, keep, ◌===◌}

pub record WorkflowWaitingFor : Type 0 where
  pub bot_id : String
  pub name : String

pub remove_waiting_for : Option (List WorkflowWaitingFor) → String → List WorkflowWaitingFor
remove_waiting_for current bot_id = keep (λ w. not (w.bot_id === bot_id)) (get_or_else current [])

pub upsert_waiting_for :
    Option (List WorkflowWaitingFor) → WorkflowWaitingFor → List WorkflowWaitingFor
upsert_waiting_for current add =
    keep (λ w. not (w.bot_id === add.bot_id)) (get_or_else current []) ++ add ∷ []

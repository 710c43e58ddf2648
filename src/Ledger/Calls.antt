-- ===== src/Ledger/Calls.antt =====
-- The calls of the ledger's clients as values, and a run of them (the repository that
-- `createAgentTaskRunsRepository` of server/repositories/agent-task-runs.ts returns).
use velarix_bot.Prelude.{ℕ, String, List, [], ◌∷◌, Option}
use velarix_bot.Ledger.Rows.{DeliveryFailureCode, Ledger}
use velarix_bot.Ledger.Canonical.{Node}
use velarix_bot.Ledger.Runs.{
  RunCreateInput, RunBoundIdentity, create_pending, bind_running, record_progress,
}
use velarix_bot.Ledger.Report.{FinalizeInput}
use velarix_bot.Ledger.Finalize.{finalize}
use velarix_bot.Ledger.Deliveries.{claim}
use velarix_bot.Ledger.Receipts.{Messages, ack, fail_delivery, retry_failed, mark_published}

pub data Call : Type 0 where
  creates : RunCreateInput → String → ℕ → Call
  binds : RunBoundIdentity → String → String → String → ℕ → Call
  progresses : RunBoundIdentity → String → ℕ → Call
  finalizes : FinalizeInput → Call
  claims : Option String → String → String → Option ℕ → ℕ → Call
  acks : Messages → String → String → ℕ → Call
  fails : String → String → DeliveryFailureCode → ℕ → Call
  retries : String → ℕ → Call
  publishes : Messages → String → ℕ → Call

unfoldable pub step : Node → Ledger → Call → Ledger
unfolding create_pending bind_running record_progress finalize claim ack fail_delivery retry_failed
    mark_published
step node l (creates input new_id now) = (create_pending input new_id now l).0
step node l (binds identity turn instance model now) =
    (bind_running identity turn instance model now l).0
step node l (progresses identity json now) = (record_progress identity json now l).0
step node l (finalizes input) = (finalize node input l).0
step node l (claims id token owner lease_ms now) = (claim id token owner lease_ms now l).0
step node l (acks messages id token now) = (ack messages id token now l).0
step node l (fails id token code now) = (fail_delivery id token code now l).0
step node l (retries id now) = (retry_failed id now l).0
step node l (publishes messages id now) = (mark_published messages id now l).0

unfoldable pub run : Node → Ledger → List Call → Ledger
unfolding step
run node l [] = l
run node l (c ∷ cs) = run node (step node l c) cs

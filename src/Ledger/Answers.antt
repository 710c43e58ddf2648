-- ===== src/Ledger/Answers.antt =====
-- What a finalize answers (`finalizeTx` of server/repositories/agent-task-runs.ts), and the finalize of
-- the delivery service, which stamps the progress messages of the run
-- (server/services/delegated-results.ts).
use velarix_bot.Prelude.{Bool, false, List, Option, none, some, if◌then◌else◌, String}
use velarix_bot.Prelude.Dict.{get}
use velarix_bot.Tasks.Task.{AgentTask, normalize_agent_task}
use velarix_bot.Tasks.Store.{Rows}
use velarix_bot.Ledger.Canonical.{Node}
use velarix_bot.Ledger.Report.{FinalizeInput}
use velarix_bot.Ledger.Rows.{Run, Delivery, Ledger, Result, ok, err}
use velarix_bot.Ledger.Runs.{is_running}
use velarix_bot.Ledger.Finalize.{finalize}
use velarix_bot.Ledger.Stamps.{list_deliveries_for_run, stamp_progress_from_ledger}
use velarix_bot.Ledger.Pump.{System}

pub record FinalizeAnswer : Type 0 where
  pub run : Run
  pub deliveries : List Delivery
  pub task : Option AgentTask

abbrev pub was_running : Option Run → Bool
was_running none = false
was_running (some run) = is_running run.state

-- What `projectTask` returns, from the tasks before and after it.
unfoldable pub told_task : String → Rows → Rows → Option AgentTask
told_task task_id before tasks = elim (get task_id before) [
  | none ↦ none
  | some row ↦ elim (normalize_agent_task row) [ none ↦ none | some current ↦ get task_id tasks ]
]

-- A finalize that repeats an earlier one answers no task.
unfoldable pub finalize_tx : Node → FinalizeInput → Ledger → Ledger × Result FinalizeAnswer
finalize_tx node input l =
    let r = finalize node input l in
    elim r.1 [
      | err code ↦ (r.0, err code)
      | ok run ↦ (
        r.0,
        ok (record {
          run = run;
          deliveries = list_deliveries_for_run run.id r.0.deliveries;
          task =
              if was_running (get input.identity.run_id l.runs)
              then told_task run.task_id l.tasks r.0.tasks
              else none;
        }),
      )
    ]

unfoldable pub finalize_and_stamp : Node → FinalizeInput → System → System × Result FinalizeAnswer
finalize_and_stamp node input s =
    let r = finalize_tx node input s.ledger in
    elim r.1 [
      | err code ↦ (record s { ledger = r.0 }, err code)
      | ok answer ↦ (
        record s {
          ledger = r.0;
          progress = stamp_progress_from_ledger answer.run r.0.deliveries s.progress;
        },
        ok answer,
      )
    ]

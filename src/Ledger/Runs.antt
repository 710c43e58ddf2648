-- ===== src/Ledger/Runs.antt =====
-- The calls on runs (server/repositories/agent-task-runs.ts). The id of a new row and the text that is
-- stored as progress are arguments. A statement that the schema refuses, and with it the transaction,
-- is `aborted`, and nothing is written.
use velarix_bot.Prelude.{
  ℕ, ◌+◌, String, Bool, true, false, not, ◌&&◌, ◌||◌, Option, none, some, ltb, ◌==◌, ◌===◌,
  if◌then◌else◌, get_or_else, is_some, any,
}
use velarix_bot.Prelude.Dict.{Dict, get, set}
use velarix_bot.Ledger.Rows.{
  RunState, sealed, Run, Ledger, Result, ok, err, identity_mismatch, illegal_transition, not_found,
  aborted,
}

pub record RunCreateInput : Type 0 where
  pub task_id : String
  pub worker_bot_id : String
  pub worker_thread_id : String
  pub source_bot_id : String
  pub source_thread_id : String
  pub parent_thread_id : String
  pub room_thread_id : Option String
  pub attempt : Option ℕ

pub record RunBoundIdentity : Type 0 where
  pub run_id : String
  pub task_id : String
  pub worker_bot_id : String
  pub worker_thread_id : String
  pub source_bot_id : String
  pub source_thread_id : String
  pub parent_thread_id : String
  pub room_thread_id : Option String
  pub attempt : ℕ
  pub turn_id : Option String
  pub provider_instance_id : Option String
  pub provider_model : Option String

abbrev pub same_text : Option String → Option String → Bool
same_text none none = true
same_text none (some t) = false
same_text (some s) none = false
same_text (some s) (some t) = s === t

-- An expected text that is not given matches every text.
abbrev expects : Option String → Option String → Bool
expects none got = true
expects (some want) got = same_text got (some want)

unfoldable pub identity_matches : Run → RunBoundIdentity → Bool
identity_matches run expected =
    run.id === expected.run_id
    && (run.task_id === expected.task_id
        && (run.worker_bot_id === expected.worker_bot_id
            && (run.worker_thread_id === expected.worker_thread_id
                && (run.source_bot_id === expected.source_bot_id
                    && (run.source_thread_id === expected.source_thread_id
                        && (run.parent_thread_id === expected.parent_thread_id
                            && (same_text run.room_thread_id expected.room_thread_id
                                && (run.attempt == expected.attempt
                                    && (expects expected.turn_id run.turn_id
                                        && (expects expected.provider_instance_id
                                              run.provider_instance_id
                                            && expects expected.provider_model
                                                run.provider_model))))))))))

abbrev pub is_pending : RunState → Bool
is_pending RunState.pending = true
is_pending RunState.running = false
is_pending (sealed o) = false

abbrev pub is_running : RunState → Bool
is_running RunState.pending = false
is_running RunState.running = true
is_running (sealed o) = false

abbrev pub put_run : String → Run → Ledger → Ledger
put_run id run l = record l { runs = set id run l.runs }

-- The trigger agent_task_runs_no_replace.
unfoldable pub create_pending : RunCreateInput → String → ℕ → Ledger → Ledger × Result Run
create_pending input new_id now l =
    let run : Run = record {
      id = new_id;
      task_id = input.task_id;
      worker_bot_id = input.worker_bot_id;
      worker_thread_id = input.worker_thread_id;
      source_bot_id = input.source_bot_id;
      source_thread_id = input.source_thread_id;
      parent_thread_id = input.parent_thread_id;
      room_thread_id = input.room_thread_id;
      attempt = get_or_else input.attempt 1;
      state = RunState.pending;
      turn_id = none;
      provider_instance_id = none;
      provider_model = none;
      started_at = none;
      created_at = now;
      updated_at = now;
      last_progress_at = none;
      progress_seq = 0;
      progress_json = none;
      result_json = none;
      result_hash = none;
      failure_code = none;
    } in
    if is_some (get new_id l.runs) then (l, err aborted) else (put_run new_id run l, ok run)

-- Another run that runs on the thread, or that has this turn of the provider: the unique indexes.
unfoldable pub is_taken : String → String → String → Run → Bool
is_taken thread instance turn r =
    is_running r.state && r.worker_thread_id === thread
    || (not (is_pending r.state)
        && (same_text r.provider_instance_id (some instance) && same_text r.turn_id (some turn)))

abbrev pub any_run : (Run → Bool) → Dict Run → Bool
any_run p runs = any (λ (e : String × Run). p e.1) runs

abbrev pub bound_run : Run → String → String → String → ℕ → Run
bound_run run turn instance model started_at = record run {
  state = RunState.running;
  turn_id = some turn;
  provider_instance_id = some instance;
  provider_model = some model;
  started_at = some started_at;
  updated_at = started_at;
}

unfoldable pub bind_running :
    RunBoundIdentity → String → String → String → ℕ → Ledger → Ledger × Result Run
bind_running identity turn instance model started_at l = elim (get identity.run_id l.runs) [
  | none ↦ (l, err not_found)
  | some run ↦
      let bound = bound_run run turn instance model started_at in
      if not (identity_matches run identity)
      then (l, err identity_mismatch)
      else if not (is_pending run.state)
      then (l, err illegal_transition)
      else if any_run (is_taken run.worker_thread_id instance turn) l.runs
          || ltb started_at run.updated_at
      then (l, err aborted)
      else (put_run run.id bound l, ok bound)
]

abbrev pub is_before : ℕ → Option ℕ → Bool
is_before now none = false
is_before now (some last) = ltb now last

abbrev pub progressed_run : Run → String → ℕ → Run
progressed_run run json now = record run {
  progress_json = some json;
  progress_seq = run.progress_seq + 1;
  last_progress_at = some now;
  updated_at = now;
}

unfoldable pub record_progress : RunBoundIdentity → String → ℕ → Ledger → Ledger × Result Run
record_progress identity json now l = elim (get identity.run_id l.runs) [
  | none ↦ (l, err not_found)
  | some run ↦
      let next = progressed_run run json now in
      if not (identity_matches run identity)
      then (l, err identity_mismatch)
      else if not (is_pending run.state || is_running run.state)
      then (l, err illegal_transition)
      else if ltb now run.updated_at || is_before now run.last_progress_at
      then (l, err aborted)
      else (put_run run.id next l, ok next)
]

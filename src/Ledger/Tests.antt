-- ===== src/Ledger/Tests.antt =====
-- A delegated run from start to end, and the theorems at concrete inputs.
use Prim.Native.String.{◌++◌}
use velarix_bot.Prelude.{
  String, Option, none, some, [], ◌∷◌, ◌≡◌, ◌≢◌, ◌↔◌, refl, arith, ===_iff, trim,
}
use mathlib.Core.List.{Memᴰ}
use velarix_bot.Prelude.Dict.{get, set, AllValues}
use velarix_bot.Tasks.Task as Task
use velarix_bot.Tasks.Task.{normalize_agent_task, normal_form, optional_string, coerce_task_state}
use velarix_bot.Ledger.Contracts.{
  Outcome, WorkerOutcome, WorkerCompletion, SealedRunResult, accept_worker_completion,
}
use velarix_bot.Ledger.Canonical.{
  Json, null, text, object, Fields, no_fields, field, Node, canonical_json, sha256_canonical,
  sealed_result_bytes,
}
use velarix_bot.Ledger.Rows.{
  RunState, sealed, Run, Delivery, Claim, Ledger, Result, ok, err, conflicting_hash, token_reused,
  stale_claim,
}
use velarix_bot.Ledger.Rows as Rows
use velarix_bot.Ledger.Runs.{RunBoundIdentity, RunCreateInput, identity_matches, is_taken}
use velarix_bot.Ledger.Report.{FinalizeInput, payload_of, new_delivery, deliveries_of}
use velarix_bot.Ledger.Finalize.{
  finalize, finalize_accepted, finalize_again, seal, terminalize, insert_deliveries, project_task,
}
use velarix_bot.Ledger.Deliveries.{claim, take_claim, candidate, list_claimable}
use velarix_bot.Ledger.Receipts.{ack, fail_delivery, failed_row}
use velarix_bot.Ledger.Deliveries.{claimed_row, new_claim}
use velarix_bot.Ledger.Schema.{Accepted, row_ok}
use velarix_bot.Ledger.Kept.{Ok, step-Accepted, run-Ok}
use velarix_bot.Ledger.Sealed.{ended_run_stays}
use velarix_bot.Ledger.Repeated.{finalize_conflict, finalize_repeats, later_call}
use velarix_bot.Ledger.Stale.{stale_holder_refused}
use velarix_bot.Ledger.Outcomes.{failed_delivery_returns}
use velarix_bot.Ledger.Told.{finalize_tells_task}
use velarix_bot.Ledger.Answers.{FinalizeAnswer, finalize_tx, told_task}
use velarix_bot.Prelude.{inl}
use velarix_bot.Ledger.Deliveries.{default_claim_lease_ms}
use velarix_bot.Ledger.Pump.{
  StoredMessage, Inbox, System, delivered, deliver_one, deliver_due, republish, list_unpublished,
  pump_due, put_and_ack, put_fixed, confirm, publish,
}
use velarix_bot.Ledger.Delivered.{deliver_one_receipt, Received}
use velarix_bot.Ledger.Pumped.{Undisturbed, pump_due_keeps}
use velarix_bot.Ledger.Stamps.{
  ProgressMessage, pending, stamp_run_by_id, stamp_progress_from_ledger, restamp,
  progress_stamp_from_ledger, list_deliveries_for_run,
}
use velarix_bot.Ledger.Stamps as Stamps
use velarix_bot.Ledger.Delivers.{deliver_one_delivers}
use velarix_bot.Ledger.Calls.{creates, binds, progresses, finalizes, claims, acks, fails, step, run}

mutual
  print : Json → String
  print null = "null"
  print (text s) = "'" ++ s ++ "'"
  print (object fs) = "{" ++ print_fields fs ++ "}"

  print_fields : Fields → String
  print_fields no_fields = ""
  print_fields (field k v fs) = k ++ ":" ++ print v ++ "," ++ print_fields fs

abbrev node : Node
node = record { stringify = print; sha256 = λ s. String.◌∷◌ "#" s }

abbrev identity : RunBoundIdentity
identity = record {
  run_id = "run";
  task_id = "task";
  worker_bot_id = "worker";
  worker_thread_id = "wt";
  source_bot_id = "lead";
  source_thread_id = "st";
  parent_thread_id = "pt";
  room_thread_id = some "room";
  attempt = 1;
  turn_id = none;
  provider_instance_id = none;
  provider_model = none;
}

abbrev done : WorkerCompletion
done = record {
  outcome = WorkerOutcome.completed;
  text = some "done";
  failure_code = none;
  blocker = none;
  blocker_owner = none;
  next_action = none;
}

abbrev done_result : SealedRunResult
done_result = record {
  text = "done";
  outcome = Outcome.completed;
  failure_code = none;
  blocker = none;
}

abbrev finish : FinalizeInput
finish = record {
  identity = identity;
  result = done;
  asserted_hash = none;
  worker_name = none;
  worker_color = none;
  now = 30;
  parent_id = "d1";
  room_id = "d2";
}

abbrev created : RunCreateInput
created = record {
  task_id = "task";
  worker_bot_id = "worker";
  worker_thread_id = "wt";
  source_bot_id = "lead";
  source_thread_id = "st";
  parent_thread_id = "pt";
  room_thread_id = some "room";
  attempt = none;
}

abbrev nothing : Ledger
nothing = record { runs = []; deliveries = []; claims = []; tasks = [] }

abbrev started : Ledger
started = run node nothing (creates created "run" 10 ∷ binds identity "t" "i" "m" 20 ∷ [])

abbrev ended : Ledger
ended = step node started (finalizes finish)

abbrev first_token : String
first_token = "token-number-one"

abbrev held : Ledger
held = step node ended (claims (some "d1") first_token "w1" (some 100) 40)

delivery_states : Option Delivery → Option Rows.DeliveryState
delivery_states none = none
delivery_states (some d) = some d.state

life :
    (delivery_states (get "d1" ended.deliveries) ≡ some Rows.pending)
    × (delivery_states (get "d1" held.deliveries) ≡ some Rows.claimed)
    × (delivery_states (
          get "d1"
            (step node held (acks (("dtr:run:parent", "pt") ∷ []) "d1" first_token 50)).deliveries)
        ≡ some Rows.delivered)
unfolding delivery_states run step seal finalize finalize_accepted finalize_again identity_matches
    terminalize deliveries_of insert_deliveries project_task is_taken get set
    accept_worker_completion trim print
life = (refl, refl, refl)

abbrev bound : Run
bound = record {
  id = "run";
  task_id = "task";
  worker_bot_id = "worker";
  worker_thread_id = "wt";
  source_bot_id = "lead";
  source_thread_id = "st";
  parent_thread_id = "pt";
  room_thread_id = some "room";
  attempt = 1;
  state = RunState.running;
  turn_id = some "t";
  provider_instance_id = some "i";
  provider_model = some "m";
  started_at = some 20;
  created_at = 10;
  updated_at = 20;
  last_progress_at = none;
  progress_seq = 0;
  progress_json = none;
  result_json = none;
  result_hash = none;
  failure_code = none;
}

abbrev ended_run : Run
ended_run = terminalize node finish done_result bound

abbrev first : Delivery
first = new_delivery node finish (payload_of finish done_result bound) bound Rows.parent "pt" "d1"

abbrev taken : Delivery
taken = claimed_row first first first_token "w1" 100 40

abbrev second_token : String
second_token = "token-number-two"

step-Accepted_example :
    (d : Delivery) × (get "d1"
        (step node ended (claims (some "d1") first_token "w1" (some 100) 40)).deliveries
      ≡ some d)
    × Accepted first d
unfolding run step seal finalize finalize_accepted finalize_again identity_matches terminalize
    deliveries_of insert_deliveries project_task is_taken get set accept_worker_completion trim
    print
step-Accepted_example =
    step-Accepted node ended (claims (some "d1") first_token "w1" (some 100) 40) "d1" first refl

run-Ok_example :
    AllValues Ok
      (run node ended (
        claims (some "d1") first_token "w1" (some 100) 40
        ∷ fails "d1" first_token Rows.io_error 50
        ∷ [])).deliveries
unfolding run step seal finalize finalize_accepted finalize_again identity_matches terminalize
    deliveries_of insert_deliveries project_task is_taken get set accept_worker_completion trim
    print new_delivery payload_of row_ok Ok
run-Ok_example =
    run-Ok node ended
      (claims (some "d1") first_token "w1" (some 100) 40
        ∷ fails "d1" first_token Rows.io_error 50
        ∷ [])
      (refl, (refl, tt))

ended_run_stays_example :
    get "run" (step node ended (progresses identity "x" 90)).runs ≡ some ended_run
unfolding run step seal finalize finalize_accepted finalize_again identity_matches terminalize
    deliveries_of insert_deliveries project_task is_taken get set accept_worker_completion trim
    print
ended_run_stays_example =
    ended_run_stays node ended (progresses identity "x" 90) "run" ended_run refl refl

abbrev other : FinalizeInput
other = record finish { result = record done { text = some "else" } }

abbrev other_result : SealedRunResult
other_result = record done_result { text = "else" }

finalize_conflict_example : finalize node other ended ≡ (ended, err conflicting_hash)
unfolding run step seal finalize finalize_accepted finalize_again identity_matches terminalize
    deliveries_of insert_deliveries project_task is_taken get set accept_worker_completion trim
    print sealed_result_bytes sha256_canonical canonical_json
finalize_conflict_example =
    finalize_conflict node finish other done_result other_result started ended ended_run refl refl
      refl refl
      (λ e. ground (
        arith,
        ===_iff (sha256_canonical node (sealed_result_bytes done_result))
            (sha256_canonical node (sealed_result_bytes other_result)),
        e,
      ))
      refl

finalize_repeats_example :
    finalize node (later_call finish 70 "d3" "d4") ended ≡ (ended, ok ended_run)
unfolding run step seal finalize finalize_accepted finalize_again identity_matches terminalize
    deliveries_of insert_deliveries project_task is_taken get set accept_worker_completion trim
    print
finalize_repeats_example =
    finalize_repeats node finish started ended ended_run 70 "d3" "d4" (λ s. refl) refl

abbrev reclaimed_ledger : Ledger
reclaimed_ledger = step node held (claims (some "d1") second_token "w2" none 200)

stale_holder_refused_example :
    (ack [] "d1" first_token 210 reclaimed_ledger ≡ (reclaimed_ledger, err token_reused))
    × (fail_delivery "d1" first_token Rows.io_error 210 reclaimed_ledger
        ≡ (reclaimed_ledger, err stale_claim))
unfolding run step seal finalize finalize_accepted finalize_again identity_matches terminalize
    deliveries_of insert_deliveries project_task is_taken get set accept_worker_completion trim
    print
stale_holder_refused_example =
    stale_holder_refused "d1" second_token "w2" none 200 held reclaimed_ledger taken
      (claimed_row taken taken second_token "w2" 15000 200)
      (new_claim first first_token "w1" 100 40) [] Rows.io_error 210 refl refl refl (Memᴰ.head refl)
      refl refl refl

abbrev task_row : Task.AgentTask
task_row = record {
  id = "task";
  assignee_bot_id = "worker";
  from_bot_id = "lead";
  from_name = "Lead";
  source_thread_id = "st";
  assignment = "do it";
  reason = none;
  state = Task.active;
  result = none;
  blocker = none;
  blocker_owner = none;
  next_action = none;
  assignment_message_id = none;
  created_at = 5;
  updated_at = 5;
  run_id = some "run";
  delivery_state = none;
  run_outcome = none;
  failure_code = none;
}

abbrev with_task : Ledger
with_task = record started { tasks = ("task", task_row) ∷ [] }

abbrev told : Ledger × Result FinalizeAnswer
told = finalize_tx node finish with_task

abbrev told_answer : FinalizeAnswer
told_answer = record {
  run = ended_run;
  deliveries = list_deliveries_for_run "run" told.0.deliveries;
  task = get "task" told.0.tasks;
}

finalize_tells_task_example :
    (told_answer.deliveries ≡ list_deliveries_for_run "run" told.0.deliveries)
    × ((t' : Task.AgentTask) × (get "task" told.0.tasks ≡ some t')
        × (told_answer.task ≡ some t')
        × ((t'.state ≡ Task.completed) ↔ (done.outcome ≡ WorkerOutcome.completed))
        × (t'.state ≢ Task.stale)
        × (t'.delivery_state ≡ some Task.result_stored)
        × (t'.run_outcome ≡ some Task.run_completed)
        × (t'.updated_at ≡ 30))
unfolding run step seal finalize finalize_accepted finalize_again identity_matches terminalize
    deliveries_of insert_deliveries project_task is_taken get set accept_worker_completion trim
    print finalize_tx told_task normalize_agent_task
finalize_tells_task_example =
    finalize_tells_task node finish done_result with_task told.0 bound told_answer task_row refl
      refl refl refl refl refl

abbrev waiting : Delivery
waiting = failed_row taken Rows.io_error 50

failed_delivery_returns_example :
    (claim
      (some "d1")
      second_token
      "w2"
      none
      2000
      (step node held (fails "d1" first_token Rows.io_error 50))).1
    ≡ ok (some (claimed_row waiting waiting second_token "w2" 15000 2000))
unfolding run step seal finalize finalize_accepted finalize_again identity_matches terminalize
    deliveries_of insert_deliveries project_task is_taken get set accept_worker_completion trim
    print
failed_delivery_returns_example =
    failed_delivery_returns "d1" first_token Rows.io_error 50 held
      (step node held (fails "d1" first_token Rows.io_error 50)) taken waiting second_token "w2"
      none 2000 refl refl refl refl refl (omega arith) refl refl

abbrev old_message : StoredMessage
old_message = record { thread_id = "pt"; payload = "hello" }

abbrev inbox : Inbox
inbox = record { threads = "pt" ∷ "room" ∷ []; messages = ("old", old_message) ∷ [] }

abbrev still_working : ProgressMessage
still_working = record {
  id = "p1";
  thread_id = "pt";
  task_id = "task";
  status = none;
  failure_code = none;
}

abbrev system : System
system = record { ledger = ended; inbox = inbox; progress = still_working ∷ [] }

-- What the progress message of the run says after the pump has delivered both results, and after it
-- has delivered the first one.
stamps :
    ((pump_due (first_token ∷ second_token ∷ "token-number-three" ∷ []) "w1" 40 system).progress
      ≡ record still_working { status = some Stamps.terminal } ∷ [])
    × ((deliver_one first_token "w1" 40 system).0.progress
        ≡ record still_working { status = some Stamps.pending } ∷ [])
unfolding run step seal finalize finalize_accepted finalize_again identity_matches terminalize
    deliveries_of insert_deliveries project_task is_taken get set accept_worker_completion trim
    print deliver_one put_and_ack put_fixed confirm publish pump_due deliver_due claim take_claim
    candidate list_claimable ack stamp_run_by_id stamp_progress_from_ledger republish
    list_unpublished progress_stamp_from_ledger restamp list_deliveries_for_run
stamps = (refl, refl)

abbrev after_pump : System
after_pump = (deliver_one first_token "w1" 40 system).0

pump_due_keeps_example :
    Undisturbed "old" old_message system
      (pump_due (first_token ∷ second_token ∷ "token-number-three" ∷ []) "w1" 40 system)
unfolding run step seal finalize finalize_accepted finalize_again identity_matches terminalize
    deliveries_of insert_deliveries project_task is_taken get set accept_worker_completion trim
    print deliver_one put_and_ack put_fixed confirm publish
pump_due_keeps_example =
    pump_due_keeps (first_token ∷ second_token ∷ "token-number-three" ∷ []) "w1" "old" 40 system
      old_message refl

deliver_one_receipt_example :
    (d : Delivery) × ((claim none first_token "w1" (some default_claim_lease_ms) 40 ended).1
      ≡ ok (some d))
    × Received d after_pump
unfolding run step seal finalize finalize_accepted finalize_again identity_matches terminalize
    deliveries_of insert_deliveries project_task is_taken get set accept_worker_completion trim
    print deliver_one put_and_ack put_fixed confirm publish
deliver_one_receipt_example = deliver_one_receipt first_token "w1" 40 system after_pump refl

deliver_one_delivers_example : (deliver_one first_token "w1" 40 system).1 ≡ delivered
unfolding run step seal finalize finalize_accepted finalize_again identity_matches terminalize
    deliveries_of insert_deliveries project_task is_taken get set accept_worker_completion trim
    print deliver_one put_and_ack put_fixed confirm publish
deliver_one_delivers_example =
    deliver_one_delivers first_token "w1" 40 system first refl refl refl (omega arith) refl refl
      (inl refl)

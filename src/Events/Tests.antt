-- ===== src/Events/Tests.antt =====
-- A stream that is left and resumed, and the theorems at concrete inputs.
use velarix_bot.Prelude.{
  ℕ, String, true, List, [], ◌∷◌, Option, none, some, map, ◌≡◌, refl, arith, trim,
}
use velarix_bot.Prelude.Dict.{get, set, delete}
use velarix_bot.Events.Log.{
  Payload, latest_sequence, of_stream, max_sequence, append_to_stream, new_row, entries,
  replay_after, min_sequence, oldest_sequence, sort_by_sequence, insert_by_sequence,
}
use velarix_bot.Events.Hub.{
  Client, Hub, Call, broadcasts, attaches, closes, logs_event, run, broadcast, attach, deliver,
  is_ephemeral_frame, requested_id, missed, is_resumed, frames,
}
use velarix_bot.Events.Stream.{Numbered, drop}
use velarix_bot.Events.Numbering.{run-Numbered}
use velarix_bot.Events.Resume.{sequenced_entries, ui_entries, resumed_client_misses_nothing}

abbrev empty_hub : Hub
empty_hub = record { log = []; clients = [] }

empty_hub-Numbered : Numbered empty_hub.log
unfolding of_stream
empty_hub-Numbered = record { streams = λ s. tt; threads = tt }

abbrev message : String → Payload
message body = record { kind = some "message"; event_type = none; body = body }

abbrev delta : Payload
delta = record { kind = some "runtime"; event_type = some "content.delta"; body = "x" }

abbrev start : List Call
start =
    attaches "c" none none
    ∷ broadcasts true (message "a")
    ∷ broadcasts true delta
    ∷ broadcasts true (message "b")
    ∷ logs_event "th" "turn" (message "t")
    ∷ closes "c"
    ∷ broadcasts true (message "d")
    ∷ []

abbrev left : Hub
left = run empty_hub start

abbrev after : List Call
after = broadcasts true (message "e") ∷ logs_event "th" "turn" (message "u") ∷ []

abbrev received_ids : Option Client → List ℕ
received_ids none = []
received_ids (some c) = map (λ e. e.sequence) (sequenced_entries c.received)

-- The client had seen the first frame.
resume_run :
    received_ids (get "c" (run (attach "c" (some "1") (some "0") left) after).clients)
    ≡ 2 ∷ 3 ∷ 4 ∷ []
unfolding run broadcast attach deliver is_ephemeral_frame requested_id missed append_to_stream
    latest_sequence oldest_sequence replay_after of_stream max_sequence min_sequence entries
    sort_by_sequence insert_by_sequence get set delete is_resumed frames new_row trim
resume_run = refl

run-Numbered_example : Numbered left.log
run-Numbered_example = run-Numbered empty_hub start empty_hub-Numbered

resumed_client_misses_nothing_example :
    let h' = run (attach "c" (some "1") (some "0") left) after in
    (c : Client) × (get "c" h'.clients ≡ some c)
    × (sequenced_entries c.received ≡ drop 1 (ui_entries h'))
unfolding run broadcast attach deliver is_ephemeral_frame requested_id missed append_to_stream
    latest_sequence oldest_sequence replay_after of_stream max_sequence min_sequence entries
    sort_by_sequence insert_by_sequence get set delete is_resumed frames new_row trim
resumed_client_misses_nothing_example =
    resumed_client_misses_nothing left "c" (some "1") (some "0") 1 after
      (run-Numbered empty_hub start empty_hub-Numbered) refl (omega arith) (tt, (refl, tt))

-- ===== src/Events/Numbering.antt =====
-- The numbering of the streams over what happens to the hub (server/services/events.ts).
use velarix_bot.Prelude.{Bool, not, ◌||◌, List, [], ◌∷◌, get_or_else, inl, inr, Bool-cases}
use velarix_bot.Events.Log.{Payload, ui_stream_id}
use velarix_bot.Events.Hub.{
  Hub, Call, broadcasts, attaches, closes, breaks, logs_event, deletes_thread, step, run, broadcast,
  attach, is_ephemeral_frame,
}
use velarix_bot.Events.Stream.{Numbered, append-Numbered, delete-Numbered}

broadcast-Numbered :
    (log_ok : Bool) (payload : Payload) (h : Hub)
    → Numbered h.log
    → Numbered (broadcast log_ok payload h).log
unfolding broadcast
broadcast-Numbered log_ok payload h n =
    elim (Bool-cases (is_ephemeral_frame payload || not log_ok)) [
      | inl q ↦ rw (q, broadcast) n
      | inr q ↦
          rw (q, broadcast)
            (append-Numbered ui_stream_id (get_or_else payload.kind "unknown") payload h.log n)
    ]

pub step-Numbered : (h : Hub) (c : Call) → Numbered h.log → Numbered (step h c).log
unfolding step attach
step-Numbered h (broadcasts log_ok payload) n = broadcast-Numbered log_ok payload h n
step-Numbered h (attaches id header query) n = n
step-Numbered h (closes id) n = n
step-Numbered h (breaks id) n = n
step-Numbered h (logs_event thread_id name payload) n =
    append-Numbered thread_id name payload h.log n
step-Numbered h (deletes_thread thread_id) n = delete-Numbered thread_id h.log n

-- Whatever happens, the rows of every stream stay numbered from one on without a gap.
pub run-Numbered : (h : Hub) (cs : List Call) → Numbered h.log → Numbered (run h cs).log
unfolding run
run-Numbered h [] n = n
run-Numbered h (c ∷ cs) n = run-Numbered (step h c) cs (step-Numbered h c n)

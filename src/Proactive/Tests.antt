-- ===== src/Proactive/Tests.antt =====
-- The theorems on nudges at concrete inputs.
use velarix_bot.Prelude.{trim, ◌+◌, false, [], ◌∷◌, some, none, ◌≡◌, refl, true}
use velarix_bot.Prelude.Dict.{Dict, delete}
use velarix_bot.Proactive.{Stall, tick, note_state, routine_completed}
use velarix_bot.Proactive.Laws.{waiting, nudges_of, none_due, ticks, ticks-waiting}

abbrev stalled : Dict Stall
stalled =
    ("a", record { entered_at = 5; nudged = false })
    ∷ ("b", record { entered_at = 9; nudged = false })
    ∷ []

nudges :
    ((tick 10 16 stalled).1 ≡ "a" ∷ [])
    × ((ticks 10 (16 ∷ 18 ∷ 19 ∷ 20 ∷ []) stalled).1 ≡ "a" ∷ "b" ∷ [])
    × (note_state "a" "DONE" 20 stalled ≡ ("b", record { entered_at = 9; nudged = false }) ∷ [])
    × (routine_completed (some (record { bot_id = " a "; prompt = " " })) ≡ none)
unfolding tick ticks note_state delete routine_completed trim
nudges = (refl, refl, refl, refl)

ticks-waiting_example :
    let (stalls', bots) = ticks 10 (16 ∷ 18 ∷ []) stalled in
    (waiting "a" stalls' + nudges_of "a" bots ≡ waiting "a" stalled)
    × (none_due 10 (16 ∷ 18 ∷ []) stalls' ≡ true)
ticks-waiting_example = ticks-waiting 10 (16 ∷ 18 ∷ []) "a" stalled

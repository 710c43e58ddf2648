-- ===== src/Proactive.antt =====
-- Nudges of stalled bots, server/proactive.ts: since when each bot has stalled, and whether its user
-- was nudged. Calls of `onNudge` and `onTrigger` are results.
mod Laws
mod Tests
use velarix_bot.Prelude.{
  ℕ, ◌+◌, ◌*◌, String, Bool, true, false, not, List, [], ◌∷◌, ◌++◌, ◌&&◌, ◌||◌, Option, none, some,
  leb, ◌===◌, if◌then◌else◌, is_some, get_or_else, truthy, trim,
}
use velarix_bot.Prelude.Dict.{Dict, get, set, delete}

abbrev pub default_stall_ms : ℕ
default_stall_ms = 2 * 60 * 60 * 1000

pub record Stall : Type 0 where
  pub entered_at : ℕ
  pub nudged : Bool

pub record ThenStartTurn : Type 0 where
  pub bot_id : String
  pub prompt : String

is_stall : String → Bool
is_stall state = state === "NEEDS_INPUT" || state === "BLOCKED"

-- A bot that stalls again while it has stalled keeps the time at which it began.
pub note_state : String → String → ℕ → Dict Stall → Dict Stall
unfolding is_stall
note_state bot_id state now stalls =
    if is_stall state
    then (if is_some (get bot_id stalls)
        then stalls
        else set bot_id (record { entered_at = now; nudged = false }) stalls)
    else delete bot_id stalls

pub reset : String → Dict Stall → Dict Stall
reset bot_id stalls = delete bot_id stalls

abbrev pub is_due : ℕ → ℕ → Stall → Bool
is_due stall_ms now s = not s.nudged && leb (s.entered_at + stall_ms) now

-- The new stalls, and the bots that are nudged, in the order of the map.
pub tick : ℕ → ℕ → Dict Stall → Dict Stall × List String
tick stall_ms now [] = ([], [])
tick stall_ms now ((bot_id, s) ∷ stalls) =
    let (stalls', bots) = tick stall_ms now stalls in
    if is_due stall_ms now s
    then ((bot_id, record { entered_at = s.entered_at; nudged = true }) ∷ stalls', bot_id ∷ bots)
    else ((bot_id, s) ∷ stalls', bots)

-- The turn that is started, with its bot and its prompt.
pub routine_completed : Option ThenStartTurn → Option (String × String)
routine_completed none = none
routine_completed (some t) =
    if not (truthy (trim t.bot_id)) || not (truthy (trim t.prompt))
    then none
    else some (trim t.bot_id, trim t.prompt)

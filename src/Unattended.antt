-- ===== src/Unattended.antt =====
-- The unattended mark of a bot, server/unattended.ts: the time of the last sign of an unattended
-- turn. The clock and `isBusy` are arguments; times are milliseconds since a time in the past.
pub mod Laws
mod Tests
use velarix_bot.Prelude.{
  ℕ, ◌+◌, ◌*◌, ◌-◌, String, Bool, true, false, not, ◌&&◌, ◌||◌, Option, none, some, ltb, truthy,
  trim, if◌then◌else◌, get_or_else,
}
use velarix_bot.Prelude.Dict.{Dict, get, set, delete}

abbrev pub unattended_ttl_ms : ℕ
unattended_ttl_ms = 30 * 60000

unfoldable pub mark_unattended : String → ℕ → Dict ℕ → Dict ℕ
mark_unattended bot_id at marks =
    let id = trim bot_id in if truthy id then set id at marks else marks

unfoldable pub clear_unattended : String → Dict ℕ → Dict ℕ
clear_unattended bot_id marks = delete bot_id marks

-- An idle mark expires and is deleted; any other read of a mark refreshes it. `at - marked` of the
-- source is negative where the clock has gone back, and then it is not above the limit either.
unfoldable pub is_unattended : (String → Bool) → Option String → ℕ → Dict ℕ → Dict ℕ × Bool
is_unattended busy bot_id at marks =
    let id = get_or_else bot_id "" in
    if not (truthy id) then (marks, false) else elim (get id marks) [
      | none ↦ (marks, false)
      | some marked ↦
          if ltb unattended_ttl_ms (at - marked) && not (busy id)
          then (delete id marks, false)
          else (set id at marks, true)
    ]

-- The mark that a peer hop inherits.
unfoldable pub hop_unattended :
    (String → Bool) → Option String → Option Bool → ℕ → Dict ℕ → Dict ℕ × Bool
unfolding is_unattended
hop_unattended busy from_bot_id unattended at marks =
    if get_or_else unattended false then (marks, true) else is_unattended busy from_bot_id at marks

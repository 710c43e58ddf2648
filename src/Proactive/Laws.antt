-- ===== src/Proactive/Laws.antt =====
-- How often a bot that has stalled is nudged (server/proactive.ts).
use velarix_bot.Prelude.{
  ℕ, ◌+◌, ◌≤◌, String, true, false, List, [], ◌∷◌, ◌++◌, none, some, arith, ◌≡◌, refl, ◌∙◌,
  if◌then◌else◌, leb, ===_refl, ◌===◌, Bool, not, ◌&&◌, ◌||◌,
}
use velarix_bot.Prelude.Dict.{Dict, get, set, get-set}
use velarix_bot.Proactive.{Stall, is_due, tick, note_state}

-- How many stalls of the bot were not nudged: one or none, where the keys of the map are distinct.
unfoldable pub waiting : String → Dict Stall → ℕ
waiting id [] = 0
waiting id ((b, s) ∷ stalls) =
    (if b === id then (if s.nudged then 0 else 1) else 0) + waiting id stalls

-- How often the bot stands in a list of nudges.
unfoldable pub nudges_of : String → List String → ℕ
nudges_of id [] = 0
nudges_of id (b ∷ bots) = (if b === id then 1 else 0) + nudges_of id bots

-- Some stall was not nudged, and has lasted for the limit at the time `now`.
unfoldable pub any_due : ℕ → ℕ → Dict Stall → Bool
any_due stall_ms now [] = false
any_due stall_ms now ((b, s) ∷ stalls) = is_due stall_ms now s || any_due stall_ms now stalls

unfoldable pub none_due : ℕ → List ℕ → Dict Stall → Bool
none_due stall_ms [] stalls = true
none_due stall_ms (now ∷ times) stalls =
    not (any_due stall_ms now stalls) && none_due stall_ms times stalls

-- A number of ticks with nothing else between them, and all nudges.
unfoldable pub ticks : ℕ → List ℕ → Dict Stall → Dict Stall × List String
ticks stall_ms [] stalls = (stalls, [])
ticks stall_ms (now ∷ times) stalls =
    let (stalls', bots) = tick stall_ms now stalls in
    let (rest, more) = ticks stall_ms times stalls' in (rest, bots ++ more)

nudges_of-append :
    (id : String) (bots more : List String)
    → nudges_of id (bots ++ more) ≡ nudges_of id bots + nudges_of id more
unfolding nudges_of
nudges_of-append id [] more = omega arith
nudges_of-append id (b ∷ bots) more = ground (arith, nudges_of-append id bots more)

tick-waiting :
    (stall_ms now : ℕ) (id : String) (stalls : Dict Stall)
    → let (stalls', bots) = tick stall_ms now stalls in
      waiting id stalls' + nudges_of id bots ≡ waiting id stalls
unfolding tick waiting nudges_of
tick-waiting stall_ms now id [] = refl
tick-waiting stall_ms now id ((b, s) ∷ stalls) = ground (arith, tick-waiting stall_ms now id stalls)

tick-due :
    (stall_ms now : ℕ) (stalls : Dict Stall)
    → any_due stall_ms now (tick stall_ms now stalls).0 ≡ false
unfolding tick any_due
tick-due stall_ms now [] = refl
tick-due stall_ms now ((b, s) ∷ stalls) = ground (arith, tick-due stall_ms now stalls)

tick-keeps_undue :
    (stall_ms now other : ℕ) (stalls : Dict Stall)
    → any_due stall_ms other stalls ≡ false
    → any_due stall_ms other (tick stall_ms now stalls).0 ≡ false
unfolding tick any_due
tick-keeps_undue stall_ms now other [] h = refl
tick-keeps_undue stall_ms now other ((b, s) ∷ stalls) h =
    ground (arith, tick-keeps_undue stall_ms now other stalls)

ticks-keeps_undue :
    (stall_ms : ℕ) (times : List ℕ) (other : ℕ) (stalls : Dict Stall)
    → any_due stall_ms other stalls ≡ false
    → any_due stall_ms other (ticks stall_ms times stalls).0 ≡ false
unfolding ticks
ticks-keeps_undue stall_ms [] other stalls h = h
ticks-keeps_undue stall_ms (now ∷ times) other stalls h =
    ticks-keeps_undue stall_ms times other (tick stall_ms now stalls).0
      (tick-keeps_undue stall_ms now other stalls h)

-- Ticks at any times, with nothing else between them, nudge each bot as often as stalls of it go from
-- not nudged to nudged, so never twice for one stall; and when they are done no stall is left that was
-- not nudged and had lasted for the limit at one of those times.
pub ticks-waiting :
    (stall_ms : ℕ) (times : List ℕ) (id : String) (stalls : Dict Stall)
    → let (stalls', bots) = ticks stall_ms times stalls in
      (waiting id stalls' + nudges_of id bots ≡ waiting id stalls)
      × (none_due stall_ms times stalls' ≡ true)
unfolding ticks none_due waiting nudges_of
ticks-waiting stall_ms [] id stalls = (omega arith, refl)
ticks-waiting stall_ms (now ∷ times) id stalls =
    let (stalls', bots) = tick stall_ms now stalls in
    let (count, done) = ticks-waiting stall_ms times id stalls' in
    let more = (ticks stall_ms times stalls').1 in
    (
      omega (arith, tick-waiting stall_ms now id stalls, count, nudges_of-append id bots more),
      ground (
        arith,
        done,
        ticks-keeps_undue stall_ms times now stalls' (tick-due stall_ms now stalls),
      ),
    )

tick-get :
    (stall_ms now : ℕ) (id : String) (stalls : Dict Stall) (s : Stall)
    → get id stalls ≡ some s
    → get id (tick stall_ms now stalls).0
      ≡ some
          (if is_due stall_ms now s then record { entered_at = s.entered_at; nudged = true } else s)
unfolding tick get
tick-get stall_ms now id [] s e = absurd (ground arith)
tick-get stall_ms now id ((b, t) ∷ stalls) s e =
    ground (arith, e, tick-get stall_ms now id stalls s)

-- A bot that stalls, and stalls again in whatever way before it is answered, is nudged by the first
-- tick at which it has stalled for the limit since the first time, if it was not stalled before.
note_state-tick :
    (stall_ms now again later : ℕ) (id : String) (stalls : Dict Stall)
    → get id stalls ≡ none
    → now + stall_ms ≤ later
    → let first = note_state id "BLOCKED" now stalls in
      let second = note_state id "NEEDS_INPUT" again first in
      get id (tick stall_ms later second).0 ≡ some (record { entered_at = now; nudged = true })
unfolding note_state
note_state-tick stall_ms now again later id stalls e h =
    let fresh : Stall = record { entered_at = now; nudged = false } in
    let noted : Dict Stall = set id fresh stalls in
    let stored : get id noted ≡ some fresh =
      rw (get-set id id fresh stalls) (rw (===_refl id) refl) in
    let due : leb (now + stall_ms) later ≡ true = ground arith in
    rw e (rw stored (tick-get stall_ms later id noted fresh stored ∙ rw due refl))

-- ===== src/LaneKeys/Tests.antt =====
-- Runs of the key repository, and the theorems at concrete inputs.
use velarix_bot.Prelude.{[], ◌∷◌, none, true, false, ◌≡◌, refl, trim, utf16_length}
use velarix_bot.LaneKeys.{
  ClaimLaneKeyInput, Table, user, background, done, claim, claimed, select, raw_of, to_row,
  set_status, list_for_bot,
}
use velarix_bot.LaneKeys.Laws.{fresh_row, claim_once}

abbrev fire_9 : ClaimLaneKeyInput
fire_9 = record {
  key = " routine:9 ";
  work_id = "w1";
  lane = background;
  bot_id = "b1";
  created_at = 5;
}

abbrev retry_9 : ClaimLaneKeyInput
retry_9 = record { key = "routine:9"; work_id = "w2"; lane = user; bot_id = "b1"; created_at = 8 }

abbrev held : Table
held =
    record {
      key = "routine:9";
      work_id = "w1";
      lane = "background";
      bot_id = "b1";
      created_at = 5;
      status = "queued";
    }
    ∷ []

claim_run : claim fire_9 none [] ≡ (held, claimed (fresh_row fire_9) true)
unfolding claim select raw_of to_row trim utf16_length
claim_run = refl

list_run :
    list_for_bot "b1" (set_status "routine:9" done held).0
    ≡ record (fresh_row fire_9) { status = done } ∷ []
unfolding list_for_bot set_status to_row trim
list_run = refl

claim_once_example :
    let (rows', result) = claim fire_9 none [] in
    (result ≡ claimed (fresh_row fire_9) true)
    × (claim retry_9 none rows' ≡ (rows', claimed (fresh_row fire_9) false))
unfolding select trim utf16_length
claim_once_example = claim_once fire_9 retry_9 none [] (refl, refl) refl refl

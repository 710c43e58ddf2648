-- ===== src/Lanes/Dedupe.antt =====
-- A retried call starts no second turn (`enqueue` of server/services/lanes.ts).
use velarix_bot.Prelude.{ℕ, String, Bool, true, false, Option, some, ◌≡◌, refl, truthy, trim}
use velarix_bot.LaneKeys.{SchedulerLane, Table, RawRow, LaneIdempotencyRow, to_row, claimed, select}
use velarix_bot.LaneKeys.Laws.{IsKey, claim_held}
use velarix_bot.Lanes.State.{Sched}
use velarix_bot.Lanes.Calls.{
  LaneEnqueueInput, duplicate, enqueue, enqueue_in, claim_key, key_of, queue_claimed,
}

claim_key-held :
    (key work_id : String) (lane : SchedulerLane) (bot_id : String) (at : ℕ) (raced : Option Table)
    (keys : Table) (raw : RawRow) (row : LaneIdempotencyRow)
    → IsKey key
    → select (trim key) keys ≡ some raw
    → to_row raw ≡ some row
    → claim_key key work_id lane bot_id at raced keys ≡ (keys, claimed row false)
unfolding claim_key
claim_key-held key work_id lane bot_id at raced keys raw row k held stored =
    claim_held
      (record { key = key; work_id = work_id; lane = lane; bot_id = bot_id; created_at = at }) raced
      keys raw row k held stored

-- A call whose key is held by a row gets that row back, and neither queues nor starts anything: the
-- scheduler is as it was.
pub enqueue_duplicate :
    (busy : ℕ → String → Bool) (raced : Option Table) (work_id : String) (at : ℕ)
    (input : LaneEnqueueInput) (lane : SchedulerLane) (s : Sched) (raw : RawRow)
    (row : LaneIdempotencyRow)
    → truthy (trim input.bot_id) ≡ true
    → input.lane ≡ some lane
    → truthy (key_of input) ≡ true
    → IsKey (key_of input)
    → select (trim (key_of input)) s.keys ≡ some raw
    → to_row raw ≡ some row
    → enqueue busy raced work_id at input s ≡ (s, duplicate row)
unfolding enqueue enqueue_in queue_claimed
enqueue_duplicate busy raced work_id at input lane s raw row b l t k held stored =
    rw (b, l, enqueue)
      (rw
        (
          t,
          claim_key-held (key_of input) work_id lane (trim input.bot_id) at raced s.keys raw row k
              held stored,
          enqueue_in,
        )
        refl)

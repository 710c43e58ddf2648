-- ===== src/LaneKeys.antt =====
-- The durable idempotency keys of the lane scheduler, server/repositories/lanes.ts, and the lanes.
-- The table lane_idempotency is the list of its rows, of which the primary key is the text `key`.
pub mod Laws
mod Tests
use Prim.Native.Nat.{compare as compare_ℕ, Ordering}
use Prim.Native.String.{compare}
use velarix_bot.Prelude.{
  ℕ, String, Bool, true, false, not, List, [], ◌∷◌, ◌++◌, ◌||◌, Option, none, some, ltb, ◌==◌,
  ◌===◌, if◌then◌else◌, find_first, keep, any, truthy, trim, utf16_length,
}

pub data SchedulerLane : Type 0 where
  user channel agent background : SchedulerLane

pub data LaneKeyStatus : Type 0 where
  queued running cancelled done : LaneKeyStatus

pub record LaneIdempotencyRow : Type 0 where
  pub key : String
  pub work_id : String
  pub lane : SchedulerLane
  pub bot_id : String
  pub created_at : ℕ
  pub status : LaneKeyStatus

pub record ClaimLaneKeyInput : Type 0 where
  pub key : String
  pub work_id : String
  pub lane : SchedulerLane
  pub bot_id : String
  pub created_at : ℕ

-- A row as the database holds it.
pub record RawRow : Type 0 where
  pub key : String
  pub work_id : String
  pub lane : String
  pub bot_id : String
  pub created_at : ℕ
  pub status : String

abbrev pub Table : Type 0
Table = List RawRow

-- `isLane` and `isStatus`, with the value that the text stands for.
unfoldable pub lane_of : String → Option SchedulerLane
lane_of s =
    if s === "user"
    then some user
    else if s === "channel"
    then some channel
    else if s === "agent"
    then some agent
    else if s === "background"
    then some background
    else none

unfoldable pub status_of : String → Option LaneKeyStatus
status_of s =
    if s === "queued"
    then some queued
    else if s === "running"
    then some running
    else if s === "cancelled"
    then some cancelled
    else if s === "done"
    then some done
    else none

abbrev pub lane_text : SchedulerLane → String
lane_text user = "user"
lane_text channel = "channel"
lane_text agent = "agent"
lane_text background = "background"

abbrev pub status_text : LaneKeyStatus → String
status_text queued = "queued"
status_text running = "running"
status_text cancelled = "cancelled"
status_text done = "done"

abbrev pub row_of : RawRow → Option SchedulerLane → Option LaneKeyStatus → Option LaneIdempotencyRow
row_of r none status = none
row_of r (some lane) none = none
row_of r (some lane) (some status) = some (record {
  key = r.key;
  work_id = r.work_id;
  lane = lane;
  bot_id = r.bot_id;
  created_at = r.created_at;
  status = status;
})

unfoldable pub to_row : RawRow → Option LaneIdempotencyRow
unfolding lane_of status_of
to_row r = row_of r (lane_of r.lane) (status_of r.status)

unfoldable pub select : String → Table → Option RawRow
select key rows = find_first (λ (r : RawRow). r.key === key) rows

pub raw_of : String → ClaimLaneKeyInput → RawRow
raw_of key input = record {
  key = key;
  work_id = input.work_id;
  lane = lane_text input.lane;
  bot_id = input.bot_id;
  created_at = input.created_at;
  status = "queued";
}

pub data ClaimError : Type 0 where
  key_required row_corrupt insert_failed database_error : ClaimError

pub data Claim : Type 0 where
  claimed : LaneIdempotencyRow → Bool → Claim
  claim_error : ClaimError → Claim

existing_claim : RawRow → Claim
existing_claim raw = elim (to_row raw) [
  | none ↦ claim_error row_corrupt
  | some row ↦ claimed row false
]

created_claim : Option RawRow → Claim
created_claim none = claim_error insert_failed
created_claim (some raw) = elim (to_row raw) [
  | none ↦ claim_error insert_failed
  | some row ↦ claimed row true
]

-- `insert.run` and what follows. `raced` is none where the insert goes through; else it throws, and
-- `raced` is the table that another writer has left.
insert_claim : String → ClaimLaneKeyInput → Option Table → Table → Table × Claim
unfolding raw_of existing_claim created_claim
insert_claim key input none rows =
    let rows' = rows ++ raw_of key input ∷ [] in (rows', created_claim (select key rows'))
insert_claim key input (some rows') rows = elim (select key rows') [
  | none ↦ (rows', claim_error database_error)
  | some raw ↦ (rows', existing_claim raw)
]

unfoldable pub claim : ClaimLaneKeyInput → Option Table → Table → Table × Claim
unfolding insert_claim
claim input raced rows =
    let key = trim input.key in
    if not (truthy key) || ltb 512 (utf16_length key)
    then (rows, claim_error key_required)
    else elim (select key rows) [
      | some raw ↦ (rows, existing_claim raw)
      | none ↦ insert_claim key input raced rows
    ]

pub read_row : Option RawRow → Option LaneIdempotencyRow
read_row none = none
read_row (some raw) = to_row raw

pub get_key : String → Table → Option LaneIdempotencyRow
get_key key rows = read_row (select (trim key) rows)

set_where : String → LaneKeyStatus → Table → Table
set_where key status [] = []
set_where key status (r ∷ rows) =
    (if r.key === key then record r { status = status_text status } else r)
    ∷ set_where key status rows

-- The new table, and whether a row changed.
pub set_status : String → LaneKeyStatus → Table → Table × Bool
unfolding set_where
set_status key status rows =
    (set_where (trim key) status rows, any (λ (r : RawRow). r.key === trim key) rows)

-- `ORDER BY created_at, key`: the texts are compared by their bytes.
before : RawRow → RawRow → Bool
before a b = elim (compare_ℕ a.created_at b.created_at) [
  | Ordering.lt ↦ true
  | Ordering.gt ↦ false
  | Ordering.eq ↦ elim (compare a.key b.key) [ Ordering.gt ↦ false | _ ↦ true ]
]

insert_ordered : RawRow → Table → Table
insert_ordered r [] = r ∷ []
insert_ordered r (s ∷ rows) = if before r s then r ∷ s ∷ rows else s ∷ insert_ordered r rows

order : Table → Table
order [] = []
order (r ∷ rows) = insert_ordered r (order rows)

rows_of : Table → List LaneIdempotencyRow
rows_of [] = []
rows_of (r ∷ rows) = elim (to_row r) [ none ↦ rows_of rows | some row ↦ row ∷ rows_of rows ]

pub list_for_bot : String → Table → List LaneIdempotencyRow
unfolding before insert_ordered order rows_of
list_for_bot bot_id rows = rows_of (order (keep (λ r. r.bot_id === bot_id) rows))

pub delete_for_bot : String → Table → Table
delete_for_bot bot_id rows = keep (λ r. not (r.bot_id === bot_id)) rows

-- ===== src/LaneKeys/Laws.antt =====
-- One key maps to one work id (server/repositories/lanes.ts).
use velarix_bot.Prelude.{
  String, Bool, subst, sym, ap, ◌∙◌, true, false, [], ◌∷◌, ◌++◌, Option, none, some, ◌===◌, ===_iff,
  if◌then◌else◌, keep, arith, ◌≡◌, ◌≢◌, refl, trim, truthy, utf16_length, ltb,
}
use velarix_bot.LaneKeys.{
  SchedulerLane, LaneKeyStatus, LaneIdempotencyRow, ClaimLaneKeyInput, RawRow, Table, lane_of,
  row_of, read_row, status_of, user, channel, agent, background, queued, running, cancelled, done,
  lane_text, status_text, to_row, select, raw_of, existing_claim, created_claim, claimed, claim,
  get_key, set_status, set_where, list_for_bot, delete_for_bot,
}

lane_of-lane_text : (l : SchedulerLane) → lane_of (lane_text l) ≡ some l
unfolding lane_of
lane_of-lane_text user = refl
lane_of-lane_text channel = refl
lane_of-lane_text agent = refl
lane_of-lane_text background = refl

status_of-status_text : (s : LaneKeyStatus) → status_of (status_text s) ≡ some s
unfolding status_of
status_of-status_text queued = refl
status_of-status_text running = refl
status_of-status_text cancelled = refl
status_of-status_text done = refl

-- The row that a fresh claim stores.
abbrev pub fresh_row : ClaimLaneKeyInput → LaneIdempotencyRow
fresh_row input = record {
  key = trim input.key;
  work_id = input.work_id;
  lane = input.lane;
  bot_id = input.bot_id;
  created_at = input.created_at;
  status = queued;
}

to_row-raw_of :
    (input : ClaimLaneKeyInput) → to_row (raw_of (trim input.key) input) ≡ some (fresh_row input)
unfolding to_row raw_of
to_row-raw_of input = grind (arith, lane_of-lane_text)

select_append :
    (key : String) (rows : Table) (r : RawRow)
    → select key rows ≡ none
    → r.key ≡ key
    → select key (rows ++ r ∷ []) ≡ some r
unfolding select
select_append key [] r e k = ground (arith, ===_iff r.key key)
select_append key (s ∷ rows) r e k = ground (arith, select_append key rows r)

abbrev pub IsKey : String → Type 0
IsKey key = (truthy (trim key) ≡ true) × (ltb 512 (utf16_length (trim key)) ≡ false)

pub claim_fresh :
    (input : ClaimLaneKeyInput) (rows : Table)
    → IsKey input.key
    → select (trim input.key) rows ≡ none
    → claim input none rows
      ≡ (rows ++ raw_of (trim input.key) input ∷ [], claimed (fresh_row input) true)
unfolding claim
claim_fresh input rows k e =
    rw (k.0, k.1, e)
      (rw
        (select_append (trim input.key) rows (raw_of (trim input.key) input) e
          (unfold raw_of in refl))
        (rw (to_row-raw_of input, created_claim)))

pub claim_held :
    (input : ClaimLaneKeyInput) (raced : Option Table) (rows : Table) (raw : RawRow)
    (row : LaneIdempotencyRow)
    → IsKey input.key
    → select (trim input.key) rows ≡ some raw
    → to_row raw ≡ some row
    → claim input raced rows ≡ (rows, claimed row false)
unfolding claim
claim_held input raced rows raw row k e r = rw (k.0, k.1, e) (rw (r, existing_claim))

-- A claim on a key that no row holds, with no other writer, stores the row with status queued and
-- says that it was created; a claim on the same key after that, by whatever work, gets the first
-- row, is not created, and stores nothing.
pub claim_once :
    (first second : ClaimLaneKeyInput) (raced : Option Table) (rows : Table)
    → IsKey first.key
    → trim second.key ≡ trim first.key
    → select (trim first.key) rows ≡ none
    → let (rows', result) = claim first none rows in
      (result ≡ claimed (fresh_row first) true)
      × (claim second raced rows' ≡ (rows', claimed (fresh_row first) false))
claim_once first second raced rows k same e = rw (claim_fresh first rows k e) (
  refl,
  claim_held second raced _ (raw_of (trim first.key) first) (fresh_row first) (rw same k)
      (rw same (select_append (trim first.key) rows _ e (unfold raw_of in refl)))
      (to_row-raw_of first),
)

-- Two rows never have one key.
abbrev pub IsUnique : Table → Type 0
IsUnique [] = Unit
IsUnique (r ∷ rows) = (select r.key rows ≡ none) × IsUnique rows

select-append_ne :
    (key : String) (rows : Table) (r : RawRow)
    → select key rows ≡ none
    → r.key ≢ key
    → select key (rows ++ r ∷ []) ≡ none
unfolding select
select-append_ne key [] r e n = ground (arith, ===_iff r.key key)
select-append_ne key (s ∷ rows) r e n = ground (arith, select-append_ne key rows r)

append-IsUnique :
    (rows : Table) (r : RawRow)
    → IsUnique rows
    → select r.key rows ≡ none
    → IsUnique (rows ++ r ∷ [])
unfolding select
append-IsUnique [] r u e = (refl, tt)
append-IsUnique (s ∷ rows) r u e =
    ground
      (arith, append-IsUnique rows r u.1, select-append_ne s.key rows r u.0, ===_iff s.key r.key)

-- A claim that no other writer races keeps the primary key: no two rows have one key.
claim-IsUnique :
    (input : ClaimLaneKeyInput) (rows : Table) → IsUnique rows → IsUnique (claim input none rows).0
unfolding claim raw_of
claim-IsUnique input rows u = ground (arith, append-IsUnique rows (raw_of (trim input.key) input) u)

-- A row, if there is one, once its status is set.
pub with_status : Bool → LaneKeyStatus → Option RawRow → Option RawRow
with_status same status none = none
with_status same status (some r) =
    some (if same then record r { status = status_text status } else r)

select-set_where :
    (key j : String) (status : LaneKeyStatus) (rows : Table)
    → select j (set_where key status rows) ≡ with_status (key === j) status (select j rows)
unfolding select set_where with_status
select-set_where key j status [] = refl
select-set_where key j status (r ∷ rows) =
    ground
      (arith, ===_iff r.key j, ===_iff r.key key, ===_iff key j, select-set_where key j status rows)

row_of-set :
    (r : RawRow) (lane : Option SchedulerLane) (old : Option LaneKeyStatus) (status : LaneKeyStatus)
    → let r' : RawRow = record r { status = status_text status } in
      row_of r' lane (some status) ≡ elim (row_of r lane old) [
        | none ↦ row_of r' lane (some status)
        | some row ↦ some (record row { status = status })
      ]
row_of-set r none old status = refl
row_of-set r (some lane) none status = refl
row_of-set r (some lane) (some old) status = refl

to_row-set :
    (r : RawRow) (status : LaneKeyStatus)
    → let r' : RawRow = record r { status = status_text status } in
      to_row r'
      ≡ elim (to_row r) [ none ↦ to_row r' | some row ↦ some (record row { status = status }) ]
unfolding to_row
to_row-set r status =
    let r' : RawRow = record r { status = status_text status } in
    subst
      (λ o. row_of r' (lane_of r.lane) o ≡ elim (row_of r (lane_of r.lane) (status_of r.status)) [
        | none ↦ row_of r' (lane_of r.lane) o
        | some row ↦ some (record row { status = status })
      ])
      (sym (status_of-status_text status))
      (row_of-set r (lane_of r.lane) (status_of r.status) status)

read_row-with_status :
    (same : Bool) (o : Option RawRow) (status : LaneKeyStatus)
    → read_row (with_status same status o) ≡ (
        if same
        then elim (read_row o) [
          | none ↦ read_row (with_status true status o)
          | some row ↦ some (record row { status = status })
        ]
        else read_row o)
unfolding read_row with_status
read_row-with_status true none status = refl
read_row-with_status true (some r) status = to_row-set r status
read_row-with_status false none status = refl
read_row-with_status false (some r) status = refl

-- After `setStatus` a row of that key reads the new status and keeps the rest, also a row whose
-- stored status was no status; a key with no row still has none, and every other key reads as before.
set_status-get :
    (key j : String) (status : LaneKeyStatus) (rows : Table)
    → get_key j (set_status key status rows).0 ≡ (
        if trim key === trim j
        then elim (get_key j rows) [
          | none ↦ read_row (with_status true status (select (trim j) rows))
          | some row ↦ some (record row { status = status })
        ]
        else get_key j rows)
unfolding get_key set_status read_row with_status
set_status-get key j status rows =
    ap read_row (select-set_where (trim key) (trim j) status rows)
    ∙ read_row-with_status (trim key === trim j) (select (trim j) rows) status

keep_none :
    (bot_id : String) (rows : Table)
    → keep (λ r. r.bot_id === bot_id) (delete_for_bot bot_id rows) ≡ []
unfolding delete_for_bot
keep_none bot_id [] = refl
keep_none bot_id (r ∷ rows) = ground (arith, keep_none bot_id rows)

keep_other :
    (bot_id other : String) (rows : Table)
    → other ≢ bot_id
    → keep (λ r. r.bot_id === other) (delete_for_bot bot_id rows)
      ≡ keep (λ r. r.bot_id === other) rows
unfolding delete_for_bot
keep_other bot_id other [] n = refl
keep_other bot_id other (r ∷ rows) n =
    ground (arith, ===_iff r.bot_id bot_id, ===_iff r.bot_id other, keep_other bot_id other rows n)

-- Deleting the keys of a bot leaves none of them, and those of every other bot as they were.
list_for_bot-delete_for_bot :
    (bot_id other : String) (rows : Table)
    → other ≢ bot_id
    → (list_for_bot bot_id (delete_for_bot bot_id rows) ≡ [])
      × (list_for_bot other (delete_for_bot bot_id rows) ≡ list_for_bot other rows)
unfolding list_for_bot
list_for_bot-delete_for_bot bot_id other rows n = (
  rw (keep_none bot_id rows, list_for_bot) refl,
  rw (keep_other bot_id other rows n, list_for_bot) refl,
)

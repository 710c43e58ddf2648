-- ===== src/Lanes/Opts.antt =====
-- The options of a turn as they pass a lane: `requestIdOf`, `turnOptsForLane` and
-- `splitLaneTurnOpts` of server/services/lanes.ts. An option that is not given is none.
use velarix_bot.Prelude.{
  ℕ, String, Bool, true, List, Option, none, some, ◌≡◌, refl, arith, is_some, ◌||◌, if◌then◌else◌,
  truthy, trim, get_or_else,
}
use velarix_bot.LaneKeys.{SchedulerLane, user, channel, agent, background}

pub record LaneTurnOpts : Type 0 where
  pub comms_depth : Option ℕ
  pub attachments : Option (List (String × Option String))
  pub visited : Option (List String)
  pub group_thread_id : Option String
  pub extra_skill_ids : Option (List String)
  pub unattended : Option Bool
  pub system_note : Option String
  pub autonomy_continue : Option Bool
  pub idempotency_key : Option String
  pub request_id : Option String

-- `{}`.
abbrev pub no_opts : LaneTurnOpts
no_opts = record {
  comms_depth = none;
  attachments = none;
  visited = none;
  group_thread_id = none;
  extra_skill_ids = none;
  unattended = none;
  system_note = none;
  autonomy_continue = none;
  idempotency_key = none;
  request_id = none;
}

-- `Object.keys(opts).length` is not 0.
pub has_keys : LaneTurnOpts → Bool
has_keys o =
    is_some o.comms_depth
    || is_some o.attachments
    || is_some o.visited
    || is_some o.group_thread_id
    || is_some o.extra_skill_ids
    || is_some o.unattended
    || is_some o.system_note
    || is_some o.autonomy_continue
    || is_some o.idempotency_key
    || is_some o.request_id

abbrev pub when_has_keys : LaneTurnOpts → Option LaneTurnOpts
when_has_keys o = if has_keys o then some o else none

-- The trimmed text, if it is given and not blank.
abbrev pub present : Option String → Option String
present s = let id = trim (get_or_else s "") in if truthy id then some id else none

pub request_id_of : Option LaneTurnOpts → Option String
request_id_of none = none
request_id_of (some o) = present o.request_id

for_lane : SchedulerLane → Option LaneTurnOpts → Option LaneTurnOpts
for_lane channel base = some (record (get_or_else base no_opts) { unattended = some true })
for_lane user none = none
for_lane user (some base) = when_has_keys (record base { unattended = none })
for_lane agent base = base
for_lane background base = base

pub turn_opts_for_lane : SchedulerLane → Option LaneTurnOpts → Option LaneTurnOpts
unfolding has_keys for_lane
turn_opts_for_lane lane opts =
    for_lane lane (when_has_keys (record (get_or_else opts no_opts) { idempotency_key = none }))

-- The options without the key, and the key.
pub split_lane_turn_opts : Option LaneTurnOpts → Option LaneTurnOpts × Option String
split_lane_turn_opts none = (none, none)
split_lane_turn_opts (some opts) =
    (some (record opts { idempotency_key = none }), present opts.idempotency_key)

-- What a turn finds under an option, where the options themselves may be left out.
abbrev pub read {ℓ} : {A : Type ℓ} → (LaneTurnOpts → Option A) → Option LaneTurnOpts → Option A
read field none = none
read field (some o) = field o

-- A channel turn always carries the unattended mark and a user turn never does, whatever the caller
-- asked for; an agent or background turn keeps what the caller gave.
turn_opts_for_lane-unattended :
    (lane : SchedulerLane) (opts : Option LaneTurnOpts)
    → read (λ o. o.unattended) (turn_opts_for_lane lane opts) ≡ elim lane [
      | channel ↦ some true
      | user ↦ none
      | agent ↦ read (λ o. o.unattended) opts
      | background ↦ read (λ o. o.unattended) opts
    ]
unfolding turn_opts_for_lane
turn_opts_for_lane-unattended user none = refl
turn_opts_for_lane-unattended channel none = refl
turn_opts_for_lane-unattended agent none = refl
turn_opts_for_lane-unattended background none = refl
turn_opts_for_lane-unattended user (some o) = ground arith
turn_opts_for_lane-unattended channel (some o) = ground arith
turn_opts_for_lane-unattended agent (some o) = ground arith
turn_opts_for_lane-unattended background (some o) = ground arith

-- The scheduler's key never reaches the turn, and every lane passes on the depth, the visited bots,
-- the group thread and the request id that the caller gave.
turn_opts_for_lane-passes :
    (lane : SchedulerLane) (opts : Option LaneTurnOpts)
    → let turn = turn_opts_for_lane lane opts in
      (read (λ o. o.idempotency_key) turn ≡ none)
      × (read (λ o. o.comms_depth) turn ≡ read (λ o. o.comms_depth) opts)
      × (read (λ o. o.visited) turn ≡ read (λ o. o.visited) opts)
      × (read (λ o. o.group_thread_id) turn ≡ read (λ o. o.group_thread_id) opts)
      × (read (λ o. o.request_id) turn ≡ read (λ o. o.request_id) opts)
unfolding turn_opts_for_lane
turn_opts_for_lane-passes user none = (refl, refl, refl, refl, refl)
turn_opts_for_lane-passes channel none = (refl, refl, refl, refl, refl)
turn_opts_for_lane-passes agent none = (refl, refl, refl, refl, refl)
turn_opts_for_lane-passes background none = (refl, refl, refl, refl, refl)
turn_opts_for_lane-passes user (some o) = ground arith
turn_opts_for_lane-passes channel (some o) = ground arith
turn_opts_for_lane-passes agent (some o) = ground arith
turn_opts_for_lane-passes background (some o) = ground arith

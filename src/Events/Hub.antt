-- ===== src/Events/Hub.antt =====
-- The hub (server/services/events.ts): clients, broadcasts, and a client that comes back with the id of
-- the last frame it has seen. A client is known by a name; `broken` says that its `write` throws.
use Prim.Native.Char.{code}
use velarix_bot.Prelude.{
  ℕ, ◌+◌, ◌-◌, ◌*◌, String, Bool, true, false, not, List, [], ◌∷◌, ◌++◌, Option, none, some, leb,
  ◌==◌, ◌===◌, ◌&&◌, ◌||◌, if◌then◌else◌, get_or_else, truthy, trim,
}
use velarix_bot.Prelude.Dict.{Dict, get, set, delete}
use velarix_bot.Events.Log.{
  Payload, EventRow, StreamEntry, ui_stream_id, latest_sequence, oldest_sequence, new_row,
  append_to_stream, replay_after, delete_thread_events,
}

-- A frame as it is written: with an id, without one, or the greeting.
pub data Frame : Type 0 where
  sequenced : StreamEntry → Frame
  plain : Payload → Frame
  hello : ℕ → Bool → Frame

pub record Client : Type 0 where
  pub broken : Bool
  pub received : List Frame

pub record Hub : Type 0 where
  pub log : List EventRow
  pub clients : Dict Client

abbrev same_text : Option String → String → Bool
same_text none t = false
same_text (some s) t = s === t

unfoldable pub is_ephemeral_frame : Payload → Bool
is_ephemeral_frame frame =
    if same_text frame.kind "screen"
    then true
    else same_text frame.kind "runtime" && same_text frame.event_type "content.delta"

abbrev pub add_frame : Frame → Client → Client
add_frame frame c = record c { received = c.received ++ frame ∷ [] }

-- The frame goes to each client; one whose write throws is dropped.
unfoldable pub deliver : Frame → Dict Client → Dict Client
deliver frame [] = []
deliver frame ((id, c) ∷ m) =
    let rest = deliver frame m in if c.broken then rest else (id, add_frame frame c) ∷ rest

abbrev pub entry_of : EventRow → Payload → Frame
entry_of r payload = elim r.stored [
  | none ↦ plain payload
  | some stamped ↦ sequenced (record { sequence = r.sequence; payload = stamped })
]

-- `log_ok` says that the write to the log succeeds.
unfoldable pub broadcast : Bool → Payload → Hub → Hub
broadcast log_ok payload h =
    let name = get_or_else payload.kind "unknown" in
    if is_ephemeral_frame payload || not log_ok
    then record h { clients = deliver (plain payload) h.clients }
    else record {
      log = append_to_stream ui_stream_id name payload h.log;
      clients = deliver (entry_of (new_row ui_stream_id name payload h.log) payload) h.clients;
    }

-- `/^\d+$/` and `Number.parseInt`.
abbrev is_digit : ℕ → Bool
is_digit c = leb 48 c && leb c 57

unfoldable pub digits_value : ℕ → String → Option ℕ
digits_value acc String.[] = some acc
digits_value acc (String.◌∷◌ c s) =
    let rest = digits_value (acc * 10 + (code c - 48)) s in if is_digit (code c) then rest else none

unfoldable pub parse_id : String → Option ℕ
unfolding digits_value
parse_id raw = let s = trim raw in if truthy s then digits_value 0 s else none

-- The header wins over the query.
unfoldable pub requested_id : Option String → Option String → Option ℕ
unfolding parse_id
requested_id (some header) query = parse_id header
requested_id none (some query) = parse_id query
requested_id none none = none

unfoldable pub is_resumed : Option ℕ → ℕ → ℕ → Bool
is_resumed none latest oldest = false
is_resumed (some requested) latest oldest =
    leb requested latest && (latest == 0 || leb oldest (requested + 1))

unfoldable pub frames : List StreamEntry → List Frame
frames [] = []
frames (e ∷ es) = sequenced e ∷ frames es

unfoldable pub missed : Option ℕ → List EventRow → List Frame
missed requested log =
    let resumed =
      is_resumed requested (latest_sequence ui_stream_id log) (oldest_sequence ui_stream_id log) in
    if resumed then frames (replay_after ui_stream_id (get_or_else requested 0) log) else []

unfoldable pub attach : String → Option String → Option String → Hub → Hub
attach id header query h =
    let requested = requested_id header query in
    let latest = latest_sequence ui_stream_id h.log in
    let greeting =
      hello latest (is_resumed requested latest (oldest_sequence ui_stream_id h.log)) in
    record h {
      clients =
          set id (record { broken = false; received = greeting ∷ missed requested h.log })
            h.clients;
    }

-- What happens to the hub and to the log under it.
pub data Call : Type 0 where
  broadcasts : Bool → Payload → Call
  attaches : String → Option String → Option String → Call
  closes : String → Call
  breaks : String → Call
  logs_event : String → String → Payload → Call
  deletes_thread : String → Call

abbrev pub broken_client : String → Dict Client → Dict Client
broken_client id m = elim (get id m) [ none ↦ m | some c ↦ set id (record c { broken = true }) m ]

unfoldable pub step : Hub → Call → Hub
unfolding broadcast attach append_to_stream delete_thread_events
step h (broadcasts log_ok payload) = broadcast log_ok payload h
step h (attaches id header query) = attach id header query h
step h (closes id) = record h { clients = delete id h.clients }
step h (breaks id) = record h { clients = broken_client id h.clients }
step h (logs_event thread_id type_name payload) = record h {
  log = append_to_stream thread_id type_name payload h.log;
}
step h (deletes_thread thread_id) = record h { log = delete_thread_events thread_id h.log }

unfoldable pub run : Hub → List Call → Hub
unfolding step
run h [] = h
run h (c ∷ cs) = run (step h c) cs

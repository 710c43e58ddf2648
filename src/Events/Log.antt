-- ===== src/Events/Log.antt =====
-- The event log (server/repositories/event-log.ts). A row holds its payload, or none where the stored
-- text does not parse; rows stand in the order of their primary key. Ids and times of creation, which
-- nothing here reads, are left out.
use velarix_bot.Prelude.{
  ℕ, ◌+◌, String, not, List, [], ◌∷◌, ◌++◌, Option, none, some, ltb, leb, ◌===◌, if◌then◌else◌,
  keep, length,
}

-- What a frame carries: its `kind`, the `type` of its event, and the rest.
pub record Payload : Type 0 where
  pub kind : Option String
  pub event_type : Option String
  pub body : String

-- A payload with `schemaVersion`, `streamId` and `sequence`.
pub record Stamped : Type 0 where
  pub payload : Payload
  pub schema_version : ℕ
  pub stream_id : String
  pub sequence : ℕ

pub record EventRow : Type 0 where
  pub thread_id : String
  pub type_name : String
  pub stored : Option Stamped
  pub stream_id : String
  pub sequence : ℕ

pub record StreamEntry : Type 0 where
  pub sequence : ℕ
  pub payload : Stamped

abbrev pub ui_stream_id : String
ui_stream_id = "ui"

abbrev pub event_schema_version : ℕ
event_schema_version = 1

-- `WHERE stream_id = ?`.
unfoldable pub of_stream : String → List EventRow → List EventRow
of_stream s rows = keep (λ r. r.stream_id === s) rows

abbrev larger : ℕ → ℕ → ℕ
larger a b = if leb a b then b else a

-- `COALESCE(MAX(sequence), 0)`.
unfoldable pub max_sequence : List EventRow → ℕ
max_sequence [] = 0
max_sequence (r ∷ rs) = larger r.sequence (max_sequence rs)

-- `COALESCE(MIN(sequence), 0)`.
unfoldable pub min_sequence : List EventRow → ℕ
min_sequence [] = 0
min_sequence (r ∷ []) = r.sequence
min_sequence (r ∷ s ∷ rs) =
    let rest = min_sequence (s ∷ rs) in if leb r.sequence rest then r.sequence else rest

unfoldable pub latest_sequence : String → List EventRow → ℕ
latest_sequence s rows = max_sequence (of_stream s rows)

unfoldable pub oldest_sequence : String → List EventRow → ℕ
oldest_sequence s rows = min_sequence (of_stream s rows)

-- `appendRow`, with the stamp: the row that is inserted.
unfoldable pub new_row : String → String → Payload → List EventRow → EventRow
unfolding latest_sequence
new_row stream_id type_name payload rows =
    let next = latest_sequence stream_id rows + 1 in
    record {
      thread_id = stream_id;
      type_name = type_name;
      stored = some (record {
        payload = payload;
        schema_version = event_schema_version;
        stream_id = stream_id;
        sequence = next;
      });
      stream_id = stream_id;
      sequence = next;
    }

-- `append` of a runtime event, on the stream of its thread, and `appendToStream`.
unfoldable pub append_to_stream : String → String → Payload → List EventRow → List EventRow
append_to_stream stream_id type_name payload rows =
    rows ++ new_row stream_id type_name payload rows ∷ []

unfoldable pub insert_by_sequence : EventRow → List EventRow → List EventRow
insert_by_sequence r [] = r ∷ []
insert_by_sequence r (s ∷ rs) =
    if ltb s.sequence r.sequence then s ∷ insert_by_sequence r rs else r ∷ s ∷ rs

unfoldable pub sort_by_sequence : List EventRow → List EventRow
unfolding insert_by_sequence
sort_by_sequence [] = []
sort_by_sequence (r ∷ rs) = insert_by_sequence r (sort_by_sequence rs)

-- Rows whose text does not parse are skipped.
unfoldable pub entries : List EventRow → List StreamEntry
entries [] = []
entries (r ∷ rs) = elim r.stored [
  | none ↦ entries rs
  | some payload ↦ record { sequence = r.sequence; payload = payload } ∷ entries rs
]

unfoldable pub replay_after : String → ℕ → List EventRow → List StreamEntry
replay_after s after rows =
    entries (sort_by_sequence (keep (λ r. ltb after r.sequence) (of_stream s rows)))

-- `forThread`: the payloads of a thread, in the order of the primary key.
payloads : List EventRow → List Stamped
payloads [] = []
payloads (r ∷ rs) = elim r.stored [ none ↦ payloads rs | some p ↦ p ∷ payloads rs ]

unfoldable pub for_thread : String → List EventRow → List Stamped
unfolding payloads
for_thread thread_id rows = payloads (keep (λ r. r.thread_id === thread_id) rows)

unfoldable pub count_for_thread : String → List EventRow → ℕ
count_for_thread thread_id rows = length (keep (λ r. r.thread_id === thread_id) rows)

-- `deleteThreadEvents` of server/repositories/messages.ts.
unfoldable pub delete_thread_events : String → List EventRow → List EventRow
delete_thread_events thread_id rows = keep (λ r. not (r.thread_id === thread_id)) rows

-- ===== src/Ledger/Canonical.antt =====
-- The bytes that are hashed and stored (server/contracts.ts, `sealedResultBytes` of
-- server/repositories/agent-task-runs.ts): objects with their keys in order. `JSON.stringify` and the
-- SHA-256 of node:crypto are arguments.
use Prim.Native.Nat.{Ordering}
use Prim.Native.String.{compare, ◌++◌}
use velarix_bot.Prelude.{String, Bool, true, false, Option, none, some, if◌then◌else◌}
use velarix_bot.Ledger.Contracts.{
  RunFailureCode, Outcome, Blocker, SealedRunResult, structured_blocker_fields, code_text,
}
use velarix_bot.Ledger.Rows.{Destination, parent, room}

-- The values that occur: null, texts and objects.
mutual
  pub data Json : Type 0 where
    null : Json
    text : String → Json
    object : Fields → Json

  pub data Fields : Type 0 where
    no_fields : Fields
    field : String → Json → Fields → Fields

-- The order of `sort()` and of the database, by code points.
abbrev pub text_ltb : String → String → Bool
text_ltb s t = elim (compare s t) [ Ordering.lt ↦ true | _ ↦ false ]

insert_field : String → Json → Fields → Fields
insert_field k v no_fields = field k v no_fields
insert_field k v (field j w fs) =
    if text_ltb j k then field j w (insert_field k v fs) else field k v (field j w fs)

mutual
  unfolding insert_field

  sort_canonical : Json → Json
  sort_canonical null = null
  sort_canonical (text s) = text s
  sort_canonical (object fs) = object (sort_fields fs)

  sort_fields : Fields → Fields
  sort_fields no_fields = no_fields
  sort_fields (field k v fs) = insert_field k (sort_canonical v) (sort_fields fs)

-- What node provides.
pub record Node : Type 0 where
  pub stringify : Json → String
  pub sha256 : String → String

unfoldable pub canonical_json : Node → Json → String
unfolding sort_canonical
canonical_json node value = node.stringify (sort_canonical value)

unfoldable pub sha256_canonical : Node → Json → String
unfolding canonical_json
sha256_canonical node value = node.sha256 (canonical_json node value)

abbrev pub outcome_name : Outcome → String
outcome_name Outcome.completed = "completed"
outcome_name Outcome.failed = "failed"
outcome_name Outcome.interrupted = "interrupted"
outcome_name Outcome.partial = "partial"

abbrev pub code_json : Option RunFailureCode → Json
code_json none = null
code_json (some code) = text (code_text code)

abbrev blocker_fields : Option Blocker → Fields
blocker_fields none = no_fields
blocker_fields (some b) = field "blocker" (text b.blocker) (
    field "blockerOwner" (text b.blocker_owner) (field "nextAction" (text b.next_action) no_fields))

abbrev again : Option Blocker → Option Blocker
again none = none
again (some b) =
    structured_blocker_fields (some b.blocker) (some b.blocker_owner) (some b.next_action)

unfoldable pub sealed_result_bytes : SealedRunResult → Json
unfolding structured_blocker_fields
sealed_result_bytes result = object (
    field "failureCode" (code_json result.failure_code) (
      field "outcome" (text (outcome_name result.outcome))
        (field "text" (text result.text) (blocker_fields (again result.blocker)))))

abbrev kind_name : Destination → String
kind_name parent = "parent"
kind_name room = "room"

unfoldable pub deterministic_delivery_message_id : String → Destination → String
deterministic_delivery_message_id run_id kind = "dtr:" ++ run_id ++ ":" ++ kind_name kind

-- ===== src/Grants/Tests.antt =====
-- The theorems on grants at concrete inputs, with a digest that changes nothing.
use velarix_bot.Prelude.{String, List, [], ◌∷◌, none, some, ◌≡◌, refl, arith}
use velarix_bot.Prelude.Dict.{get, set}
use velarix_bot.Grants.{
  DesktopWorkspaceIdentity, Tables, Grant, mint, resolve, revoke, record_binding, current_binding,
  valid_token, valid_workspace_identity, valid_scope, is_resolved, is_named, is_for,
}
use velarix_bot.Grants.Laws.{revoke-resolve}
use velarix_bot.Grants.History.{Call, bind_call, mint_call, run, record_binding-run}

abbrev as_is : String → String
as_is text = text

abbrev machine : DesktopWorkspaceIdentity
machine = record { provider_kind = "box"; machine_id = "m1" }

abbrev token : String
token = "0123456789012345678901234567890123456789abc"

abbrev history : List Call
history = mint_call "u" machine "desktop:view" 10 500 token ∷ bind_call "u" machine 5 ∷ []

abbrev granted : Grant
granted = record {
  token_digest = token;
  owner_id = "u";
  provider_kind = "box";
  machine_id = "m1";
  scope = "desktop:view";
  binding_generation = 1;
  created_at = 10;
  expires_at = 510;
  revoked_at = none;
}

abbrev bound : Tables
bound = record {
  grants = granted ∷ [];
  bindings =
      (
        "u",
        record {
          provider_kind = "box";
          machine_id = "m1";
          authorization_generation = 1;
          created_at = 5;
          updated_at = 5;
        },
      )
      ∷ [];
  generations = ("u", 1) ∷ [];
}

grant_runs :
    (run as_is history ≡ bound)
    × (resolve as_is "u" machine "desktop:view" token 509 bound ≡ some granted)
    × (resolve as_is "u" machine "desktop:control" token 509 bound ≡ none)
    × (resolve as_is "u" machine "desktop:view" token 510 bound ≡ none)
unfolding run mint resolve record_binding current_binding get set valid_token
    valid_workspace_identity valid_scope is_resolved is_named is_for
grant_runs = (refl, refl, refl, refl)

abbrev rebound : Tables
rebound = record {
  grants = granted ∷ [];
  bindings =
      (
        "u",
        record {
          provider_kind = "box";
          machine_id = "m1";
          authorization_generation = 2;
          created_at = 5;
          updated_at = 7;
        },
      )
      ∷ [];
  generations = ("u", 2) ∷ [];
}

rebinds : record_binding "u" machine 7 (run as_is history) ≡ some rebound
unfolding run mint record_binding current_binding get set valid_token valid_workspace_identity
    valid_scope
rebinds = refl

record_binding-run_example : resolve as_is "u" machine "desktop:view" token 20 rebound ≡ none
record_binding-run_example =
    record_binding-run as_is history "u" machine machine "desktop:view" token 7 20 rebound rebinds

revoke-resolve_example :
    resolve as_is "u" machine "desktop:view" token 30
      (revoke as_is "u" machine "desktop:view" token 20 bound).0
    ≡ none
revoke-resolve_example =
    revoke-resolve as_is "u" machine "desktop:view" token 20 30 bound (omega arith, tt)
      (omega arith)

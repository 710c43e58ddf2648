-- ===== src/Grants.antt =====
-- Grants of access to a desktop: server/repositories/desktop-access-grants.ts, and the bindings of
-- users to machines that they depend on, server/repositories/user-workspace-bindings.ts. The tables
-- are the list of grants, and the bindings and their generations by user. SHA-256 is the argument
-- `digest`; a fresh token is an argument; numbers are safe integers, written out where the source tests
-- them. The unique index on machines and the foreign keys of the schema are not modelled.
pub mod Laws
mod Reached
pub mod History
mod Tests
use velarix_bot.Prelude.{
  ℕ, ◌+◌, ◌-◌, ◌*◌, String, Bool, true, false, not, List, [], ◌∷◌, ◌++◌, ◌&&◌, ◌||◌, Option, none,
  some, ltb, leb, ◌==◌, ◌===◌, if◌then◌else◌, find_first, any, every, keep, length, take, map,
  codes, truthy, get_or_else, is_some,
}
use velarix_bot.Prelude.Dict.{Dict, get, set, delete}

abbrev pub default_ttl_ms : ℕ
default_ttl_ms = 60000

abbrev pub max_ttl_ms : ℕ
max_ttl_ms = 5 * 60000

abbrev pub max_safe_integer : ℕ
max_safe_integer = 9007199254740991

pub record DesktopWorkspaceIdentity : Type 0 where
  pub provider_kind : String
  pub machine_id : String

pub record Grant : Type 0 where
  pub token_digest : String
  pub owner_id : String
  pub provider_kind : String
  pub machine_id : String
  pub scope : String
  pub binding_generation : ℕ
  pub created_at : ℕ
  pub expires_at : ℕ
  pub revoked_at : Option ℕ

pub record UserWorkspaceBinding : Type 0 where
  pub provider_kind : String
  pub machine_id : String
  pub authorization_generation : ℕ
  pub created_at : ℕ
  pub updated_at : ℕ

pub record Tables : Type 0 where
  pub grants : List Grant
  pub bindings : Dict UserWorkspaceBinding
  pub generations : Dict ℕ

abbrev is_digit : ℕ → Bool
is_digit c = leb b'0' c && leb c b'9'

abbrev is_lower : ℕ → Bool
is_lower c = leb b'a' c && leb c b'z'

abbrev is_upper : ℕ → Bool
is_upper c = leb b'A' c && leb c b'Z'

is_token_char : ℕ → Bool
is_token_char c = is_upper c || is_lower c || is_digit c || c == b'_' || c == b'-'

pub valid_token : String → Bool
unfolding is_token_char
valid_token token = length (codes token) == 43 && every is_token_char (codes token)

abbrev is_provider_char : ℕ → Bool
is_provider_char c = is_lower c || is_digit c || c == b'-'

valid_provider : List ℕ → Bool
valid_provider [] = false
valid_provider (c ∷ cs) = is_lower c && (every is_provider_char cs && leb (length cs) 63)

abbrev is_machine_char : ℕ → Bool
is_machine_char c =
    is_upper c || is_lower c || is_digit c || c == b'.' || c == b'_' || c == b':' || c == b'-'

valid_machine : List ℕ → Bool
valid_machine [] = false
valid_machine (c ∷ cs) =
    (is_upper c || is_lower c || is_digit c) && (every is_machine_char cs && leb (length cs) 254)

pub valid_workspace_identity : DesktopWorkspaceIdentity → Bool
unfolding valid_provider valid_machine
valid_workspace_identity w =
    valid_provider (codes w.provider_kind) && valid_machine (codes w.machine_id)

pub valid_scope : String → Bool
valid_scope scope = scope === "desktop:view" || scope === "desktop:control"

abbrev pub valid_timestamp : ℕ → Bool
valid_timestamp now = leb now max_safe_integer

abbrev pub valid_lifetime : ℕ → Bool
valid_lifetime ttl = leb 1 ttl && leb ttl max_ttl_ms

-- The binding of an owner to this machine, if its generation is the owner's current one.
pub current_binding : String → DesktopWorkspaceIdentity → Tables → Option UserWorkspaceBinding
current_binding owner w db = elim (get owner db.bindings) [
  | none ↦ none
  | some b ↦
      if (b.provider_kind === w.provider_kind && b.machine_id === w.machine_id)
        && get_or_else (get owner db.generations) 0 == b.authorization_generation
        && is_some (get owner db.generations)
      then some b
      else none
]

-- What the insert of `mint` asks of the times and the generation of the binding.
mintable : ℕ → UserWorkspaceBinding → Bool
mintable now b =
    leb 1 b.authorization_generation
    && leb b.authorization_generation max_safe_integer
    && leb b.created_at max_safe_integer
    && leb b.created_at b.updated_at
    && leb b.updated_at max_safe_integer
    && leb b.updated_at now

pub revoke_rows : (Grant → Bool) → ℕ → List Grant → List Grant
revoke_rows p now [] = []
revoke_rows p now (g ∷ gs) =
    (if p g then record g { revoked_at = some now } else g) ∷ revoke_rows p now gs

module _ (digest : String → String) where
  pub mint :
      String → DesktopWorkspaceIdentity → String → ℕ → ℕ → String → Tables → Tables × Option Grant
  unfolding mintable
  mint owner w scope now ttl token db = elim (current_binding owner w db) [
    | none ↦ (db, none)
    | some b ↦
        let grant : Grant = record {
          token_digest = digest token;
          owner_id = owner;
          provider_kind = b.provider_kind;
          machine_id = b.machine_id;
          scope = scope;
          binding_generation = b.authorization_generation;
          created_at = now;
          expires_at = now + ttl;
          revoked_at = none;
        } in
        if (valid_workspace_identity w
            && valid_scope scope
            && valid_timestamp now
            && valid_lifetime ttl)
          && leb (now + ttl) max_safe_integer
          && mintable now b
        then (
          record {
            grants = db.grants ++ grant ∷ [];
            bindings = db.bindings;
            generations = db.generations;
          },
          some grant,
        )
        else (db, none)
  ]

  -- The columns that `resolve` and `revoke` ask for alike.
  pub is_for : String → String → DesktopWorkspaceIdentity → String → Grant → Bool
  is_for token owner w scope g =
      g.token_digest === digest token
      && g.owner_id === owner
      && g.provider_kind === w.provider_kind
      && g.machine_id === w.machine_id
      && g.scope === scope

  pub is_named : String → String → DesktopWorkspaceIdentity → String → ℕ → Grant → Bool
  is_named token owner w scope now g =
      is_for token owner w scope g
      && (not (is_some g.revoked_at) && (leb g.created_at now && ltb now g.expires_at))

  pub is_resolved : String → String → DesktopWorkspaceIdentity → String → ℕ → ℕ → Grant → Bool
  unfolding is_named
  is_resolved token owner w scope now generation g =
      is_named token owner w scope now g
      && (g.binding_generation == generation && valid_lifetime (g.expires_at - g.created_at))

  pub resolve : String → DesktopWorkspaceIdentity → String → String → ℕ → Tables → Option Grant
  unfolding is_resolved
  resolve owner w scope token now db = elim (current_binding owner w db) [
    | none ↦ none
    | some b ↦
        if valid_token token
          && valid_workspace_identity w
          && valid_scope scope
          && valid_timestamp now
        then find_first (is_resolved token owner w scope now b.authorization_generation) db.grants
        else none
  ]

  pub is_revocable : String → String → DesktopWorkspaceIdentity → String → ℕ → ℕ → Grant → Bool
  unfolding is_named
  is_revocable token owner w scope now generation g =
      is_named token owner w scope now g && g.binding_generation == generation

  pub revoke : String → DesktopWorkspaceIdentity → String → String → ℕ → Tables → Tables × Bool
  unfolding revoke_rows is_revocable
  revoke owner w scope token now db = elim (current_binding owner w db) [
    | none ↦ (db, false)
    | some b ↦
        let p = is_revocable token owner w scope now b.authorization_generation in
        if valid_token token
          && valid_workspace_identity w
          && valid_scope scope
          && valid_timestamp now
        then (
          record {
            grants = revoke_rows p now db.grants;
            bindings = db.bindings;
            generations = db.generations;
          },
          any p db.grants,
        )
        else (db, false)
  ]

-- none is the RangeError; the identifiers are not empty.
pub record_binding : String → DesktopWorkspaceIdentity → ℕ → Tables → Option Tables
record_binding owner w now db =
    let generation : ℕ = elim (get owner db.generations) [ none ↦ 1 | some g ↦ g + 1 ] in
    let created : ℕ = elim (get owner db.bindings) [ none ↦ now | some b ↦ b.created_at ] in
    if not (truthy w.provider_kind) || not (truthy w.machine_id) || ltb max_safe_integer generation
    then none
    else some (record {
      grants = db.grants;
      bindings =
          set owner
            (record {
              provider_kind = w.provider_kind;
              machine_id = w.machine_id;
              authorization_generation = generation;
              created_at = created;
              updated_at = now;
            })
            db.bindings;
      generations = set owner generation db.generations;
    })

pub delete_binding : String → DesktopWorkspaceIdentity → Tables → Tables × Bool
delete_binding owner w db = elim (get owner db.bindings) [
  | none ↦ (db, false)
  | some b ↦
      if b.provider_kind === w.provider_kind && b.machine_id === w.machine_id
      then (
        record {
          grants = db.grants;
          bindings = delete owner db.bindings;
          generations = db.generations;
        },
        true,
      )
      else (db, false)
]

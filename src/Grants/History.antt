-- ===== src/Grants/History.antt =====
-- Histories of calls on grants and bindings, in any order and by any owners.
use velarix_bot.Prelude.{
  ℕ, String, List, [], ◌∷◌, none, some, ◌≡◌, inl, inr, Option-cases, get_or_else,
}
use velarix_bot.Grants.{
  DesktopWorkspaceIdentity, Tables, mint, resolve, revoke, record_binding, delete_binding,
}
use velarix_bot.Grants.Laws.{IsReached, record_binding-resolve}
use velarix_bot.Grants.Reached.{
  mint-IsReached, revoke-IsReached, record_binding-IsReached, delete_binding-IsReached,
}

-- A call with its arguments.
pub data Call : Type 0 where
  mint_call : String → DesktopWorkspaceIdentity → String → ℕ → ℕ → String → Call
  revoke_call : String → DesktopWorkspaceIdentity → String → String → ℕ → Call
  bind_call : String → DesktopWorkspaceIdentity → ℕ → Call
  unbind_call : String → DesktopWorkspaceIdentity → Call

abbrev pub no_tables : Tables
no_tables = record { grants = []; bindings = []; generations = [] }

module _ (digest : String → String) where
  unfoldable pub call : Call → Tables → Tables
  call (mint_call owner w scope now ttl token) db = (mint digest owner w scope now ttl token db).0
  call (revoke_call owner w scope token now) db = (revoke digest owner w scope token now db).0
  call (bind_call owner w now) db = get_or_else (record_binding owner w now db) db
  call (unbind_call owner w) db = (delete_binding owner w db).0

  -- The first call of the list is the last.
  unfoldable pub run : List Call → Tables
  unfolding call
  run [] = no_tables
  run (c ∷ cs) = call c (run cs)

  call-IsReached : (c : Call) (db : Tables) → IsReached db → IsReached (call c db)
  unfolding call
  call-IsReached (mint_call owner w scope now ttl token) db h =
      mint-IsReached digest owner w scope now ttl token db h
  call-IsReached (revoke_call owner w scope token now) db h =
      revoke-IsReached digest owner w scope token now db h
  call-IsReached (bind_call owner w now) db h =
      elim (Option-cases (record_binding owner w now db)) [
        | inl q ↦ rw q h
        | inr (db', q) ↦ rw q (record_binding-IsReached owner w now db db' h q)
      ]
  call-IsReached (unbind_call owner w) db h = delete_binding-IsReached owner w db h

  -- In any history the grants are of generations that their owners have reached.
  run-IsReached : (cs : List Call) → IsReached (run cs)
  unfolding run
  run-IsReached [] = tt
  run-IsReached (c ∷ cs) = call-IsReached c (run cs) (run-IsReached cs)

  -- After any history a new binding of an owner, even to the same machine and after a deletion, ends
  -- all grants of the owner: none resolves, for no token, machine and scope and at no time.
  pub record_binding-run :
      (cs : List Call) (owner : String) (w w' : DesktopWorkspaceIdentity) (scope token : String)
      (at now : ℕ) (db' : Tables)
      → record_binding owner w at (run cs) ≡ some db'
      → resolve digest owner w' scope token now db' ≡ none
  record_binding-run cs owner w w' scope token at now db' e =
      record_binding-resolve digest owner w w' scope token at now (run cs) db' (run-IsReached cs) e

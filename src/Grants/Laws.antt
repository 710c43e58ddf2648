-- ===== src/Grants/Laws.antt =====
-- When a grant of access to a desktop holds (server/repositories/desktop-access-grants.ts).
use velarix_bot.Prelude.{
  ℕ, ◌+◌, ◌≤◌, String, Bool, false, List, [], ◌∷◌, ◌&&◌, none, some, arith, ◌≡◌, refl, subst, inl,
  inr, Bool-cases, Option-cases, ◌===◌, ===_iff, ===_refl, find_first, All, get_or_else, leb,
}
use velarix_bot.Prelude.Dict.{get, get-set}
use velarix_bot.Grants.{
  DesktopWorkspaceIdentity, Grant, UserWorkspaceBinding, Tables, valid_token,
  valid_workspace_identity, valid_scope, current_binding, is_named, is_for, is_resolved, resolve,
  revoke_rows, is_revocable, revoke, record_binding, max_safe_integer,
}

-- No grant is of a generation that its owner has not reached.
abbrev pub IsReached : Tables → Type 0
IsReached db =
    All (λ g. g.binding_generation ≤ get_or_else (get g.owner_id db.generations) 0) db.grants

module _ {ℓ} {A : Type ℓ} where
  find_first-none :
      (p : A → Bool) (P : A → Type 0) (xs : List A)
      → ((x : A) → P x → p x ≡ false)
      → All P xs
      → find_first p xs ≡ none
  find_first-none p P [] f h = refl
  find_first-none p P (x ∷ xs) f h = rw (f x h.0) (find_first-none p P xs f h.1)

module _ (digest : String → String) where
  abbrev next_generation : String → Tables → ℕ
  next_generation owner db = get_or_else (get owner db.generations) 0 + 1

  is_resolved_old :
      (owner : String) (w : DesktopWorkspaceIdentity) (scope token : String) (now n : ℕ)
      (db : Tables) (g : Grant)
      → g.binding_generation ≤ get_or_else (get g.owner_id db.generations) 0
      → is_resolved digest token owner w scope now (next_generation owner db) g ≡ false
  unfolding is_resolved is_named is_for
  is_resolved_old owner w scope token now n db g h = elim (Bool-cases (g.owner_id === owner)) [
    | inl q ↦
        let eq : g.owner_id ≡ owner = (===_iff g.owner_id owner).0 q in
        let h' = subst (λ o. g.binding_generation ≤ get_or_else (get o db.generations) 0) eq h in
        ground (arith, h')
    | inr q ↦ ground (arith, q)
  ]

  record_binding-current :
      (owner : String) (w w' : DesktopWorkspaceIdentity) (at : ℕ) (db db' : Tables)
      (b : UserWorkspaceBinding)
      → record_binding owner w at db ≡ some db'
      → current_binding owner w' db' ≡ some b
      → (db'.grants ≡ db.grants) × (b.authorization_generation ≡ next_generation owner db)
  unfolding record_binding current_binding
  record_binding-current owner w w' at db db' b e c = grind (arith, get-set, ===_refl, e, c)

  -- A new binding of an owner, even to the same machine, ends all grants of the owner: none of them
  -- resolves, for no token, machine and scope and at no time.
  pub record_binding-resolve :
      (owner : String) (w w' : DesktopWorkspaceIdentity) (scope token : String) (at now : ℕ)
      (db db' : Tables)
      → IsReached db
      → record_binding owner w at db ≡ some db'
      → resolve digest owner w' scope token now db' ≡ none
  unfolding resolve
  record_binding-resolve owner w w' scope token at now db db' h e =
      elim (Option-cases (current_binding owner w' db')) [
        | inl q ↦ rw (q, resolve) refl
        | inr (b, q) ↦
            let (same, gen) = record_binding-current owner w w' at db db' b e q in
            let found =
              find_first-none
                (is_resolved digest token owner w' scope now (next_generation owner db)) _ db.grants
                (λ g k. is_resolved_old owner w' scope token now 0 db g k) h in
            rw (q, resolve) (rw same (rw gen (ground (arith, found))))
      ]

  is_resolved_revoked :
      (owner : String) (w : DesktopWorkspaceIdentity) (scope token : String)
      (now later generation : ℕ) (g : Grant)
      → is_resolved digest token owner w scope later generation (record g { revoked_at = some now })
        ≡ false
  unfolding is_resolved is_named
  is_resolved_revoked owner w scope token now later generation g = ground arith

  is_resolved_kept :
      (owner : String) (w : DesktopWorkspaceIdentity) (scope token : String)
      (now later generation : ℕ) (g : Grant)
      → g.created_at ≤ now
      → now ≤ later
      → is_revocable digest token owner w scope now generation g ≡ false
      → is_resolved digest token owner w scope later generation g ≡ false
  unfolding is_resolved is_revocable is_named
  is_resolved_kept owner w scope token now later generation g h l e = ground arith

  revoke_rows-none :
      (owner : String) (w : DesktopWorkspaceIdentity) (scope token : String)
      (now later generation : ℕ) (gs : List Grant)
      → All (λ g. (g.created_at ≤ now)) gs
      → now ≤ later
      → find_first
          (is_resolved digest token owner w scope later generation)
          (revoke_rows (is_revocable digest token owner w scope now generation) now gs)
        ≡ none
  unfolding revoke_rows
  revoke_rows-none owner w scope token now later generation [] h l = refl
  revoke_rows-none owner w scope token now later generation (g ∷ gs) h l =
      let rest = revoke_rows-none owner w scope token now later generation gs h.1 l in
      elim (Bool-cases (is_revocable digest token owner w scope now generation g)) [
        | inl q ↦
            rw (q, revoke_rows)
              (rw (is_resolved_revoked owner w scope token now later generation g) rest)
        | inr q ↦
            rw (q, revoke_rows)
              (rw (is_resolved_kept owner w scope token now later generation g h.0 l q) rest)
      ]

  -- What was revoked does not resolve, then and later, if the clock has not gone back behind the
  -- creation of the grant.
  pub revoke-resolve :
      (owner : String) (w : DesktopWorkspaceIdentity) (scope token : String) (now later : ℕ)
      (db : Tables)
      → All (λ g. (g.created_at ≤ now)) db.grants
      → now ≤ later
      → resolve digest owner w scope token later (revoke digest owner w scope token now db).0 ≡ none
  unfolding resolve revoke current_binding
  revoke-resolve owner w scope token now later db h l =
      elim (Option-cases (current_binding owner w db)) [
        | inl q ↦ rw (q, revoke) (rw (q, resolve) refl)
        | inr (b, q) ↦
            let p = is_revocable digest token owner w scope now b.authorization_generation in
            let revoked : Tables = record {
              grants = revoke_rows p now db.grants;
              bindings = db.bindings;
              generations = db.generations;
            } in
            let q' : current_binding owner w revoked ≡ some b = q in
            let none_left =
              revoke_rows-none owner w scope token now later b.authorization_generation db.grants h
                l in
            elim (Bool-cases (
              valid_token token
              && valid_workspace_identity w
              && valid_scope scope
              && leb now max_safe_integer)) [
                | inl v ↦ rw (q, revoke) (rw v (rw (q', resolve) (ground (arith, none_left))))
                | inr v ↦ rw (q, revoke) (rw v (rw (q, resolve) (ground (arith, v, l))))
              ]
      ]

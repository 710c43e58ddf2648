-- ===== src/Grants/Reached.antt =====
-- Grants stay within the generations of their owners (the tables of
-- server/repositories/desktop-access-grants.ts and user-workspace-bindings.ts).
use velarix_bot.Prelude.{
  ℕ, ◌+◌, ◌≤◌, String, Bool, true, false, List, [], ◌∷◌, some, arith, ◌≡◌, sym, subst, subst₂, inl,
  inr, Bool-cases, Option-cases, ◌===◌, ===_iff, if◌then◌else◌, All, All-append, get_or_else,
}
use velarix_bot.Prelude.Dict.{get, set, get-set}
use velarix_bot.Grants.{
  DesktopWorkspaceIdentity, Grant, UserWorkspaceBinding, Tables, current_binding, mint, revoke_rows,
  is_revocable, revoke, record_binding, delete_binding,
}
use velarix_bot.Grants.Laws.{IsReached}

module _ {ℓ} {A : Type ℓ} where
  All-imp : (P Q : A → Type 0) (xs : List A) → ((x : A) → P x → Q x) → All P xs → All Q xs
  All-imp P Q [] f h = tt
  All-imp P Q (x ∷ xs) f h = (f x h.0, All-imp P Q xs f h.1)

revoke_rows-All :
    (p : Grant → Bool) (now : ℕ) (gs : List Grant) (bound : String → ℕ)
    → All (λ g. g.binding_generation ≤ bound g.owner_id) gs
    → All (λ g. g.binding_generation ≤ bound g.owner_id) (revoke_rows p now gs)
unfolding revoke_rows
revoke_rows-All p now [] bound h = tt
revoke_rows-All p now (g ∷ gs) bound h = elim (Bool-cases (p g)) [
  | inl q ↦ rw (q, revoke_rows) (h.0, revoke_rows-All p now gs bound h.1)
  | inr q ↦ rw (q, revoke_rows) (h.0, revoke_rows-All p now gs bound h.1)
]

current_binding-reached :
    (owner : String) (w : DesktopWorkspaceIdentity) (db : Tables) (b : UserWorkspaceBinding)
    → current_binding owner w db ≡ some b
    → b.authorization_generation ≤ get_or_else (get owner db.generations) 0
unfolding current_binding
current_binding-reached owner w db b e = ground (arith, e)

either-IsReached :
    {A : Type 0} (c : Bool) (x y : Tables × A)
    → IsReached x.0
    → IsReached y.0
    → IsReached (if c then x else y).0
either-IsReached true x y h k = h
either-IsReached false x y h k = k

-- The calls on grants.
module _ (digest : String → String) where
  pub mint-IsReached :
      (owner : String) (w : DesktopWorkspaceIdentity) (scope : String) (now ttl : ℕ)
      (token : String) (db : Tables)
      → IsReached db
      → IsReached (mint digest owner w scope now ttl token db).0
  unfolding mint
  mint-IsReached owner w scope now ttl token db h =
      elim (Option-cases (current_binding owner w db)) [
        | inl q ↦ rw (q, mint) h
        | inr (b, q) ↦
            let reached = current_binding-reached owner w db b q in
            rw (q, mint) (either-IsReached _ _ _ (All-append _ db.grants _ h (reached, tt)) h)
      ]

  pub revoke-IsReached :
      (owner : String) (w : DesktopWorkspaceIdentity) (scope token : String) (now : ℕ) (db : Tables)
      → IsReached db
      → IsReached (revoke digest owner w scope token now db).0
  unfolding revoke
  revoke-IsReached owner w scope token now db h = elim (Option-cases (current_binding owner w db)) [
    | inl q ↦ rw (q, revoke) h
    | inr (b, q) ↦
        let kept =
          revoke_rows-All (is_revocable digest token owner w scope now b.authorization_generation)
            now db.grants (λ o. get_or_else (get o db.generations) 0) h in
        rw (q, revoke) (either-IsReached _ _ _ kept h)
  ]

reached_next :
    (owner : String) (g : Grant) (db : Tables)
    → g.binding_generation ≤ get_or_else (get g.owner_id db.generations) 0
    → g.binding_generation
      ≤ get_or_else
          (if owner === g.owner_id
            then some (get_or_else (get owner db.generations) 0 + 1)
            else get g.owner_id db.generations)
          0
reached_next owner g db h = elim (Bool-cases (owner === g.owner_id)) [
  | inl q ↦
      let eq : g.owner_id ≡ owner = sym ((===_iff owner g.owner_id).0 q) in
      let h' = subst (λ o. g.binding_generation ≤ get_or_else (get o db.generations) 0) eq h in
      rw q (omega (arith, h'))
  | inr q ↦ rw q h
]

record_binding-tables :
    (owner : String) (w : DesktopWorkspaceIdentity) (at : ℕ) (db db' : Tables)
    → record_binding owner w at db ≡ some db'
    → (db.grants ≡ db'.grants)
      × (set owner (get_or_else (get owner db.generations) 0 + 1) db.generations ≡ db'.generations)
unfolding record_binding
record_binding-tables owner w at db db' e = ground (arith, e)

-- No call mints a grant of a generation that its owner has not reached, and none takes a generation
-- back: what the end of grants by a new binding rests on holds after each call, if it held before.
pub record_binding-IsReached :
    (owner : String) (w : DesktopWorkspaceIdentity) (at : ℕ) (db db' : Tables)
    → IsReached db
    → record_binding owner w at db ≡ some db'
    → IsReached db'
record_binding-IsReached owner w at db db' h e =
    let next : ℕ = get_or_else (get owner db.generations) 0 + 1 in
    let (grants, generations) = record_binding-tables owner w at db db' e in
    subst₂ (λ gs ns. All (λ g. g.binding_generation ≤ get_or_else (get g.owner_id ns) 0) gs) grants
      generations
      (All-imp _ _ db.grants
        (λ g k.
          subst (λ o. g.binding_generation ≤ get_or_else o 0)
            (sym (get-set owner g.owner_id next db.generations)) (reached_next owner g db k))
        h)

pub delete_binding-IsReached :
    (owner : String) (w : DesktopWorkspaceIdentity) (db : Tables)
    → IsReached db
    → IsReached (delete_binding owner w db).0
unfolding delete_binding
delete_binding-IsReached owner w db h = elim (Option-cases (get owner db.bindings)) [
  | inl q ↦ rw (q, delete_binding) h
  | inr (b, q) ↦ rw (q, delete_binding) (either-IsReached _ _ _ h h)
]

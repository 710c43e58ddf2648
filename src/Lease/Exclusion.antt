-- ===== src/Lease/Exclusion.antt =====
-- Who holds a lease, and who is reported as busy (server/computer/leases.ts).
use velarix_bot.Prelude.{
  String, List, [], ◌∷◌, map, none, some, arith, ◌≡◌, ◌≢◌, ◌↔◌, refl, ◌===◌, ===_iff, All,
  find_first, Option-cases, Bool-cases, inl, inr, not, ◌⊎◌, subst,
}
use velarix_bot.Prelude.Dict.{get, get-set, get-delete}
use velarix_bot.Lease.{
  LeaseOwner, LeaseState, Waiter, Broker, Call, acquires, releases, fires, acquire, release, fire,
  step, holder, busy_for, waiting, queue_of,
}

abbrev pub key_of : Call → String
key_of (acquires key owner wait_ms) = key
key_of (releases key owner_id) = key
key_of (fires key t) = key

-- A call on one key leaves the lease state of every other key as it was.
step-other_key :
    (b : Broker) (c : Call) (key : String)
    → key_of c ≢ key
    → get key (step b c).leases ≡ get key b.leases
unfolding step acquire release fire
step-other_key b (acquires k owner wait_ms) key h = grind (arith, ===_iff, get-set)
step-other_key b (releases k owner_id) key h = grind (arith, ===_iff, get-set, get-delete)
step-other_key b (fires k t) key h = grind (arith, ===_iff, get-set)

holder_kept_same :
    (b : Broker) (c : Call) (s : LeaseState)
    → get (key_of c) b.leases ≡ some s
    → c ≢ releases (key_of c) s.holder.id
    → holder (step b c) (key_of c) ≡ some s.holder
unfolding step acquire release fire holder
holder_kept_same b (acquires k owner wait_ms) s e h = grind (arith, ===_iff, get-set)
holder_kept_same b (releases k owner_id) s e h = grind (arith, ===_iff, get-set)
holder_kept_same b (fires k t) s e h = grind (arith, ===_iff, get-set)

key_cases : (k key : String) → (k ≡ key) ⊎ (k ≢ key)
key_cases k key = elim (Bool-cases (k === key)) [
  | inl e ↦ inl ((===_iff k key).0 e)
  | inr e ↦ inr (λ same. ground (arith, ===_iff k key))
]

holder_kept_other :
    (b : Broker) (c : Call) (key : String) (h : LeaseOwner)
    → holder b key ≡ some h
    → key_of c ≢ key
    → holder (step b c) key ≡ some h
unfolding holder
holder_kept_other b c key h e other = rw (step-other_key b c key other, holder) e

holder_state :
    (b : Broker) (key : String) (h : LeaseOwner)
    → holder b key ≡ some h
    → (s : LeaseState) × (get key b.leases ≡ some s) × (s.holder ≡ h)
unfolding holder
holder_state b key h e = ground arith

-- A held lease changes hands only when its holder releases it: after any other call, on this key or
-- another, the same owner holds the key.
pub holder_kept :
    (b : Broker) (c : Call) (key : String) (h : LeaseOwner)
    → holder b key ≡ some h
    → c ≢ releases key h.id
    → holder (step b c) key ≡ some h
holder_kept b c key h e not_released = elim (key_cases (key_of c) key) [
  | inl same ↦
      let (s, found, held) = holder_state b key h e in
      subst (λ k. holder (step b c) k ≡ some h) same
        (rw (← held)
          (holder_kept_same b c s (rw same found) (λ r. not_released (rw (r, same, held) refl))))
  | inr other ↦ holder_kept_other b c key h e other
]

-- Those who hold the key or wait for it, the holder first.
pub parties : Broker → String → List LeaseOwner
unfolding waiting queue_of
parties b key = elim (get key b.leases) [
  | none ↦ []
  | some s ↦ s.holder ∷ map (λ w. w.owner) s.queue
]

every_waiter_iff :
    (o : String) (ws : List Waiter)
    → (find_first (λ w. not (w.owner.id === o)) ws ≡ none)
      ↔ All (λ p. p.id ≡ o) (map (λ w. w.owner) ws)
every_waiter_iff o [] = (λ _. tt, λ _. refl)
every_waiter_iff o (w ∷ ws) = (
  ground (arith, ===_iff w.owner.id o, every_waiter_iff o ws),
  ground (arith, ===_iff w.owner.id o, every_waiter_iff o ws),
)

-- Nobody is reported as busy for an owner exactly when everyone who holds or waits for the key is
-- that owner.
busy_for-eq-none_iff :
    (b : Broker) (key o : String) → (busy_for b key o ≡ none) ↔ All (λ p. p.id ≡ o) (parties b key)
unfolding busy_for parties
busy_for-eq-none_iff b key o = elim (Option-cases (get key b.leases)) [
  | inl e ↦ rw (e, busy_for, parties) (λ _. tt, λ _. refl)
  | inr (s, e) ↦
      rw (e, busy_for, parties)
        (
          ground (arith, ===_iff s.holder.id o, every_waiter_iff o s.queue),
          ground (arith, ===_iff s.holder.id o, every_waiter_iff o s.queue),
        )
]

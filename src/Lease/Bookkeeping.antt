-- ===== src/Lease/Bookkeeping.antt =====
-- Every promise of `acquire` is settled at most once, and is waiting until then
-- (server/computer/leases.ts).
use velarix_bot.Prelude.{
  ℕ, ◌+◌, String, Bool, List, [], ◌∷◌, ◌++◌, Option, none, some, arith, ◌≡◌, refl, ◌==◌, ===_iff,
  if◌then◌else◌, find_first, ltb, Option-cases, inl, inr,
}
use velarix_bot.Prelude.Dict.{Dict, get, set, delete, get-set, get-delete}
use velarix_bot.Lease.{
  LeaseOwner, LeaseState, Waiter, Effect, resolved, rejected, Broker, create_lease_broker, Call,
  acquires, releases, fires, acquire, release, fire, step, run, drop_waiter, lease_busy_error,
}

pub settled : ℕ → List Effect → ℕ
settled t [] = 0
settled t (resolved u ∷ es) = (if u == t then 1 else 0) + settled t es
settled t (rejected u e ∷ es) = (if u == t then 1 else 0) + settled t es

pub queued : ℕ → List Waiter → ℕ
queued t [] = 0
queued t (w ∷ ws) = (if w.ticket == t then 1 else 0) + queued t ws

pub pending : ℕ → Dict LeaseState → ℕ
pending t [] = 0
pending t ((k, s) ∷ m) = queued t s.queue + pending t m

-- The waiters that stand under `key`.
pub pending_at : ℕ → Option LeaseState → ℕ
pending_at t none = 0
pending_at t (some s) = queued t s.queue

-- The keys of a Map are distinct.
abbrev pub IsUnique : Dict LeaseState → Type 0
IsUnique [] = Unit
IsUnique ((k, s) ∷ m) = (get k m ≡ none) × IsUnique m

settled-append : (t : ℕ) (es fs : List Effect) → settled t (es ++ fs) ≡ settled t es + settled t fs
unfolding settled
settled-append t [] fs = omega arith
settled-append t (resolved u ∷ es) fs = omega (arith, settled-append t es fs)
settled-append t (rejected u e ∷ es) fs = omega (arith, settled-append t es fs)

queued-append : (t : ℕ) (xs ys : List Waiter) → queued t (xs ++ ys) ≡ queued t xs + queued t ys
unfolding queued
queued-append t [] ys = omega arith
queued-append t (x ∷ xs) ys = omega (arith, queued-append t xs ys)

pending-set :
    (t : ℕ) (k : String) (s : LeaseState) (m : Dict LeaseState)
    → pending t (set k s m) + pending_at t (get k m) ≡ pending t m + queued t s.queue
unfolding pending set get pending_at
pending-set t k s [] = omega arith
pending-set t k s ((j, r) ∷ m) = ground (arith, pending-set t k s m)

delete_absent : (k : String) (m : Dict LeaseState) → get k m ≡ none → delete k m ≡ m
unfolding get delete
delete_absent k [] e = refl
delete_absent k ((j, r) ∷ m) e = ground (arith, delete_absent k m)

pending-delete :
    (t : ℕ) (k : String) (m : Dict LeaseState)
    → IsUnique m
    → pending t (delete k m) + pending_at t (get k m) ≡ pending t m
unfolding pending get pending_at delete
pending-delete t k [] u = omega arith
pending-delete t k ((j, r) ∷ m) u =
    ground (arith, ===_iff j k, pending-delete t k m u.1, delete_absent k m)

set-IsUnique :
    (k : String) (s : LeaseState) (m : Dict LeaseState) → IsUnique m → IsUnique (set k s m)
unfolding set get
set-IsUnique k s [] u = ground (arith)
set-IsUnique k s ((j, r) ∷ m) u =
    ground (arith, ===_iff j k, ===_iff k j, set-IsUnique k s m u.1, get-set k j s m)

delete-IsUnique : (k : String) (m : Dict LeaseState) → IsUnique m → IsUnique (delete k m)
unfolding delete
delete-IsUnique k [] u = tt
delete-IsUnique k ((j, r) ∷ m) u =
    ground (arith, ===_iff k j, delete-IsUnique k m u.1, get-delete k j m)

-- What `find` found, whatever by, leaves the queue once.
queued-drop :
    (t : ℕ) (p : Waiter → Bool) (ws : List Waiter) (q : Waiter)
    → find_first p ws ≡ some q
    → queued t (drop_waiter q.ticket ws) + (if q.ticket == t then 1 else 0) ≡ queued t ws
unfolding queued drop_waiter
queued-drop t p [] q e = ground arith
queued-drop t p (w ∷ ws) q e = ground (arith, queued-drop t p ws q)

-- So for a waiter that is found by its ticket.
queued-drop_ticket :
    (t u : ℕ) (ws : List Waiter) (q : Waiter)
    → find_first (λ w. w.ticket == u) ws ≡ some q
    → queued t (drop_waiter u ws) + (if u == t then 1 else 0) ≡ queued t ws
unfolding queued drop_waiter
queued-drop_ticket t u [] q e = ground arith
queued-drop_ticket t u (w ∷ ws) q e = ground (arith, queued-drop_ticket t u ws q)

pub record Inv (b : Broker) : Type 0 where
  pub unique : IsUnique b.leases
  pub accounted :
      (t : ℕ) → settled t b.effects + pending t b.leases ≡ (if ltb t b.next_ticket then 1 else 0)

acquire-Inv :
    (b : Broker) (key : String) (owner : LeaseOwner) (wait_ms : Option ℕ)
    → Inv b
    → Inv (acquire b key owner wait_ms)
unfolding acquire settled queued pending_at
acquire-Inv b key owner wait_ms v = record {
  unique = grind (arith, v.unique, set-IsUnique);
  accounted = λ t. grind (arith, v.accounted t, pending-set, settled-append, queued-append);
}

release-Inv : (b : Broker) (key owner_id : String) → Inv b → Inv (release b key owner_id)
unfolding release settled queued pending_at
release-Inv b key owner_id v = record {
  unique = grind (arith, v.unique, set-IsUnique, delete-IsUnique);
  accounted = λ t.
      grind
        (arith, v.accounted t, v.unique, pending-set, pending-delete, settled-append, queued-drop);
}

fired :
    (b : Broker) (key : String) (t u : ℕ) (s : LeaseState) (w : Waiter)
    → get key b.leases ≡ some s
    → find_first (λ w. w.ticket == t) s.queue ≡ some w
    → pending u (set key (record s { queue = drop_waiter t s.queue }) b.leases)
        + (if t == u then 1 else 0)
      ≡ pending u b.leases
unfolding pending_at
fired b key t u s w e f = ground (
  arith,
  queued-drop_ticket u t s.queue w f,
  pending-set u key (record s { queue = drop_waiter t s.queue }) b.leases,
)

fire-accounted :
    (b : Broker) (key : String) (t u : ℕ)
    → settled u (fire b key t).effects + pending u (fire b key t).leases
      ≡ settled u b.effects + pending u b.leases
unfolding fire settled
fire-accounted b key t u = elim (Option-cases (get key b.leases)) [
  | inl e ↦ rw (e, fire) refl
  | inr (s, e) ↦ elim (Option-cases (find_first (λ w. w.ticket == t) s.queue)) [
    | inl f ↦ rw (e, fire) (ground arith)
    | inr (w, f) ↦
        rw (e, fire)
          (ground (
            arith,
            fired b key t u s w e f,
            settled-append u b.effects (rejected t (lease_busy_error s.holder) ∷ []),
          ))
  ]
]

fire-Inv : (b : Broker) (key : String) (t : ℕ) → Inv b → Inv (fire b key t)
unfolding fire settled
fire-Inv b key t v = record {
  unique = grind (arith, v.unique, set-IsUnique);
  accounted = λ u. ground (arith, v.accounted u, fire-accounted b key t u);
}

step-Inv : (b : Broker) (c : Call) → Inv b → Inv (step b c)
unfolding step
step-Inv b (acquires key owner wait_ms) v = acquire-Inv b key owner wait_ms v
step-Inv b (releases key owner_id) v = release-Inv b key owner_id v
step-Inv b (fires key t) v = fire-Inv b key t v

run-Inv : (b : Broker) (cs : List Call) → Inv b → Inv (run b cs)
unfolding run
run-Inv b [] v = v
run-Inv b (c ∷ cs) v = run-Inv (step b c) cs (step-Inv b c v)

create-Inv : Inv create_lease_broker
unfolding settled pending
create-Inv = record { unique = tt; accounted = λ t. ground arith }

-- After any calls and timers, each promise that `acquire` has returned is settled once or waits in
-- one place of one queue, and never both; no other promise is settled or waits.
pub run_settles_once :
    (cs : List Call) (t : ℕ)
    → let b = run create_lease_broker cs in
      settled t b.effects + pending t b.leases ≡ (if ltb t b.next_ticket then 1 else 0)
run_settles_once cs t = (run-Inv create_lease_broker cs create-Inv).accounted t

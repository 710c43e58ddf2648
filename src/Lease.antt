-- ===== src/Lease.antt =====
-- The machine lease broker, server/computer/leases.ts: at most one turn acts on a machine at a
-- time, waiters queue first in first out and fail on their timer.
-- A promise is a ticket; what the broker does to promises is a list of effects. A timer that fires
-- is an operation of its own, `fire`, on the key whose lease state its closure holds.
pub mod Bookkeeping
pub mod Exclusion
pub mod Order
mod Tests
use velarix_bot.Prelude.{
  ℕ, suc, ◌+◌, ◌*◌, String, Bool, not, List, [], ◌∷◌, ◌++◌, map, Option, none, some, ◌==◌, ◌===◌,
  if◌then◌else◌, find_first, get_or_else,
}
use velarix_bot.Prelude.Dict.{Dict, get, set, delete}

pub record LeaseOwner : Type 0 where
  pub id : String
  pub name : String

abbrev pub lease_wait_default_ms : ℕ
lease_wait_default_ms = 10 * 60000

-- `leaseBusyError` with the name that its text shows, and the error of an aborted wait.
pub data LeaseError : Type 0 where
  busy : String → LeaseError
  wait_aborted : LeaseError

abbrev pub lease_busy_error : LeaseOwner → LeaseError
lease_busy_error holder = busy holder.name

-- The resolve and reject functions and the timer of a waiter are named by its ticket.
pub record Waiter : Type 0 where
  pub ticket : ℕ
  pub owner : LeaseOwner
  pub wait_ms : ℕ

pub record LeaseState : Type 0 where
  pub holder : LeaseOwner
  pub queue : List Waiter

pub data Effect : Type 0 where
  resolved : ℕ → Effect
  rejected : ℕ → LeaseError → Effect

pub record Broker : Type 0 where
  pub leases : Dict LeaseState
  pub next_ticket : ℕ
  pub effects : List Effect

abbrev pub create_lease_broker : Broker
create_lease_broker = record { leases = []; next_ticket = 0; effects = [] }

-- `state.queue.indexOf(waiter)` and `splice`: an object occurs once, so this takes one item out.
pub drop_waiter : ℕ → List Waiter → List Waiter
drop_waiter t [] = []
drop_waiter t (w ∷ ws) = if w.ticket == t then ws else w ∷ drop_waiter t ws

-- The promise of a call that holds the lease at once is resolved when it is returned.
acquire_in : Broker → String → LeaseOwner → Option ℕ → Option LeaseState → Broker
acquire_in b key owner wait_ms none = record b {
  leases = set key (record { holder = owner; queue = [] }) b.leases;
  next_ticket = suc b.next_ticket;
  effects = b.effects ++ resolved b.next_ticket ∷ [];
}
acquire_in b key owner wait_ms (some state) =
    if state.holder.id === owner.id
    then record b {
      next_ticket = suc b.next_ticket;
      effects = b.effects ++ resolved b.next_ticket ∷ [];
    }
    else record b {
      leases = set key (record state { queue = state.queue ++ waiter ∷ [] }) b.leases;
      next_ticket = suc b.next_ticket;
    }
  where
    waiter : Waiter
    waiter = record {
      ticket = b.next_ticket;
      owner = owner;
      wait_ms = get_or_else wait_ms lease_wait_default_ms;
    }

pub acquire : Broker → String → LeaseOwner → Option ℕ → Broker
unfolding acquire_in
acquire b key owner wait_ms = acquire_in b key owner wait_ms (get key b.leases)

-- The holder's release hands the lease to the first waiter, or drops the lease.
hand_over : Broker → String → List Waiter → Broker
hand_over b key [] = record b { leases = delete key b.leases }
hand_over b key (next ∷ rest) = record b {
  leases = set key (record { holder = next.owner; queue = rest }) b.leases;
  effects = b.effects ++ resolved next.ticket ∷ [];
}

abort_wait : Broker → String → LeaseState → Option Waiter → Broker
abort_wait b key state none = b
abort_wait b key state (some queued) = record b {
  leases = set key (record state { queue = drop_waiter queued.ticket state.queue }) b.leases;
  effects = b.effects ++ rejected queued.ticket wait_aborted ∷ [];
}

release_in : Broker → String → String → Option LeaseState → Broker
unfolding hand_over abort_wait
release_in b key owner_id none = b
release_in b key owner_id (some state) =
    if state.holder.id === owner_id
    then hand_over b key state.queue
    else abort_wait b key state (find_first (λ w. w.owner.id === owner_id) state.queue)

pub release : Broker → String → String → Broker
unfolding release_in
release b key owner_id = release_in b key owner_id (get key b.leases)

-- The timer of a waiter. It is cleared when the waiter leaves the queue, so it fires on a waiter
-- that is still queued; for any other ticket nothing happens.
fire_in : Broker → String → ℕ → Option LeaseState → Broker
fire_in b key t none = b
fire_in b key t (some state) = elim (find_first (λ (w : Waiter). w.ticket == t) state.queue) [
  | none ↦ b
  | some w ↦ record b {
    leases = set key (record state { queue = drop_waiter t state.queue }) b.leases;
    effects = b.effects ++ rejected t (lease_busy_error state.holder) ∷ [];
  }
]

pub fire : Broker → String → ℕ → Broker
unfolding fire_in
fire b key t = fire_in b key t (get key b.leases)

pub holder : Broker → String → Option LeaseOwner
holder b key = elim (get key b.leases) [ none ↦ none | some s ↦ some s.holder ]

pub queue_of : Broker → String → List Waiter
queue_of b key = elim (get key b.leases) [ none ↦ [] | some s ↦ s.queue ]

pub waiting : Broker → String → List LeaseOwner
unfolding queue_of
waiting b key = map (λ w. w.owner) (queue_of b key)

-- The other owner that holds or waits for `key`.
pub busy_for : Broker → String → String → Option LeaseOwner
busy_for b key owner_id = elim (get key b.leases) [
  | none ↦ none
  | some s ↦
      if not (s.holder.id === owner_id)
      then some s.holder
      else elim (find_first (λ w. not (w.owner.id === owner_id)) s.queue) [
        | none ↦ none
        | some w ↦ some w.owner
      ]
]

pub data Call : Type 0 where
  acquires : String → LeaseOwner → Option ℕ → Call
  releases : String → String → Call
  fires : String → ℕ → Call

pub step : Broker → Call → Broker
step b (acquires key owner wait_ms) = acquire b key owner wait_ms
step b (releases key owner_id) = release b key owner_id
step b (fires key t) = fire b key t

pub run : Broker → List Call → Broker
run b [] = b
run b (c ∷ cs) = run (step b c) cs

-- ===== src/Lease/Tests.antt =====
-- Runs of the lease broker, and the theorems at concrete inputs.
use velarix_bot.Prelude.{
  List, [], ◌∷◌, ◌++◌, map, none, some, ◌≡◌, refl, ◌+◌, if◌then◌else◌, ltb, arith, ===_iff,
}
use velarix_bot.Prelude.Dict.{get, set, delete}
use velarix_bot.Lease.{
  LeaseOwner, Waiter, resolved, rejected, busy, wait_aborted, Broker, create_lease_broker, Call,
  acquires, releases, fires, step, run, acquire, release, fire, drop_waiter, holder, waiting,
  busy_for,
}
use velarix_bot.Lease.Exclusion.{holder_kept}
use velarix_bot.Lease.Bookkeeping.{settled, pending, run_settles_once}
use velarix_bot.Lease.Order.{holders_release, holders_in_turn, holders_release_fifo}

abbrev ann : LeaseOwner
ann = record { id = "a"; name = "Ann" }

abbrev bob : LeaseOwner
bob = record { id = "b"; name = "Bob" }

abbrev cy : LeaseOwner
cy = record { id = "c"; name = "Cy" }

abbrev queue_up : List Call
queue_up = acquires "box" ann none ∷ acquires "box" bob none ∷ acquires "box" cy (some 5) ∷ []

abbrev crowded : Broker
crowded = run create_lease_broker queue_up

full_queue :
    (run crowded (fires "box" 2 ∷ releases "box" "a" ∷ [])).effects
    ≡ resolved 0 ∷ rejected 2 (busy "Ann") ∷ resolved 1 ∷ []
unfolding run step acquire release fire drop_waiter get set delete
full_queue = refl

full_queue_view : (waiting crowded "box" ≡ bob ∷ cy ∷ []) × (busy_for crowded "box" "a" ≡ some bob)
unfolding run step acquire waiting busy_for get set
full_queue_view = (refl, refl)

abort_run :
    (run crowded (releases "box" "b" ∷ releases "box" "b" ∷ [])).effects
    ≡ resolved 0 ∷ rejected 1 wait_aborted ∷ []
unfolding run step acquire release drop_waiter get set delete
abort_run = refl

holder_kept_example : holder (step crowded (releases "box" "b")) "box" ≡ some ann
unfolding run step acquire holder get set
holder_kept_example =
    holder_kept crowded (releases "box" "b") "box" ann refl (λ e. ground (arith, ===_iff "b" "a"))

run_settles_once_example :
    let b = run create_lease_broker queue_up in
    settled 1 b.effects + pending 1 b.leases ≡ (if ltb 1 b.next_ticket then 1 else 0)
run_settles_once_example = run_settles_once queue_up 1

abbrev waiters : List Waiter
waiters =
    record { ticket = 1; owner = bob; wait_ms = 600000 }
    ∷ record { ticket = 2; owner = cy; wait_ms = 5 }
    ∷ []

holders_release_fifo_example :
    let b' = holders_release 3 crowded "box" in
    (holders_in_turn 3 crowded "box" ≡ ann ∷ bob ∷ cy ∷ [])
    × (b'.effects ≡ crowded.effects ++ map (λ w. resolved w.ticket) waiters)
    × (holder b' "box" ≡ none)
unfolding run step acquire get set
holders_release_fifo_example = holders_release_fifo crowded "box" ann waiters refl

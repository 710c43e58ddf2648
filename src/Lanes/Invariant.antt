-- ===== src/Lanes/Invariant.antt =====
-- What holds of the lane scheduler between two calls, and that a dispatch, a push and a cancellation
-- of one item keep it (server/services/lanes.ts).
use velarix_bot.Prelude.{
  ℕ, zero, suc, ◌+◌, ◌%◌, ◌≤◌, ◌<◌, String, Bool, true, List, [], ◌∷◌, ◌++◌, some, arith, ◌≡◌, ◌≢◌,
  refl, ◌==◌, if◌then◌else◌, take, length, Option-cases, inl, inr, length-take-le, ltb, ◌↔◌, subst₂,
}
use velarix_bot.Prelude.Dict.{get, AllValues}
use velarix_bot.LaneKeys.{SchedulerLane, user, channel, agent, background}
use velarix_bot.Lanes.State.{
  idle, queued, running, cancelled, Sched, lane_at, same_lane, set_queue, remove_first,
  cancelled_keep, remember,
}
use velarix_bot.Lanes.Pump.{take_first, eligible, pick_from, pick_next}

unfoldable pub occurs : ℕ → List ℕ → ℕ
occurs r [] = 0
occurs r (q ∷ qs) = (if q == r then 1 else 0) + occurs r qs

pub record Inv (s : Sched) : Type 0 where
  pub running_ok :
      (bot : String) (r : ℕ)
      → get bot s.running ≡ some r
      → ((s.heap r).bot_id ≡ bot) × ((s.heap r).status ≡ running) × (r < s.next_ref)
  pub queued_ok :
      (lane : SchedulerLane) (r : ℕ)
      → 0 < occurs r (s.queues lane)
      → ((s.heap r).lane ≡ lane) × ((s.heap r).status ≡ queued) × (r < s.next_ref)
  pub queued_once : (lane : SchedulerLane) (r : ℕ) → occurs r (s.queues lane) ≤ 1
  pub cancelled_ok :
      (r : ℕ) → 0 < occurs r s.cancelled → ((s.heap r).status ≡ cancelled) × (r < s.next_ref)
  pub cancelled_short : length s.cancelled ≤ cancelled_keep
  pub cursor_ok : s.cursor ≤ 4
  pub running_known : AllValues (λ r. r < s.next_ref) s.running
  pub dispatched_ok : (r : ℕ) → s.phase r ≢ idle → ((s.heap r).status ≢ queued) × (r < s.next_ref)

pub occurs-append : (r : ℕ) (xs ys : List ℕ) → occurs r (xs ++ ys) ≡ occurs r xs + occurs r ys
unfolding occurs
occurs-append r [] ys = omega arith
occurs-append r (x ∷ xs) ys = omega (arith, occurs-append r xs ys)

pub occurs-remove_first :
    (q r : ℕ) (xs : List ℕ)
    → occurs r xs
      ≡ occurs r (remove_first q xs)
        + (if q == r then (if ltb 0 (occurs q xs) then 1 else 0) else 0)
unfolding occurs remove_first
occurs-remove_first q r [] = ground arith
occurs-remove_first q r (x ∷ xs) = ground (arith, occurs-remove_first q r xs)

pub occurs-take-le : (n r : ℕ) (xs : List ℕ) → occurs r (take n xs) ≤ occurs r xs
unfolding occurs
occurs-take-le zero r xs = omega arith
occurs-take-le (suc n) r [] = omega arith
occurs-take-le (suc n) r (x ∷ xs) = omega (arith, occurs-take-le n r xs)

pub occurs-remember :
    (q r : ℕ) (xs : List ℕ) → occurs q (remember r xs) ≤ (if r == q then 1 else 0) + occurs q xs
unfolding remember occurs
occurs-remember q r xs = omega (arith, occurs-take-le 49 q xs)

pub length-remember : (r : ℕ) (xs : List ℕ) → length (remember r xs) ≤ cancelled_keep
unfolding remember
length-remember r xs = length-take-le cancelled_keep (r ∷ xs)

pub take_first-occurs :
    (p : ℕ → Bool) (xs : List ℕ) (q r : ℕ) (rest : List ℕ)
    → take_first p xs ≡ some (q, rest)
    → (p q ≡ true) × (occurs r xs ≡ occurs r rest + (if q == r then 1 else 0))
unfolding take_first occurs
take_first-occurs p [] q r rest e = ground arith
take_first-occurs p (x ∷ xs) q r rest e = elim (Option-cases (take_first p xs)) [
  | inl n ↦ ground arith
  | inr ((q', rest'), n) ↦ ground (arith, take_first-occurs p xs q' r rest' n)
]

-- What `pickNext` has done to the state when it returns `r`.
pub record Picked (busy : String → Bool) (s : Sched) (r : ℕ) (s' : Sched) : Type 0 where
  pub lane : SchedulerLane
  pub was_queued :
      (q : ℕ) → occurs q (s.queues lane) ≡ occurs q (s'.queues lane) + (if r == q then 1 else 0)
  pub others : (l : SchedulerLane) → l ≢ lane → s'.queues l ≡ s.queues l
  pub free : eligible busy s r ≡ true
  pub same_heap : s'.heap ≡ s.heap
  pub same_running : s'.running ≡ s.running
  pub same_cancelled : s'.cancelled ≡ s.cancelled
  pub same_next : s'.next_ref ≡ s.next_ref
  pub same_phase : s'.phase ≡ s.phase
  pub cursor_le : s'.cursor ≤ 4

pub same_lane_iff : (a b : SchedulerLane) → (same_lane a b ≡ true) ↔ (a ≡ b)
same_lane_iff user b = ground arith
same_lane_iff channel b = ground arith
same_lane_iff agent b = ground arith
same_lane_iff background b = ground arith

Picked-here :
    (busy : String → Bool) (s : Sched) (lane : SchedulerLane) (at r : ℕ) (rest : List ℕ)
    → at < 4
    → take_first (eligible busy s) (s.queues lane) ≡ some (r, rest)
    → Picked busy s r (record s { queues = set_queue s.queues lane rest; cursor = at + 1 })
Picked-here busy s lane at r rest b e = record {
  lane = lane;
  was_queued = λ q. ground (
    arith,
    take_first-occurs (eligible busy s) (s.queues lane) r q rest e,
    same_lane_iff lane lane,
  );
  others = λ l n. ground (arith, same_lane_iff l lane);
  free = (take_first-occurs (eligible busy s) (s.queues lane) r r rest e).0;
  same_heap = refl;
  same_running = refl;
  same_cancelled = refl;
  same_next = refl;
  same_phase = refl;
  cursor_le = omega arith;
}

pick_from-Picked :
    (busy : String → Bool) (s : Sched) (left offset r : ℕ) (s' : Sched)
    → pick_from busy s left offset ≡ some (r, s')
    → Picked busy s r s'
unfolding pick_from
pick_from-Picked busy s zero offset r s' e = absurd (ground arith)
pick_from-Picked busy s (suc left) offset r s' e =
    let lane = lane_at ((s.cursor + offset) % 4) in
    elim (Option-cases (take_first (eligible busy s) (s.queues lane))) [
      | inl n ↦ pick_from-Picked busy s left (offset + 1) r s' (rw (n, pick_from) at e)
      | inr ((q, rest), n) ↦
          let picked = rw (n, pick_from) at e in
          let same_ref : q ≡ r = ground arith in
          let same_state : record s {
            queues = set_queue s.queues lane rest;
            cursor = (s.cursor + offset) % 4 + 1;
          }
              ≡ s' =
            ground arith in
          subst₂ (Picked busy s) same_ref same_state
            (Picked-here busy s lane _ q rest (omega arith) n)
    ]

pub pick_next-Picked :
    (busy : String → Bool) (s : Sched) (r : ℕ) (s' : Sched)
    → pick_next busy s ≡ some (r, s')
    → Picked busy s r s'
unfolding pick_next
pick_next-Picked busy s r s' e = pick_from-Picked busy s 4 0 r s' e

-- ===== src/Lanes/Safety.antt =====
-- Every history of calls keeps the scheduler's invariant (server/services/lanes.ts).
use velarix_bot.Prelude.{
  ℕ, zero, suc, ◌+◌, ◌≤◌, ◌<◌, String, Bool, true, false, not, List, [], ◌∷◌, ◌&&◌, Option, some,
  arith, ◌≡◌, refl, if◌then◌else◌, Option-cases, Bool-cases, inl, inr, truthy, trim, ◌∙◌, subst,
}
use velarix_bot.Prelude.Dict.{Dict, AllValues}
use velarix_bot.LaneKeys.{
  Claim, SchedulerLane, user, channel, agent, background, Table, claimed, claim_error,
}
use velarix_bot.Lanes.State.{
  queued, Output, persist, remember_cancelled, remove_queued, drop_running, LaneItem, Sched, emit,
}
use velarix_bot.Lanes.Pump.{pick_next, dispatch, pump_loop, pump}
use velarix_bot.Lanes.Calls.{
  EnqueueResult, LaneEnqueueInput, LaneCancelFilter, enqueue, enqueue_in, push_item, item_of,
  key_of, queue_claimed, is_blank, matches, is_queued, is_running, mark_cancelled, cancel_queued,
  cancel_running, interrupt_all, cancel_queues, cancel,
}
use velarix_bot.Lanes.Invariant.{occurs, Inv, pick_next-Picked}
use velarix_bot.Lanes.Keeps.{dispatch-Inv, pushed, push-Inv, mark_cancelled-Inv}

pub pump_loop-Inv :
    (fuel n : ℕ) (busy : ℕ → String → Bool) (s : Sched) → Inv s → Inv (pump_loop fuel n busy s)
unfolding pump_loop
pump_loop-Inv zero n busy s v = v
pump_loop-Inv (suc fuel) n busy s v = elim (Option-cases (pick_next (busy n) s)) [
  | inl e ↦ rw (e, pump_loop) v
  | inr ((r, s'), e) ↦
      rw (e, pump_loop)
        (pump_loop-Inv fuel (n + 1) busy (dispatch r s')
          (dispatch-Inv (busy n) s s' r v (pick_next-Picked (busy n) s r s' e)))
]

pub pump-Inv : (busy : ℕ → String → Bool) (s : Sched) → Inv s → Inv (pump busy s)
unfolding pump
pump-Inv busy s v = pump_loop-Inv _ 0 busy s v

push_item-Inv :
    (busy : ℕ → String → Bool) (item : LaneItem) (s : Sched)
    → item.status ≡ queued
    → Inv s
    → Inv (push_item busy item s)
unfolding push_item
push_item-Inv busy item s h v =
    pump-Inv busy (emit s.next_ref (pushed item s)) (push-Inv item s h v)

-- The keys are no part of the invariant.
keys-Inv : (keys : Table) (s : Sched) → Inv s → Inv (record s { keys = keys })
keys-Inv keys s v = record {
  running_ok = v.running_ok;
  queued_ok = v.queued_ok;
  queued_once = v.queued_once;
  cancelled_ok = v.cancelled_ok;
  cancelled_short = v.cancelled_short;
  cursor_ok = v.cursor_ok;
  running_known = v.running_known;
  dispatched_ok = v.dispatched_ok;
}

pub outputs-Inv : (outputs : List Output) (s : Sched) → Inv s → Inv (record s { outputs = outputs })
outputs-Inv outputs s v = record {
  running_ok = v.running_ok;
  queued_ok = v.queued_ok;
  queued_once = v.queued_once;
  cancelled_ok = v.cancelled_ok;
  cancelled_short = v.cancelled_short;
  cursor_ok = v.cursor_ok;
  running_known = v.running_known;
  dispatched_ok = v.dispatched_ok;
}

either-Inv :
    (b : Bool) (x y : Sched × EnqueueResult) → Inv x.0 → Inv y.0 → Inv (if b then x else y).0
either-Inv true x y v w = v
either-Inv false x y v w = w

queue_claimed-Inv :
    (busy : ℕ → String → Bool) (item : LaneItem) (s : Sched) (claim : Table × Claim)
    → item.status ≡ queued
    → Inv s
    → Inv (queue_claimed busy item s claim).0
unfolding queue_claimed
queue_claimed-Inv busy item s (keys, claim_error e) h v = keys-Inv keys s v
queue_claimed-Inv busy item s (keys, claimed row true) h v =
    push_item-Inv busy item (record s { keys = keys }) h (keys-Inv keys s v)
queue_claimed-Inv busy item s (keys, claimed row false) h v = keys-Inv keys s v

module _ (busy : ℕ → String → Bool) (raced : Option Table) (work_id : String) (at : ℕ) where
  enqueue_in-Inv :
      (input : LaneEnqueueInput) (lane : SchedulerLane) (s : Sched)
      → Inv s
      → Inv (enqueue_in busy raced work_id at input lane s).0
  unfolding enqueue_in item_of
  enqueue_in-Inv input lane s v =
      either-Inv (not (truthy (key_of input))) _ _
        (push_item-Inv busy (item_of work_id at input lane) s refl v)
        (queue_claimed-Inv busy (item_of work_id at input lane) s _ refl v)

  pub enqueue-Inv :
      (input : LaneEnqueueInput) (s : Sched) → Inv s → Inv (enqueue busy raced work_id at input s).0
  unfolding enqueue
  enqueue-Inv input s v = elim (Bool-cases (truthy (trim input.bot_id))) [
    | inl given ↦ elim (Option-cases input.lane) [
      | inl unknown ↦ rw (given, unknown, enqueue) v
      | inr (lane, known) ↦ rw (given, known, enqueue) (enqueue_in-Inv input lane s v)
    ]
    | inr blank ↦ rw (blank, enqueue) v
  ]

pub mark_cancelled-next :
    (r : ℕ) (why : String) (s : Sched) → (mark_cancelled r why s).next_ref ≡ s.next_ref
unfolding mark_cancelled emit persist remember_cancelled remove_queued drop_running
mark_cancelled-next r why s = ground arith

-- The references of a list are of items that exist.
abbrev pub Known : ℕ → List ℕ → Type 0
Known n [] = Unit
Known n (r ∷ rs) = (r < n) × Known n rs

pub cancel_queued-Inv :
    (f : LaneCancelFilter) (rs : List ℕ) (s : Sched)
    → Known s.next_ref rs
    → Inv s
    → Inv (cancel_queued f rs s) × ((cancel_queued f rs s).next_ref ≡ s.next_ref)
unfolding cancel_queued
cancel_queued-Inv f [] s k v = (v, refl)
cancel_queued-Inv f (r ∷ rs) s (kr, k) v =
    elim (Bool-cases (matches f (s.heap r) && is_queued (s.heap r).status)) [
      | inl hit ↦
          rw (hit, cancel_queued)
            (let same = mark_cancelled-next r "cancelled: dropped from queue" s in
              let (inv, next) =
                cancel_queued-Inv f rs (mark_cancelled r "cancelled: dropped from queue" s)
                  (rw same k) (mark_cancelled-Inv r "cancelled: dropped from queue" s v kr) in
              (inv, next ∙ same))
      | inr miss ↦ rw (miss, cancel_queued) (cancel_queued-Inv f rs s k v)
    ]

pub cancel_running-Inv :
    (f : LaneCancelFilter) (m : Dict ℕ) (s : Sched) (bots : List String)
    → AllValues (λ r. r < s.next_ref) m
    → Inv s
    → Inv (cancel_running f m s bots).0
unfolding cancel_running
cancel_running-Inv f [] s bots k v = v
cancel_running-Inv f ((b, r) ∷ m) s bots (kr, k) v =
    elim (Bool-cases (matches f (s.heap r) && is_running (s.heap r).status)) [
      | inl hit ↦
          rw (hit, cancel_running)
            (cancel_running-Inv f m _ _
              (rw (mark_cancelled-next r "cancelled: interrupted running turn" s) k)
              (mark_cancelled-Inv r "cancelled: interrupted running turn" s v kr))
      | inr miss ↦ rw (miss, cancel_running) (cancel_running-Inv f m s bots k v)
    ]

pub queue-Known :
    (s : Sched) (lane : SchedulerLane) (rs : List ℕ)
    → ((r : ℕ) → occurs r rs ≤ occurs r (s.queues lane))
    → Inv s
    → Known s.next_ref rs
unfolding occurs
queue-Known s lane [] le v = tt
queue-Known s lane (r ∷ rs) le v = (
  (v.queued_ok lane r (ground (arith, le r))).2,
  queue-Known s lane rs (λ q. omega (arith, le q)) v,
)

pub cancel_lane-Inv :
    (f : LaneCancelFilter) (lane : SchedulerLane) (s : Sched)
    → Inv s
    → Inv (cancel_queued f (s.queues lane) s)
cancel_lane-Inv f lane s v =
    (cancel_queued-Inv f (s.queues lane) s (queue-Known s lane (s.queues lane) (λ r. omega arith) v)
      v).0

pub cancel_queues-Inv : (f : LaneCancelFilter) (s : Sched) → Inv s → Inv (cancel_queues f s)
unfolding cancel_queues
cancel_queues-Inv f s v =
    cancel_lane-Inv f background _
      (cancel_lane-Inv f agent _ (cancel_lane-Inv f channel _ (cancel_lane-Inv f user s v)))

interrupt_all-Inv : (bots : List String) (s : Sched) → Inv s → Inv (interrupt_all bots s)
unfolding interrupt_all
interrupt_all-Inv [] s v = v
interrupt_all-Inv (b ∷ bots) s v = interrupt_all-Inv bots _ (outputs-Inv _ s v)

pub cancel-Inv :
    (f : LaneCancelFilter) (s : Sched) {s' : Sched} → cancel f s ≡ some s' → Inv s → Inv s'
unfolding cancel
cancel-Inv f s {s'} e v =
    let cleared = cancel_queues f s in
    let inv =
      cancel_running-Inv f cleared.running cleared [] (cancel_queues-Inv f s v).running_known
        (cancel_queues-Inv f s v) in
    let stopped = cancel_running f cleared.running cleared [] in
    elim (Bool-cases (is_blank f)) [
      | inl blank ↦ absurd (ground arith)
      | inr given ↦
          let same : interrupt_all stopped.1 stopped.0 ≡ s' = ground arith in
          subst Inv same (interrupt_all-Inv stopped.1 stopped.0 inv)
    ]

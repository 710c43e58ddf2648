-- ===== src/Lanes/Keeps.antt =====
-- A dispatch, a push, a cancellation and the end of one item keep the invariant
-- (server/services/lanes.ts).
use velarix_bot.Prelude.{
  ℕ, suc, ◌+◌, ◌≤◌, ◌<◌, String, Bool, [], ◌∷◌, ◌++◌, Option, arith, ◌≡◌, ◌≢◌, ◌==◌, ===_iff,
  if◌then◌else◌, Bool-cases, inl, inr, ltb, ◌⊎◌,
}
use velarix_bot.Prelude.Dict.{
  Dict, delete, get-set, get-delete, AllValues, set-AllValues, delete-AllValues,
}
use velarix_bot.LaneKeys.{SchedulerLane}
use velarix_bot.Lanes.State.{
  queued, LaneItem, Sched, same_lane, update, set_queue, remove_first, emit, persist,
  remember_cancelled, TurnStart, remove_queued, drop_running,
}
use velarix_bot.Lanes.Pump.{dispatch}
use velarix_bot.Lanes.Calls.{is_cancelled, is_running, mark_cancelled, finish, returned, failed}
use velarix_bot.Lanes.Invariant.{
  occurs, Inv, Picked, occurs-append, occurs-remove_first, occurs-remember, length-remember,
  same_lane_iff,
}

lane_cases : (a b : SchedulerLane) → (a ≡ b) ⊎ (a ≢ b)
lane_cases a b = elim (Bool-cases (same_lane a b)) [
  | inl e ↦ inl ((same_lane_iff a b).0 e)
  | inr e ↦ inr (λ same. ground (arith, same_lane_iff a b))
]

module _ (busy : String → Bool) (s s' : Sched) (r : ℕ) (v : Inv s) (p : Picked busy s r s') where
  picked_queued : ((s.heap r).lane ≡ p.lane) × ((s.heap r).status ≡ queued) × (r < s.next_ref)
  picked_queued = v.queued_ok p.lane r (ground (arith, p.was_queued r))

  -- The picked item has left every queue, and nothing has come in.
  picked_gone : (l : SchedulerLane) → occurs r (s'.queues l) ≡ 0
  picked_gone l = elim (lane_cases l p.lane) [
    | inl e ↦ rw e (ground (arith, p.was_queued r, v.queued_once p.lane r))
    | inr n ↦ rw (p.others l n) (elim (Bool-cases (ltb 0 (occurs r (s.queues l)))) [
      | inl there ↦ absurd (n (ground (arith, v.queued_ok l r, picked_queued)))
      | inr gone ↦ ground arith
    ])
  ]

  picked_le : (l : SchedulerLane) (q : ℕ) → occurs q (s'.queues l) ≤ occurs q (s.queues l)
  picked_le l q = elim (lane_cases l p.lane) [
    | inl e ↦ rw e (ground (arith, p.was_queued q))
    | inr n ↦ rw (p.others l n) (omega arith)
  ]

  pub dispatch-Inv : Inv (dispatch r s')
  unfolding dispatch emit persist
  dispatch-Inv = record {
    running_ok = λ bot q h. ground (
      arith,
      p.same_heap,
      p.same_running,
      p.same_next,
      p.free,
      picked_queued,
      v.running_ok bot q,
      get-set (s'.heap r).bot_id bot r s'.running,
      ===_iff (s'.heap r).bot_id bot,
    );
    queued_ok = λ lane q h.
        ground
          (arith, p.same_heap, p.same_next, v.queued_ok lane q, picked_le lane q, picked_gone lane);
    queued_once = λ lane q. omega (arith, v.queued_once lane q, picked_le lane q);
    cancelled_ok = λ q h.
        ground (arith, p.same_heap, p.same_next, p.same_cancelled, v.cancelled_ok q, picked_queued);
    cancelled_short = rw p.same_cancelled v.cancelled_short;
    cursor_ok = p.cursor_le;
    running_known =
        rw (p.same_next, p.same_running)
          (set-AllValues (λ q. q < s.next_ref) (s'.heap r).bot_id r s.running picked_queued.2
            v.running_known);
    dispatched_ok = λ q h.
        ground (arith, p.same_heap, p.same_next, p.same_phase, v.dispatched_ok q, picked_queued);
  }

known_more : (n : ℕ) (m : Dict ℕ) → AllValues (λ r. r < n) m → AllValues (λ r. r < suc n) m
known_more n [] h = tt
known_more n ((k, r) ∷ m) h = (omega arith, known_more n m h.1)

-- At most the entry of one bot has left the running map, and no item has been made.
known_keeps :
    (bot : String) (s s' : Sched)
    → AllValues (λ r. r < s.next_ref) s.running
    → s'.next_ref ≡ s.next_ref
    → (s'.running ≡ s.running) ⊎ (s'.running ≡ delete bot s.running)
    → AllValues (λ r. r < s'.next_ref) s'.running
known_keeps bot s s' h n (inl e) = rw (n, e) h
known_keeps bot s s' h n (inr e) =
    rw (n, e) (delete-AllValues (λ r. r < s.next_ref) bot s.running h)

-- The state that `enqueue` builds before it pumps.
abbrev pub pushed : LaneItem → Sched → Sched
pushed item s = record s {
  heap = update s.heap s.next_ref item;
  next_ref = suc s.next_ref;
  queues = set_queue s.queues item.lane (s.queues item.lane ++ s.next_ref ∷ []);
}

occurs-pushed :
    (item : LaneItem) (s : Sched) (l : SchedulerLane) (q : ℕ)
    → occurs q ((pushed item s).queues l)
      ≡ occurs q (s.queues l)
        + (if same_lane l item.lane then if s.next_ref == q then 1 else 0 else 0)
unfolding occurs
occurs-pushed item s l q = elim (lane_cases l item.lane) [
  | inl e ↦ rw e (
      ground (
        arith,
        same_lane_iff item.lane item.lane,
        occurs-append q (s.queues item.lane) (s.next_ref ∷ []),
      ))
  | inr n ↦ ground (arith, same_lane_iff l item.lane)
]

pub push-Inv :
    (item : LaneItem) (s : Sched)
    → item.status ≡ queued
    → Inv s
    → Inv (emit s.next_ref (pushed item s))
unfolding emit
push-Inv item s h v = record {
  running_ok = λ bot q e. ground (arith, v.running_ok bot q);
  queued_ok = λ lane q e.
      ground (arith, v.queued_ok lane q, occurs-pushed item s lane q, same_lane_iff lane item.lane);
  queued_once = λ lane q.
      ground (arith, v.queued_once lane q, v.queued_ok lane q, occurs-pushed item s lane q);
  cancelled_ok = λ q e. ground (arith, v.cancelled_ok q);
  cancelled_short = v.cancelled_short;
  cursor_ok = v.cursor_ok;
  running_known = known_more s.next_ref s.running v.running_known;
  dispatched_ok = λ q e. ground (arith, v.dispatched_ok q);
}

module _ (r : ℕ) (why : String) (s : Sched) (v : Inv s) (known : r < s.next_ref) where
  pub unqueued_le :
      (l : SchedulerLane) (q : ℕ)
      → occurs q (set_queue s.queues (s.heap r).lane (remove_first r (s.queues (s.heap r).lane)) l)
        ≤ occurs q (s.queues l)
  unqueued_le l q = elim (lane_cases l (s.heap r).lane) [
    | inl e ↦ rw e (
        ground (
          arith,
          same_lane_iff (s.heap r).lane (s.heap r).lane,
          occurs-remove_first r q (s.queues (s.heap r).lane),
        ))
    | inr n ↦ ground (arith, same_lane_iff l (s.heap r).lane)
  ]

  -- A cancelled item is in no queue any more.
  pub unqueued_gone :
      (l : SchedulerLane)
      → occurs r (set_queue s.queues (s.heap r).lane (remove_first r (s.queues (s.heap r).lane)) l)
        ≡ 0
  unqueued_gone l = elim (lane_cases l (s.heap r).lane) [
    | inl e ↦ rw e (
        ground (
          arith,
          same_lane_iff (s.heap r).lane (s.heap r).lane,
          v.queued_once (s.heap r).lane r,
          occurs-remove_first r r (s.queues (s.heap r).lane),
        ))
    | inr n ↦ elim (Bool-cases (ltb 0 (occurs r (s.queues l)))) [
      | inl there ↦ absurd (n (ground (arith, v.queued_ok l r)))
      | inr gone ↦ ground (arith, same_lane_iff l (s.heap r).lane)
    ]
  ]

  pub mark_cancelled-Inv : Inv (mark_cancelled r why s)
  unfolding mark_cancelled emit persist remember_cancelled remove_queued drop_running
  mark_cancelled-Inv = record {
    running_ok = λ bot q e. ground (
      arith,
      v.running_ok bot q,
      get-delete (s.heap r).bot_id bot s.running,
      ===_iff (s.heap r).bot_id bot,
    );
    queued_ok =
        λ lane q e. ground (arith, v.queued_ok lane q, unqueued_le lane q, unqueued_gone lane);
    queued_once = λ lane q. ground (arith, v.queued_once lane q, unqueued_le lane q);
    cancelled_ok = λ q e. ground (arith, v.cancelled_ok q, occurs-remember q r s.cancelled);
    cancelled_short = elim (Bool-cases (is_cancelled (s.heap r).status)) [
      | inl e ↦ rw e (v.cancelled_short)
      | inr e ↦ rw e (length-remember r s.cancelled)
    ];
    cursor_ok = ground (arith, v.cursor_ok);
    running_known =
        known_keeps (s.heap r).bot_id s (mark_cancelled r why s) v.running_known (ground arith)
          (ground arith);
    dispatched_ok = λ q e. ground (arith, v.dispatched_ok q);
  }

  pub failed-Inv : (s.heap r).status ≢ queued → Inv (failed r why s)
  unfolding failed emit persist remember_cancelled drop_running
  failed-Inv started = record {
    running_ok = λ bot q e. ground (
      arith,
      v.running_ok bot q,
      get-delete (s.heap r).bot_id bot s.running,
      ===_iff (s.heap r).bot_id bot,
    );
    queued_ok = λ lane q e. ground (arith, v.queued_ok lane q, v.queued_ok lane r);
    queued_once = λ lane q. ground (arith, v.queued_once lane q);
    cancelled_ok = λ q e. ground (arith, v.cancelled_ok q, occurs-remember q r s.cancelled);
    cancelled_short = elim (Bool-cases (is_running (s.heap r).status)) [
      | inl e ↦ rw e (length-remember r s.cancelled)
      | inr e ↦ rw e (v.cancelled_short)
    ];
    cursor_ok = ground (arith, v.cursor_ok);
    running_known =
        known_keeps (s.heap r).bot_id s (failed r why s) v.running_known (ground arith)
          (ground arith);
    dispatched_ok = λ q e. ground (arith, v.dispatched_ok q);
  }

pub finish-Inv :
    (r : ℕ) (s : Sched) → (s.heap r).status ≢ queued → r < s.next_ref → Inv s → Inv (finish r s)
unfolding finish persist drop_running
finish-Inv r s began known v = record {
  running_ok = λ bot q e. ground (
    arith,
    v.running_ok bot q,
    get-delete (s.heap r).bot_id bot s.running,
    ===_iff (s.heap r).bot_id bot,
  );
  queued_ok = λ lane q e. ground (arith, v.queued_ok lane q);
  queued_once = λ lane q. ground (arith, v.queued_once lane q);
  cancelled_ok = λ q e. ground (arith, v.cancelled_ok q);
  cancelled_short = ground (arith, v.cancelled_short);
  cursor_ok = ground (arith, v.cursor_ok);
  running_known =
      known_keeps (s.heap r).bot_id s (finish r s) v.running_known (ground arith) (ground arith);
  dispatched_ok = λ q e. ground (arith, v.dispatched_ok q);
}

pub returned-Inv :
    (busy : String → Bool) (r : ℕ) (result : Option TurnStart) (s : Sched)
    → (s.heap r).status ≢ queued
    → r < s.next_ref
    → Inv s
    → Inv (returned busy r result s)
unfolding returned finish persist drop_running
returned-Inv busy r result s began known v = record {
  running_ok = λ bot q e. ground (
    arith,
    v.running_ok bot q,
    get-delete (s.heap r).bot_id bot s.running,
    ===_iff (s.heap r).bot_id bot,
  );
  queued_ok = λ lane q e. ground (arith, v.queued_ok lane q);
  queued_once = λ lane q. ground (arith, v.queued_once lane q);
  cancelled_ok = λ q e. ground (arith, v.cancelled_ok q);
  cancelled_short = ground (arith, v.cancelled_short);
  cursor_ok = ground (arith, v.cursor_ok);
  running_known =
      known_keeps (s.heap r).bot_id s (returned busy r result s) v.running_known (ground arith)
        (ground arith);
  dispatched_ok = λ q e. ground (arith, v.dispatched_ok q);
}

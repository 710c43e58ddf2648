-- ===== src/Lanes/Exclusive.antt =====
-- A bot runs one turn at a time (server/services/lanes.ts): what may take a running turn out of the
-- running map.
use velarix_bot.Prelude.{
  ℕ, zero, suc, ◌+◌, String, Bool, true, false, not, List, [], ◌∷◌, ◌&&◌, Option, some, arith, ◌≡◌,
  ◌≢◌, ◌==◌, ===_iff, if◌then◌else◌, Option-cases, Bool-cases, inl, inr, get_or_else, truthy, trim,
}
use velarix_bot.Prelude.Dict.{Dict, get, get-set, get-delete}
use velarix_bot.LaneKeys.{Claim, claimed, claim_error, Table, user, channel, agent, background}
use velarix_bot.Lanes.State.{
  LaneItem, Sched, emit, persist, remember_cancelled, remove_queued, drop_running, TurnStart,
}
use velarix_bot.Lanes.Pump.{pick_next, dispatch, pump_loop, pump}
use velarix_bot.Lanes.Calls.{
  EnqueueResult, LaneEnqueueInput, LaneCancelFilter, enqueue, enqueue_in, push_item, queue_claimed,
  item_of, key_of, matches, is_queued, is_running, mark_cancelled, cancel_queued, cancel_running,
  interrupt_all, cancel_queues, cancel, is_blank, finish, returned, failed, resumed,
}
use velarix_bot.Lanes.Invariant.{Picked, pick_next-Picked}
use velarix_bot.Lanes.History.{Event, enqueues, cancels, returns, fails, resumes, pumps, step}

module _ (bot : String) (r : ℕ) where
  -- `r` is the turn that the bot runs.
  abbrev Runs : Sched → Type 0
  Runs s = get bot s.running ≡ some r

  dispatch-Runs :
      (busy : String → Bool) (s s' : Sched) (q : ℕ)
      → Picked busy s q s'
      → Runs s
      → Runs (dispatch q s')
  unfolding dispatch emit persist
  dispatch-Runs busy s s' q p h = ground (
    arith,
    p.same_running,
    p.same_heap,
    p.free,
    get-set (s'.heap q).bot_id bot q s'.running,
    ===_iff (s'.heap q).bot_id bot,
  )

  pump_loop-Runs :
      (fuel n : ℕ) (busy : ℕ → String → Bool) (s : Sched) → Runs s → Runs (pump_loop fuel n busy s)
  unfolding pump_loop
  pump_loop-Runs zero n busy s h = h
  pump_loop-Runs (suc fuel) n busy s h = elim (Option-cases (pick_next (busy n) s)) [
    | inl e ↦ rw (e, pump_loop) h
    | inr ((q, s'), e) ↦
        rw (e, pump_loop)
          (pump_loop-Runs fuel (n + 1) busy (dispatch q s')
            (dispatch-Runs (busy n) s s' q (pick_next-Picked (busy n) s q s' e) h))
  ]

  pump-Runs : (busy : ℕ → String → Bool) (s : Sched) → Runs s → Runs (pump busy s)
  unfolding pump
  pump-Runs busy s h = pump_loop-Runs _ 0 busy s h

  push_item-Runs :
      (busy : ℕ → String → Bool) (item : LaneItem) (s : Sched)
      → Runs s
      → Runs (push_item busy item s)
  unfolding push_item emit
  push_item-Runs busy item s h = pump-Runs busy _ h

  queue_claimed-Runs :
      (busy : ℕ → String → Bool) (item : LaneItem) (s : Sched) (claim : Table × Claim)
      → Runs s
      → Runs (queue_claimed busy item s claim).0
  unfolding queue_claimed
  queue_claimed-Runs busy item s (keys, claim_error e) h = h
  queue_claimed-Runs busy item s (keys, claimed row true) h =
      push_item-Runs busy item (record s { keys = keys }) h
  queue_claimed-Runs busy item s (keys, claimed row false) h = h

  either-Runs :
      (b : Bool) (x y : Sched × EnqueueResult) → Runs x.0 → Runs y.0 → Runs (if b then x else y).0
  either-Runs true x y h k = h
  either-Runs false x y h k = k

  enqueue-Runs :
      (busy : ℕ → String → Bool) (raced : Option Table) (work_id : String) (at : ℕ)
      (input : LaneEnqueueInput) (s : Sched)
      → Runs s
      → Runs (enqueue busy raced work_id at input s).0
  unfolding enqueue enqueue_in
  enqueue-Runs busy raced work_id at input s h = elim (Option-cases input.lane) [
    | inl unknown ↦ rw (unknown, enqueue) (either-Runs (not (truthy (trim input.bot_id))) _ _ h h)
    | inr (lane, known) ↦
        rw (known, enqueue)
          (either-Runs (not (truthy (trim input.bot_id))) _ _ h (
            either-Runs (not (truthy (key_of input))) _ _
              (push_item-Runs busy (item_of work_id at input lane) s h)
              (queue_claimed-Runs busy (item_of work_id at input lane) s _ h)))
  ]

  mark_cancelled-Runs :
      (q : ℕ) (why : String) (s : Sched) → q ≢ r → Runs s → Runs (mark_cancelled q why s)
  unfolding mark_cancelled emit persist remember_cancelled remove_queued drop_running
  mark_cancelled-Runs q why s n h =
      ground (arith, get-delete (s.heap q).bot_id bot s.running, ===_iff (s.heap q).bot_id bot)

  mark_cancelled-item :
      (q : ℕ) (why : String) (s : Sched) → q ≢ r → (mark_cancelled q why s).heap r ≡ s.heap r
  unfolding mark_cancelled emit persist remember_cancelled remove_queued drop_running
  mark_cancelled-item q why s n = ground arith

  -- `r` runs and the filter does not name it.
  abbrev Spared : LaneCancelFilter → Sched → Type 0
  Spared f s = Runs s × (matches f (s.heap r) ≡ false)

  Spared-by :
      (f : LaneCancelFilter) (q : ℕ) (why : String) (s : Sched)
      → matches f (s.heap q) ≡ true
      → Spared f s
      → Spared f (mark_cancelled q why s)
  Spared-by f q why s m (h, k) =
      let other : q ≢ r = λ e. cc in
      (mark_cancelled-Runs q why s other h, rw (mark_cancelled-item q why s other) k)

  cancel_queued-Spared :
      (f : LaneCancelFilter) (rs : List ℕ) (s : Sched)
      → Spared f s
      → Spared f (cancel_queued f rs s)
  unfolding cancel_queued
  cancel_queued-Spared f [] s h = h
  cancel_queued-Spared f (q ∷ rs) s h =
      elim (Bool-cases (matches f (s.heap q) && is_queued (s.heap q).status)) [
        | inl hit ↦
            rw (hit, cancel_queued)
              (cancel_queued-Spared f rs _
                (Spared-by f q "cancelled: dropped from queue" s (ground arith) h))
        | inr miss ↦ rw (miss, cancel_queued) (cancel_queued-Spared f rs s h)
      ]

  cancel_running-Spared :
      (f : LaneCancelFilter) (m : Dict ℕ) (s : Sched) (bots : List String)
      → Spared f s
      → Spared f (cancel_running f m s bots).0
  unfolding cancel_running
  cancel_running-Spared f [] s bots h = h
  cancel_running-Spared f ((b, q) ∷ m) s bots h =
      elim (Bool-cases (matches f (s.heap q) && is_running (s.heap q).status)) [
        | inl hit ↦
            rw (hit, cancel_running)
              (cancel_running-Spared f m _ _
                (Spared-by f q "cancelled: interrupted running turn" s (ground arith) h))
        | inr miss ↦ rw (miss, cancel_running) (cancel_running-Spared f m s bots h)
      ]

  interrupt_all-Runs : (bots : List String) (s : Sched) → Runs s → Runs (interrupt_all bots s)
  unfolding interrupt_all
  interrupt_all-Runs [] s h = h
  interrupt_all-Runs (b ∷ bots) s h = interrupt_all-Runs bots _ h

  cancel_queues-Spared :
      (f : LaneCancelFilter) (s : Sched) → Spared f s → Spared f (cancel_queues f s)
  unfolding cancel_queues
  cancel_queues-Spared f s h =
      let s1 = cancel_queued f (s.queues user) s in
      let s2 = cancel_queued f (s1.queues channel) s1 in
      let s3 = cancel_queued f (s2.queues agent) s2 in
      cancel_queued-Spared f (s3.queues background) s3 (
        cancel_queued-Spared f (s2.queues agent) s2 (
          cancel_queued-Spared f (s1.queues channel) s1
            (cancel_queued-Spared f (s.queues user) s h)))

  cancel-Runs : (f : LaneCancelFilter) (s : Sched) → Spared f s → Runs (get_or_else (cancel f s) s)
  unfolding cancel
  cancel-Runs f s h =
      let cleared = cancel_queues f s in
      let stopped = cancel_running f cleared.running cleared [] in
      elim (Bool-cases (is_blank f)) [
        | inl blank ↦ rw (blank, cancel) h.0
        | inr given ↦
            rw (given, cancel)
              (interrupt_all-Runs stopped.1 stopped.0
                (cancel_running-Spared f cleared.running cleared [] (cancel_queues-Spared f s h)).0)
      ]

  returned-Runs :
      (busy : String → Bool) (q : ℕ) (result : Option TurnStart) (s : Sched)
      → q ≢ r
      → Runs s
      → Runs (returned busy q result s)
  unfolding returned finish persist drop_running
  returned-Runs busy q result s n h =
      ground (arith, get-delete (s.heap q).bot_id bot s.running, ===_iff (s.heap q).bot_id bot)

  failed-Runs : (q : ℕ) (message : String) (s : Sched) → q ≢ r → Runs s → Runs (failed q message s)
  unfolding failed emit persist remember_cancelled drop_running
  failed-Runs q message s n h =
      ground (arith, get-delete (s.heap q).bot_id bot s.running, ===_iff (s.heap q).bot_id bot)

  resumed-Runs :
      (busy : String → Bool) (noted : String) (q : ℕ) (s : Sched)
      → q ≢ r
      → Runs s
      → Runs (resumed busy noted q s)
  unfolding resumed finish persist drop_running
  resumed-Runs busy noted q s n h =
      ground (arith, get-delete (s.heap q).bot_id bot s.running, ===_iff (s.heap q).bot_id bot)

-- The events that may end the turn `r`: its own return, failure or resumption, and a cancel whose
-- filter matches it.
abbrev pub may_end : Event → ℕ → Sched → Bool
may_end (enqueues busy raced work_id at input) r s = false
may_end (cancels f) r s = matches f (s.heap r)
may_end (returns busy q result) r s = q == r
may_end (fails q message) r s = q == r
may_end (resumes busy noted q) r s = q == r
may_end (pumps busy) r s = false

-- A bot's running turn keeps its place in the running map under every event but those that end it,
-- so the scheduler never starts a second turn of the bot meanwhile.
pub running_kept :
    (s : Sched) (e : Event) (bot : String) (r : ℕ)
    → get bot s.running ≡ some r
    → may_end e r s ≡ false
    → get bot (step s e).running ≡ some r
unfolding step
running_kept s (enqueues busy raced work_id at input) bot r h n =
    enqueue-Runs bot r busy raced work_id at input s h
running_kept s (cancels f) bot r h n = cancel-Runs bot r f s (h, n)
running_kept s (returns busy q result) bot r h n =
    ground (arith, returned-Runs bot r busy q result s)
running_kept s (fails q message) bot r h n = ground (arith, failed-Runs bot r q message s)
running_kept s (resumes busy noted q) bot r h n = ground (arith, resumed-Runs bot r busy noted q s)
running_kept s (pumps busy) bot r h n = pump-Runs bot r busy s h

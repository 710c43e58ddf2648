-- ===== src/Lanes/Cancelling.antt =====
-- What `cancel` leaves behind (server/services/lanes.ts).
use velarix_bot.Prelude.{
  ℕ, ◌≤◌, ◌<◌, String, false, List, [], ◌∷◌, ◌++◌, ◌&&◌, none, some, arith, ◌≡◌, refl, ◌==◌, ◌===◌,
  ===_iff, ==_iff, Bool-cases, inl, inr, subst, ◌∙◌,
}
use velarix_bot.Prelude.Dict.{Dict, get, get-delete, AllValues}
use velarix_bot.LaneKeys.{SchedulerLane}
use velarix_bot.Lanes.State.{
  Sched, emit, persist, remember_cancelled, remove_queued, drop_running, queued,
}
use velarix_bot.Lanes.Calls.{
  LaneCancelFilter, matches, is_queued, is_running, mark_cancelled, cancel_queued, cancel_running,
}
use velarix_bot.Lanes.Invariant.{occurs, Inv}
use velarix_bot.Lanes.Keeps.{unqueued_le, unqueued_gone, mark_cancelled-Inv}
use velarix_bot.Lanes.Safety.{Known, mark_cancelled-next}

-- From `s` to `s'` items have only left the queues and the running map, and the filter judges them
-- as before.
pub record Shrinks (f : LaneCancelFilter) (s s' : Sched) : Type 0 where
  pub queue_le :
      (lane : SchedulerLane) (r : ℕ) → occurs r (s'.queues lane) ≤ occurs r (s.queues lane)
  pub same_match : (r : ℕ) → matches f (s'.heap r) ≡ matches f (s.heap r)
  pub running_sub :
      (bot : String) (r : ℕ) → get bot s'.running ≡ some r → get bot s.running ≡ some r

pub Shrinks-refl : (f : LaneCancelFilter) (s : Sched) → Shrinks f s s
Shrinks-refl f s = record {
  queue_le = λ lane r. omega arith;
  same_match = λ r. refl;
  running_sub = λ bot r e. e;
}

pub Shrinks-trans :
    (f : LaneCancelFilter) (s t u : Sched) → Shrinks f s t → Shrinks f t u → Shrinks f s u
Shrinks-trans f s t u h k = record {
  queue_le = λ lane r. omega (arith, h.queue_le lane r, k.queue_le lane r);
  same_match = λ r. k.same_match r ∙ h.same_match r;
  running_sub = λ bot r e. h.running_sub bot r (k.running_sub bot r e);
}

module _ (f : LaneCancelFilter) where
  mark_cancelled-Shrinks :
      (q : ℕ) (why : String) (s : Sched)
      → Inv s
      → q < s.next_ref
      → Shrinks f s (mark_cancelled q why s)
  unfolding mark_cancelled emit persist remember_cancelled remove_queued drop_running matches
  mark_cancelled-Shrinks q why s v k = record {
    queue_le = λ lane r. ground (arith, unqueued_le q why s v k lane r);
    same_match = λ r. ground arith;
    running_sub = λ bot r e.
        ground (arith, get-delete (s.heap q).bot_id bot s.running, ===_iff (s.heap q).bot_id bot);
  }

  mark_cancelled_gone :
      (q : ℕ) (why : String) (s : Sched) (lane : SchedulerLane)
      → Inv s
      → q < s.next_ref
      → (s.heap q).status ≡ queued
      → occurs q ((mark_cancelled q why s).queues lane) ≡ 0
  unfolding mark_cancelled emit persist remember_cancelled remove_queued drop_running
  mark_cancelled_gone q why s lane v k e = ground (arith, unqueued_gone q why s v k lane)

  mark_cancelled_stopped :
      (q : ℕ) (why bot : String) (s : Sched)
      → Inv s
      → get bot s.running ≡ some q
      → get bot (mark_cancelled q why s).running ≡ none
  unfolding mark_cancelled emit persist remember_cancelled remove_queued drop_running
  mark_cancelled_stopped q why bot s v e = ground (
    arith,
    v.running_ok bot q,
    get-delete (s.heap q).bot_id bot s.running,
    ===_iff (s.heap q).bot_id bot,
  )

  pub cancel_queued-Shrinks :
      (rs : List ℕ) (s : Sched) → Known s.next_ref rs → Inv s → Shrinks f s (cancel_queued f rs s)
  unfolding cancel_queued
  cancel_queued-Shrinks [] s k v = Shrinks-refl f s
  cancel_queued-Shrinks (q ∷ rs) s (kq, k) v =
      elim (Bool-cases (matches f (s.heap q) && is_queued (s.heap q).status)) [
        | inl hit ↦
            let why : String = "cancelled: dropped from queue" in
            let s1 = mark_cancelled q why s in
            rw (hit, cancel_queued)
              (Shrinks-trans f s s1 (cancel_queued f rs s1) (mark_cancelled-Shrinks q why s v kq) (
                cancel_queued-Shrinks rs s1 (rw (mark_cancelled-next q why s) k)
                  (mark_cancelled-Inv q why s v kq)))
        | inr miss ↦ rw (miss, cancel_queued) (cancel_queued-Shrinks rs s k v)
      ]

  -- What of the list is still queued at the end does not match.
  pub cancel_queued-clears :
      (rs : List ℕ) (s : Sched) (lane : SchedulerLane) (r : ℕ)
      → Known s.next_ref rs
      → Inv s
      → 0 < occurs r rs
      → 0 < occurs r ((cancel_queued f rs s).queues lane)
      → matches f ((cancel_queued f rs s).heap r) ≡ false
  unfolding cancel_queued occurs
  cancel_queued-clears [] s lane r k v h q = absurd (omega arith)
  cancel_queued-clears (q ∷ rs) s lane r (kq, k) v h left =
      let why : String = "cancelled: dropped from queue" in
      let s1 = mark_cancelled q why s in
      let inv1 = mark_cancelled-Inv q why s v kq in
      let k1 : Known s1.next_ref rs = rw (mark_cancelled-next q why s) k in
      elim (Bool-cases (matches f (s.heap q) && is_queued (s.heap q).status)) [
        | inl hit ↦
            let left1 : 0 < occurs r ((cancel_queued f rs s1).queues lane) =
              rw (hit, cancel_queued) at left in
            rw (hit, cancel_queued)
              (elim (Bool-cases (q == r)) [
                | inl same ↦
                    let there = (cancel_queued-Shrinks rs s1 k1 inv1).queue_le lane r in
                    let gone : occurs r (s1.queues lane) ≡ 0 =
                      subst (λ x. occurs x (s1.queues lane) ≡ 0) ((==_iff q r).0 same)
                        (mark_cancelled_gone q why s lane v kq (ground arith)) in
                    absurd (omega arith)
                | inr other ↦ cancel_queued-clears rs s1 lane r k1 inv1 (ground arith) left1
              ])
        | inr miss ↦
            let left1 : 0 < occurs r ((cancel_queued f rs s).queues lane) =
              rw (miss, cancel_queued) at left in
            rw (miss, cancel_queued)
              (elim (Bool-cases (q == r)) [
                | inl same ↦
                    let shrinks = cancel_queued-Shrinks rs s k v in
                    let status : (s.heap r).status ≡ queued =
                      (v.queued_ok lane r (omega (arith, shrinks.queue_le lane r))).1 in
                    shrinks.same_match r ∙ ground arith
                | inr other ↦ cancel_queued-clears rs s lane r k v (ground arith) left1
              ])
      ]

  pub cancel_running-Shrinks :
      (m : Dict ℕ) (s : Sched) (bots : List String)
      → AllValues (λ r. r < s.next_ref) m
      → Inv s
      → Shrinks f s (cancel_running f m s bots).0
  unfolding cancel_running
  cancel_running-Shrinks [] s bots k v = Shrinks-refl f s
  cancel_running-Shrinks ((b, q) ∷ m) s bots (kq, k) v =
      elim (Bool-cases (matches f (s.heap q) && is_running (s.heap q).status)) [
        | inl hit ↦
            let why : String = "cancelled: interrupted running turn" in
            let s1 = mark_cancelled q why s in
            let more : List String = bots ++ (s.heap q).bot_id ∷ [] in
            rw (hit, cancel_running)
              (Shrinks-trans f s s1 (cancel_running f m s1 more).0
                (mark_cancelled-Shrinks q why s v kq)
                (cancel_running-Shrinks m s1 more (rw (mark_cancelled-next q why s) k)
                  (mark_cancelled-Inv q why s v kq)))
        | inr miss ↦ rw (miss, cancel_running) (cancel_running-Shrinks m s bots k v)
      ]

  -- What of the listed turns still runs at the end does not match.
  pub cancel_running-clears :
      (m : Dict ℕ) (s : Sched) (bots : List String) (bot : String) (r : ℕ)
      → AllValues (λ r. r < s.next_ref) m
      → Inv s
      → get bot m ≡ some r
      → get bot (cancel_running f m s bots).0.running ≡ some r
      → matches f ((cancel_running f m s bots).0.heap r) ≡ false
  unfolding cancel_running get
  cancel_running-clears [] s bots bot r k v e left = absurd (ground arith)
  cancel_running-clears ((b, q) ∷ m) s bots bot r (kq, k) v e left =
      let why : String = "cancelled: interrupted running turn" in
      let s1 = mark_cancelled q why s in
      let more : List String = bots ++ (s.heap q).bot_id ∷ [] in
      let inv1 = mark_cancelled-Inv q why s v kq in
      let k1 : AllValues (λ r. r < s1.next_ref) m = rw (mark_cancelled-next q why s) k in
      elim (Bool-cases (matches f (s.heap q) && is_running (s.heap q).status)) [
        | inl hit ↦
            let left1 : get bot (cancel_running f m s1 more).0.running ≡ some r =
              rw (hit, cancel_running) at left in
            rw (hit, cancel_running)
              (elim (Bool-cases (b === bot)) [
                | inl same ↦
                    let there =
                      (cancel_running-Shrinks m s1 more k1 inv1).running_sub bot r left1 in
                    let before = (mark_cancelled-Shrinks q why s v kq).running_sub bot r there in
                    let it : q ≡ r = ground arith in
                    let stopped = mark_cancelled_stopped q why bot s v (rw it before) in absurd (cc)
                | inr other ↦ cancel_running-clears m s1 more bot r k1 inv1 (ground arith) left1
              ])
        | inr miss ↦
            let left1 : get bot (cancel_running f m s bots).0.running ≡ some r =
              rw (miss, cancel_running) at left in
            rw (miss, cancel_running)
              (elim (Bool-cases (b === bot)) [
                | inl same ↦
                    let shrinks = cancel_running-Shrinks m s bots k v in
                    let it : q ≡ r = ground arith in
                    let status = (v.running_ok bot r (shrinks.running_sub bot r left1)).1 in
                    shrinks.same_match r ∙ ground arith
                | inr other ↦ cancel_running-clears m s bots bot r k v (ground arith) left1
              ])
      ]

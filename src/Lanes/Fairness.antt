-- ===== src/Lanes/Fairness.antt =====
-- Round robin: no lane starves another (`pickNext` of server/services/lanes.ts).
use velarix_bot.Prelude.{
  ℕ, zero, suc, ◌+◌, ◌-◌, ◌%◌, ◌≤◌, ◌<◌, String, Bool, true, false, List, [], ◌∷◌, Option, none,
  some, arith, ◌≡◌, refl, ◌⊎◌, inl, inr, any, Option-cases, ap, ◌∙◌, subst, sym, Bool-cases, ◌≢◌,
  ℕ_discrete,
}
use velarix_bot.LaneKeys.{SchedulerLane, user, channel, agent, background}
use velarix_bot.Lanes.State.{Sched, lane_index, lane_at, set_queue}
use velarix_bot.Lanes.Pump.{take_first, eligible, pick_from, pick_next}

-- How many lanes are asked before `lane`.
abbrev pub distance : ℕ → SchedulerLane → ℕ
distance cursor lane = (lane_index lane + 4 - cursor) % 4

pub lane_at-lane_index : (l : SchedulerLane) → lane_at (lane_index l) ≡ l
lane_at-lane_index user = refl
lane_at-lane_index channel = refl
lane_at-lane_index agent = refl
lane_at-lane_index background = refl

pub lane_index-lt : (l : SchedulerLane) → lane_index l < 4
lane_index-lt user = omega arith
lane_index-lt channel = omega arith
lane_index-lt agent = omega arith
lane_index-lt background = omega arith

-- `findIndex` finds an item exactly when `some` says that there is one.
pub take_first-none : (p : ℕ → Bool) (rs : List ℕ) → take_first p rs ≡ none → any p rs ≡ false
unfolding take_first
take_first-none p [] e = refl
take_first-none p (r ∷ rs) e = ground (arith, take_first-none p rs)

-- The lane `served` loses the first of its items whose bot is free, `r`; nothing else changes but the
-- cursor, which stands behind that lane.
pub record Serves (busy : String → Bool) (s : Sched) (served : SchedulerLane) (r : ℕ) (s' : Sched)
    : Type 0 where
  pub rest : List ℕ
  pub first : take_first (eligible busy s) (s.queues served) ≡ some (r, rest)
  pub is_free : eligible busy s r ≡ true
  pub picked :
      s' ≡ record s { queues = set_queue s.queues served rest; cursor = lane_index served + 1 }

-- The lane is served, or another one is and this lane is nearer to its turn.
abbrev pub ComesNearer : (String → Bool) → Sched → SchedulerLane → Option (ℕ × Sched) → Type 0
ComesNearer busy s lane picked =
    (r : ℕ) × (s' : Sched) × (served : SchedulerLane) × (picked ≡ some (r, s'))
    × Serves busy s served r s'
    × ((served ≡ lane) ⊎ (distance s'.cursor lane < distance s.cursor lane))

reached_lane :
    (s : Sched) (lane : SchedulerLane) (offset : ℕ)
    → s.cursor ≤ 4
    → offset ≡ distance s.cursor lane
    → lane_at ((s.cursor + offset) % 4) ≡ lane
reached_lane s lane offset c e =
    let here : (s.cursor + offset) % 4 ≡ lane_index lane = omega (arith, lane_index-lt lane) in
    ap lane_at here ∙ lane_at-lane_index lane

-- A lane that was asked at its turn has nothing for a bot that is free.
turn_passed :
    (busy : String → Bool) (s : Sched) (lane : SchedulerLane) (offset : ℕ)
    → s.cursor ≤ 4
    → any (eligible busy s) (s.queues lane) ≡ true
    → take_first (eligible busy s) (s.queues (lane_at ((s.cursor + offset) % 4))) ≡ none
    → offset ≢ distance s.cursor lane
turn_passed busy s lane offset c h e same =
    let there = reached_lane s lane offset c same in
    let nothing : any (eligible busy s) (s.queues lane) ≡ false =
      subst (λ l. any (eligible busy s) (s.queues l) ≡ false) there (take_first-none _ _ e) in
    cc

comes_nearer :
    (c o i : ℕ)
    → c ≤ 4
    → i < 4
    → o ≤ (i + 4 - c) % 4
    → ((c + o) % 4 ≡ i) ⊎ ((i + 4 - ((c + o) % 4 + 1)) % 4 < (i + 4 - c) % 4)
comes_nearer c o i hc hi ho = elim (ℕ_discrete o ((i + 4 - c) % 4)) [
  | yes e ↦ inl (omega arith)
  | no n ↦ inr (omega arith)
]

same_lane_reached : (i : ℕ) (lane : SchedulerLane) → i ≡ lane_index lane → lane_at i ≡ lane
same_lane_reached i lane e = ap lane_at e ∙ lane_at-lane_index lane

served_or_nearer :
    (s : Sched) (lane : SchedulerLane) (offset : ℕ)
    → s.cursor ≤ 4
    → offset ≤ distance s.cursor lane
    → let at = (s.cursor + offset) % 4 in
      (lane_at at ≡ lane) ⊎ (distance (at + 1) lane < distance s.cursor lane)
served_or_nearer s lane offset c d =
    elim (comes_nearer s.cursor offset (lane_index lane) c (lane_index-lt lane) d) [
      | inl e ↦ inl (same_lane_reached _ lane e)
      | inr n ↦ inr n
    ]

take_first-free :
    (p : ℕ → Bool) (rs : List ℕ) {r : ℕ} {rest : List ℕ}
    → take_first p rs ≡ some (r, rest)
    → p r ≡ true
unfolding take_first
take_first-free p [] e = absurd (ground arith)
take_first-free p (q ∷ qs) {r} {rest} e = elim (Bool-cases (p q)) [
  | inl h ↦ ground arith
  | inr h ↦ elim (Option-cases (take_first p qs)) [
    | inl n ↦ absurd (ground arith)
    | inr ((r', rest'), n) ↦ ground (arith, take_first-free p qs n)
  ]
]

lane_index-lane_at : (i : ℕ) → i < 4 → lane_index (lane_at i) ≡ i
lane_index-lane_at i h = ground arith

serves :
    (busy : String → Bool) (s : Sched) (offset r : ℕ) (rest : List ℕ)
    → let at = (s.cursor + offset) % 4 in
      take_first (eligible busy s) (s.queues (lane_at at)) ≡ some (r, rest)
      → Serves busy s
          (lane_at at)
          r
          (record s { queues = set_queue s.queues (lane_at at) rest; cursor = at + 1 })
serves busy s offset r rest e =
    let at = (s.cursor + offset) % 4 in
    let i : lane_index (lane_at at) ≡ at = lane_index-lane_at at (omega arith) in
    record {
      rest = rest;
      first = e;
      is_free = take_first-free (eligible busy s) (s.queues (lane_at at)) e;
      picked =
          ap (λ j. record s { queues = set_queue s.queues (lane_at at) rest; cursor = j + 1 })
            (sym i);
    }

pick_from-fair :
    (busy : String → Bool) (s : Sched) (lane : SchedulerLane) (left offset : ℕ)
    → s.cursor ≤ 4
    → left + offset ≡ 4
    → offset ≤ distance s.cursor lane
    → any (eligible busy s) (s.queues lane) ≡ true
    → ComesNearer busy s lane (pick_from busy s left offset)
unfolding pick_from
pick_from-fair busy s lane zero offset c n d h = absurd (omega (arith, lane_index-lt lane))
pick_from-fair busy s lane (suc left) offset c n d h =
    elim (Option-cases
      (take_first (eligible busy s) (s.queues (lane_at ((s.cursor + offset) % 4))))) [
        | inl e ↦
            let passed = turn_passed busy s lane offset c h e in
            rw (e, pick_from)
              (pick_from-fair busy s lane left (offset + 1) c (omega arith) (omega (arith, passed))
                h)
        | inr ((r, rest), e) ↦
            rw (e, pick_from)
              (r, _, _, refl, serves busy s offset r rest e, served_or_nearer s lane offset c d)
      ]

pub pick_next-fair :
    (busy : String → Bool) (s : Sched) (lane : SchedulerLane)
    → s.cursor ≤ 4
    → any (eligible busy s) (s.queues lane) ≡ true
    → ComesNearer busy s lane (pick_next busy s)
unfolding pick_next
pick_next-fair busy s lane c h = pick_from-fair busy s lane 4 0 c refl (omega arith) h

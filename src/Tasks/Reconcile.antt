-- ===== src/Tasks/Reconcile.antt =====
-- What a pass over the blocked tasks leaves (`reconcileStaleBlocked` of server/agent-tasks.ts).
use mathlib.Core.List.{Memᴰ}
use velarix_bot.Prelude.{
  ℕ, ◌+◌, String, true, false, List, [], ◌∷◌, none, some, arith, ◌≡◌, ◌≢◌, refl, sym, subst, ◌∙◌,
  ◌⊎◌, inl, inr, Bool-cases, Option-cases, ◌===◌, ===_iff, ===_refl, truthy, ltb, ◌≤◌,
}
use velarix_bot.Prelude.Dict.{get, get-set}
use velarix_bot.Tasks.Task.{
  stale, AgentTask, has_ids, trimmed, blocked_stale_after_ms, is_blocked_past_staleness, is_blocked,
  has_structured_blocker, should_persist_stale, coerce_task_state, normalize_agent_task,
  normal_form,
}
use velarix_bot.Tasks.Store.{Rows, TaskPatch, merge, list, sort_by_time, insert_by_time, update}
use velarix_bot.Tasks.Calls.{to_state, reconcile_all, reconcile_stale_blocked, list_agent_tasks}

-- Each task stands under its id and names its bots and its thread.
abbrev pub Sound : Rows → Type 0
Sound rows = (k : String) (t : AgentTask) → get k rows ≡ some t → (t.id ≡ k) × (has_ids t ≡ true)

abbrev pub Settled : ℕ → String → Rows → Type 0
Settled now id rows = (t : AgentTask) → get id rows ≡ some t → should_persist_stale t now ≡ false

pub update-other :
    (id other : String) (patch : TaskPatch) (rows : Rows)
    → id ≢ other
    → get other (update id patch rows).0 ≡ get other rows
unfolding update
update-other id other patch rows d = grind (arith, get-set, ===_iff)

-- What an update writes over a task that names its bots.
pub update-same :
    (id : String) (patch : TaskPatch) (rows : Rows) (t : AgentTask)
    → get id rows ≡ some t
    → (t.id ≡ id) × (has_ids t ≡ true)
    → let next = normal_form (record (merge t patch) { id = id }) in
      (get id (update id patch rows).0 ≡ some next) × ((update id patch rows).1 ≡ some next)
unfolding update normalize_agent_task
update-same id patch rows t e (same, h) =
    let next = record (merge t patch) { id = id } in
    let h' : has_ids next ≡ true = rw same at h in
    ground (arith, e, h', get-set id id (normal_form next) rows, ===_refl id)

-- An update of a missing task writes nothing.
pub update-none :
    (id : String) (patch : TaskPatch) (rows : Rows)
    → get id rows ≡ none
    → update id patch rows ≡ (rows, none)
unfolding update
update-none id patch rows e = rw (e, update) refl

update-IsSound :
    (id : String) (patch : TaskPatch) (rows : Rows) (t : AgentTask)
    → Sound rows
    → get id (update id patch rows).0 ≡ some t
    → (t.id ≡ id) × (has_ids t ≡ true)
unfolding normal_form
update-IsSound id patch rows t h e = elim (Option-cases (get id rows)) [
  | inl q ↦ absurd (ground (arith, q, update-none id patch rows q))
  | inr (u, q) ↦
      let next : AgentTask = record (merge u patch) { id = id } in
      let (same, ids) = h id u q in
      let ids' : has_ids next ≡ true = rw same at ids in
      let eq : normal_form next ≡ t =
        ground (arith, (update-same id patch rows u q (same, ids)).0) in
      subst (λ z. (z.id ≡ id) × (has_ids z ≡ true)) eq (refl, ids')
]

pub update-Sound :
    (id : String) (patch : TaskPatch) (rows : Rows) → Sound rows → Sound (update id patch rows).0
update-Sound id patch rows h k t e = elim (Bool-cases (id === k)) [
  | inl q ↦
      let eq : id ≡ k = (===_iff id k).0 q in
      subst (λ z. (t.id ≡ z) × (has_ids t ≡ true)) eq
        (update-IsSound id patch rows t h
          (subst (λ z. get z (update id patch rows).0 ≡ some t) (sym eq) e))
  | inr q ↦
      h k t (sym (update-other id k patch rows (λ d. absurd (ground (arith, ===_iff id k, d)))) ∙ e)
]

stale-IsSettled :
    (now : ℕ) (t : AgentTask) → t.state ≡ stale → should_persist_stale (normal_form t) now ≡ false
unfolding should_persist_stale normal_form coerce_task_state
stale-IsSettled now t e = rw e (ground arith)

-- Marking a task as stale settles it, and leaves settled what is.
mark-IsSettled :
    (now : ℕ) (id : String) (rows : Rows)
    → Sound rows
    → Settled now id (update id (to_state stale) rows).0
mark-IsSettled now id rows h t e = elim (Option-cases (get id rows)) [
  | inl q ↦ absurd (ground (arith, q, update-none id (to_state stale) rows q))
  | inr (u, q) ↦
      let next : AgentTask = record (merge u (to_state stale)) { id = id } in
      let eq : normal_form next ≡ t =
        ground (arith, (update-same id (to_state stale) rows u q (h id u q)).0) in
      subst (λ z. should_persist_stale z now ≡ false) eq (stale-IsSettled now next refl)
]

mark-Settled :
    (now : ℕ) (id other : String) (rows : Rows)
    → Sound rows
    → (id ≡ other) ⊎ Settled now other rows
    → Settled now other (update id (to_state stale) rows).0
mark-Settled now id other rows h c = elim (Bool-cases (id === other)) [
  | inl q ↦
      subst (λ z. Settled now z (update id (to_state stale) rows).0) ((===_iff id other).0 q)
        (mark-IsSettled now id rows h)
  | inr q ↦ elim c [
    | inl e ↦ absurd (ground (arith, ===_iff id other, q, e))
    | inr s ↦ λ t e. s t (
        sym (
          update-other id other (to_state stale) rows
            (λ d. absurd (ground (arith, ===_iff id other, d))))
        ∙ e)
  ]
]

Memᴰ_sorted :
    (t x : AgentTask) (xs : List AgentTask) → (t ≡ x) ⊎ Memᴰ t xs → Memᴰ t (insert_by_time x xs)
unfolding insert_by_time
Memᴰ_sorted t x [] (inl e) = Memᴰ.head e
Memᴰ_sorted t x [] (inr m) = elim m [ ]
Memᴰ_sorted t x (y ∷ ys) h = elim (Bool-cases (ltb y.created_at x.created_at)) [
  | inl q ↦
      rw (q, insert_by_time)
        (elim h [
          | inl e ↦ Memᴰ.tail (Memᴰ_sorted t x ys (inl e))
          | inr (Memᴰ.head e) ↦ Memᴰ.head e
          | inr (Memᴰ.tail m) ↦ Memᴰ.tail (Memᴰ_sorted t x ys (inr m))
        ])
  | inr q ↦ rw (q, insert_by_time) (elim h [ inl e ↦ Memᴰ.head e | inr m ↦ Memᴰ.tail m ])
]

get-Memᴰ : (id : String) (rows : Rows) (t : AgentTask) → get id rows ≡ some t → Memᴰ t (list rows)
unfolding get list sort_by_time
get-Memᴰ id [] t e = absurd (ground arith)
get-Memᴰ id ((k, u) ∷ rows) t e = elim (Bool-cases (k === id)) [
  | inl q ↦ Memᴰ_sorted t u (list rows) (inl (ground (arith, q)))
  | inr q ↦ Memᴰ_sorted t u (list rows) (inr (get-Memᴰ id rows t (ground (arith, q))))
]

reconcile_all-Settled :
    (now : ℕ) (id : String) (ts : List AgentTask) (rows : Rows)
    → Sound rows
    → Settled now id rows ⊎ ((t : AgentTask) × (get id rows ≡ some t) × Memᴰ t ts)
    → Settled now id (reconcile_all now ts rows).0 × Sound (reconcile_all now ts rows).0
unfolding reconcile_all
reconcile_all-Settled now id [] rows h (inl s) = (s, h)
reconcile_all-Settled now id [] rows h (inr (t, e, m)) = elim m [ ]
reconcile_all-Settled now id (x ∷ xs) rows h c = elim (Bool-cases (should_persist_stale x now)) [
  | inl q ↦
      rw (q, reconcile_all)
        (reconcile_all-Settled now id xs (update x.id (to_state stale) rows).0
          (update-Sound x.id (to_state stale) rows h)
          (elim c [
            | inl s ↦ inl (mark-Settled now x.id id rows h (inr s))
            | inr (t, e, m) ↦ elim (Bool-cases (x.id === id)) [
              | inl k ↦ inl (mark-Settled now x.id id rows h (inl ((===_iff x.id id).0 k)))
              | inr k ↦ elim m [
                | Memᴰ.head d ↦ absurd (
                    let same : x.id ≡ id = subst (λ z. z.id ≡ id) d (h id t e).0 in
                    ground (arith, k, ===_iff x.id id, same))
                | Memᴰ.tail m' ↦ inr (
                  t,
                  update-other x.id id (to_state stale) rows
                        (λ d. absurd (ground (arith, ===_iff x.id id, d)))
                      ∙ e,
                  m',
                )
              ]
            ]
          ]))
  | inr q ↦
      rw (q, reconcile_all)
        (reconcile_all-Settled now id xs rows h (elim c [
          | inl s ↦ inl s
          | inr (t, e, Memᴰ.head d) ↦ inl (λ u k.
              let same : x ≡ u = ground (arith, d, e, k) in
              subst (λ z. should_persist_stale z now ≡ false) same q)
          | inr (t, e, Memᴰ.tail m) ↦ inr (t, e, m)
        ]))
]

-- A task that is there stays there.
update-is_there :
    (id other : String) (patch : TaskPatch) (rows : Rows) (t : AgentTask)
    → Sound rows
    → get other rows ≡ some t
    → (u : AgentTask) × (get other (update id patch rows).0 ≡ some u)
update-is_there id other patch rows t h e = elim (Bool-cases (id === other)) [
  | inl q ↦
      let eq : other ≡ id = sym ((===_iff id other).0 q) in
      let next : AgentTask = normal_form (record (merge t patch) { id = other }) in
      (
        next,
        subst (λ z. get other (update z patch rows).0 ≡ some next) eq
            (update-same other patch rows t e (h other t e)).0,
      )
  | inr q ↦
      (t, update-other id other patch rows (λ d. absurd (ground (arith, ===_iff id other, d))) ∙ e)
]

reconcile_all-is_there :
    (now : ℕ) (id : String) (ts : List AgentTask) (rows : Rows) (t : AgentTask)
    → Sound rows
    → get id rows ≡ some t
    → (u : AgentTask) × (get id (reconcile_all now ts rows).0 ≡ some u)
unfolding reconcile_all
reconcile_all-is_there now id [] rows t h e = (t, e)
reconcile_all-is_there now id (x ∷ xs) rows t h e = elim (Bool-cases (should_persist_stale x now)) [
  | inl q ↦
      let (u, k) = update-is_there x.id id (to_state stale) rows t h e in
      rw (q, reconcile_all)
        (reconcile_all-is_there now id xs (update x.id (to_state stale) rows).0 u
          (update-Sound x.id (to_state stale) rows h) k)
  | inr q ↦ rw (q, reconcile_all) (reconcile_all-is_there now id xs rows t h e)
]

pub reconcile_stale_blocked-is_there :
    (now : ℕ) (id : String) (rows : Rows) (t : AgentTask)
    → Sound rows
    → get id rows ≡ some t
    → (u : AgentTask) × (get id (reconcile_stale_blocked now rows).0 ≡ some u)
unfolding reconcile_stale_blocked
reconcile_stale_blocked-is_there now id rows t h e =
    reconcile_all-is_there now id (list rows) rows t h e

pub reconcile_stale_blocked-Settled :
    (now : ℕ) (id : String) (rows : Rows)
    → Sound rows
    → Settled now id (reconcile_stale_blocked now rows).0
      × Sound (reconcile_stale_blocked now rows).0
unfolding reconcile_stale_blocked
reconcile_stale_blocked-Settled now id rows h =
    reconcile_all-Settled now id (list rows) rows h (elim (Option-cases (get id rows)) [
      | inl q ↦ inl (λ t e. absurd (ground (arith, q, e)))
      | inr (t, q) ↦ inr (t, q, get-Memᴰ id rows t q)
    ])

-- After the tasks are listed each blocked task has a blocker, an owner and a next action that are not
-- blank, and was updated no more than the limit ago; the others are stale.
pub list_agent_tasks-structured :
    (now : ℕ) (rows : Rows) (id : String) (t : AgentTask)
    → Sound rows
    → get id (list_agent_tasks now rows).0 ≡ some t
    → is_blocked t.state ≡ true
    → (truthy (trimmed t.blocker) ≡ true)
      × (truthy (trimmed t.blocker_owner) ≡ true)
      × (truthy (trimmed t.next_action) ≡ true)
      × (now ≤ t.updated_at + blocked_stale_after_ms)
unfolding list_agent_tasks should_persist_stale has_structured_blocker is_blocked_past_staleness
list_agent_tasks-structured now rows id t h e b =
    let settled = (reconcile_stale_blocked-Settled now id rows h).0 t e in
    ground (arith, settled, b)

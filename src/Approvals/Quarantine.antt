-- ===== src/Approvals/Quarantine.antt =====
-- The boot pass that parks legacy rules (`quarantineLegacyRules` of server/approvals.ts).
use mathlib.Core.List.{Memᴰ}
use velarix_bot.Prelude.{
  ℕ, String, true, false, not, List, [], ◌∷◌, map, ◌||◌, none, arith, ◌≡◌, ◌≢◌, refl, sym, subst,
  ◌⊎◌, inl, inr, Bool-cases, ◌===◌, ===_iff, if◌then◌else◌, truthy, All, any,
}
use velarix_bot.Prelude.Dict.{Dict, get, get-set}
use velarix_bot.Approvals.Rules.{
  ApprovalRule, Store, workspace_scope, load_rules, save_rules, append_audit,
}
use velarix_bot.Approvals.Calls.{
  needs_quarantine, park, count_needing, log_parked, quarantine_scope, quarantine_scopes,
  quarantine_legacy_rules,
}

count_needing-park :
    (scope : String) (rules : List ApprovalRule) → count_needing scope (map (park scope) rules) ≡ 0
unfolding count_needing park needs_quarantine
count_needing-park scope [] = refl
count_needing-park scope (r ∷ rules) = ground (arith, count_needing-park scope rules)

count_needing-none :
    (scope : String) (rules : List ApprovalRule)
    → count_needing scope rules ≡ 0
    → map (park scope) rules ≡ rules
unfolding count_needing park
count_needing-none scope [] h = refl
count_needing-none scope (r ∷ rules) h = ground (arith, count_needing-none scope rules)

-- The pass over one scope and over all.
module _ (redact : String → String) where
  log_parked-rules :
      (now : ℕ) (scope : String) (rules : List ApprovalRule) (s : Store)
      → (log_parked redact now scope rules s).rules ≡ s.rules
  unfolding log_parked append_audit
  log_parked-rules now scope [] s = refl
  log_parked-rules now scope (r ∷ rules) s = elim (Bool-cases (needs_quarantine scope r)) [
    | inl q ↦ rw (q, log_parked) (log_parked-rules now scope rules _)
    | inr q ↦ rw (q, log_parked) (log_parked-rules now scope rules s)
  ]

  log_parked-none :
      (now : ℕ) (scope : String) (rules : List ApprovalRule) (s : Store)
      → count_needing scope rules ≡ 0
      → log_parked redact now scope rules s ≡ s
  unfolding log_parked count_needing
  log_parked-none now scope [] s h = refl
  log_parked-none now scope (r ∷ rules) s h = elim (Bool-cases (needs_quarantine scope r)) [
    | inl q ↦ absurd (ground arith)
    | inr q ↦ rw (q, log_parked) (log_parked-none now scope rules s (ground arith))
  ]

  -- The rules of each scope after one scope was visited.
  quarantine_scope-load :
      (now : ℕ) (scope other : String) (s : Store)
      → load_rules other (quarantine_scope redact now scope s)
        ≡ (if scope === other then map (park scope) (load_rules scope s) else load_rules other s)
  unfolding quarantine_scope save_rules load_rules
  quarantine_scope-load now scope other s = grind (
    arith,
    log_parked-rules now scope (load_rules scope s) s,
    get-set,
    ===_iff,
    count_needing-none scope (load_rules scope s),
  )

  quarantine_scope-count :
      (now : ℕ) (scope other : String) (s : Store)
      → (scope ≡ other) ⊎ (count_needing other (load_rules other s) ≡ 0)
      → count_needing other (load_rules other (quarantine_scope redact now scope s)) ≡ 0
  quarantine_scope-count now scope other s h =
      rw (quarantine_scope-load now scope other s)
        (grind (arith, h, ===_iff scope other, count_needing-park other (load_rules other s)))

  quarantine_scopes-count :
      (now : ℕ) (scopes : List String) (other : String) (s : Store)
      → (any (λ k. k === other) scopes ≡ true) ⊎ (count_needing other (load_rules other s) ≡ 0)
      → count_needing other (load_rules other (quarantine_scopes redact now scopes s).0) ≡ 0
  unfolding quarantine_scopes
  quarantine_scopes-count now [] other s h = ground (arith, h)
  quarantine_scopes-count now (scope ∷ scopes) other s h =
      quarantine_scopes-count now scopes other (quarantine_scope redact now scope s)
        (elim (Bool-cases (any (λ k. k === other) scopes)) [
          | inl q ↦ inl q
          | inr q ↦
              inr
                (quarantine_scope-count now scope other s (ground (arith, h, ===_iff scope other)))
        ])

  has_file :
      (other : String) (rules : Dict (List ApprovalRule))
      → (any (λ k. k === other) (map (λ e. e.0) rules) ≡ true) ⊎ (get other rules ≡ none)
  unfolding get
  has_file other [] = inr refl
  has_file other ((k, rs) ∷ rules) = ground (arith, has_file other rules)

  -- After the pass no scope has a rule that a pass would park.
  pub quarantine_legacy_rules-count :
      (now : ℕ) (s : Store) (other : String)
      → count_needing other (load_rules other (quarantine_legacy_rules redact now s).0) ≡ 0
  unfolding quarantine_legacy_rules load_rules
  quarantine_legacy_rules-count now s other =
      quarantine_scopes-count now (map (λ e. e.0) s.rules) other s
        (elim (has_file other s.rules) [ inl q ↦ inl q | inr q ↦ inr (rw (q, load_rules) refl) ])

  quarantine_scope-none :
      (now : ℕ) (scope : String) (s : Store)
      → count_needing scope (load_rules scope s) ≡ 0
      → quarantine_scope redact now scope s ≡ s
  unfolding quarantine_scope
  quarantine_scope-none now scope s h =
      ground (arith, h, log_parked-none now scope (load_rules scope s) s h)

  quarantine_scopes-none :
      (now : ℕ) (scopes : List String) (s : Store)
      → ((other : String) → count_needing other (load_rules other s) ≡ 0)
      → quarantine_scopes redact now scopes s ≡ (s, 0)
  unfolding quarantine_scopes
  quarantine_scopes-none now [] s h = refl
  quarantine_scopes-none now (scope ∷ scopes) s h =
      rw (quarantine_scope-none now scope s (h scope))
        (ground (arith, h scope, quarantine_scopes-none now scopes s h))

  -- The pass is idempotent: a second one, at any time, writes no rule and no line of the log and counts
  -- nothing.
  pub quarantine_legacy_rules-again :
      (now later : ℕ) (s : Store)
      → let s' = (quarantine_legacy_rules redact now s).0 in
        quarantine_legacy_rules redact later s' ≡ (s', 0)
  unfolding quarantine_legacy_rules
  quarantine_legacy_rules-again now later s =
      quarantine_scopes-none later (map (λ e. e.0) (quarantine_legacy_rules redact now s).0.rules) _
        (quarantine_legacy_rules-count now s)

  -- Each parked rule is disabled, and a parked rule is one that the pass has marked.
  abbrev pub Parked : ApprovalRule → Type 0
  Parked r = (not r.quarantined || r.disabled) ≡ true

  park-Parked :
      (scope : String) (rules : List ApprovalRule)
      → All Parked rules
      → All Parked (map (park scope) rules)
  unfolding park
  park-Parked scope [] h = tt
  park-Parked scope (r ∷ rules) h = (ground (arith, h.0), park-Parked scope rules h.1)

  quarantine_scope-Parked :
      (now : ℕ) (scope other : String) (s : Store)
      → All Parked (load_rules other s)
      → All Parked (load_rules other (quarantine_scope redact now scope s))
  quarantine_scope-Parked now scope other s h =
      rw (quarantine_scope-load now scope other s) (elim (Bool-cases (scope === other)) [
        | inl q ↦
            let e : other ≡ scope = sym ((===_iff scope other).0 q) in
            rw q (
              park-Parked scope (load_rules scope s) (subst (λ k. All Parked (load_rules k s)) e h))
        | inr q ↦ rw q h
      ])

  quarantine_scopes-Parked :
      (now : ℕ) (scopes : List String) (other : String) (s : Store)
      → All Parked (load_rules other s)
      → All Parked (load_rules other (quarantine_scopes redact now scopes s).0)
  unfolding quarantine_scopes
  quarantine_scopes-Parked now [] other s h = h
  quarantine_scopes-Parked now (scope ∷ scopes) other s h =
      quarantine_scopes-Parked now scopes other (quarantine_scope redact now scope s)
        (quarantine_scope-Parked now scope other s h)

  enabled-IsConfirmed :
      (scope : String) (rules : List ApprovalRule) (r : ApprovalRule)
      → count_needing scope rules ≡ 0
      → All Parked rules
      → Memᴰ r rules
      → r.disabled ≡ false
      → (r.confirmed ≡ true)
        ⊎ ((scope ≢ workspace_scope) × (truthy r.pattern ≡ true) × (r.pattern ≢ "*"))
  unfolding count_needing needs_quarantine
  enabled-IsConfirmed scope [] r c h m d = elim m [ ]
  enabled-IsConfirmed scope (x ∷ rules) r c h (Memᴰ.head e) d =
      let p : Parked r = subst Parked (sym e) h.0 in
      let n : needs_quarantine scope r ≡ false =
        subst (λ z. needs_quarantine scope z ≡ false) (sym e) (ground (arith, c)) in
      ground (arith, p, n, ===_iff scope workspace_scope, ===_iff r.pattern "*")
  enabled-IsConfirmed scope (x ∷ rules) r c h (Memᴰ.tail m) d =
      enabled-IsConfirmed scope rules r (ground (arith, c)) h.1 m d

  -- After the pass every enabled rule was confirmed by the user, or is a rule of one bot whose pattern
  -- is neither empty nor the wildcard; provided that the scope's parked rules were disabled before.
  pub quarantine_legacy_rules-IsConfirmed :
      (now : ℕ) (s : Store) (scope : String) (r : ApprovalRule)
      → All Parked (load_rules scope s)
      → Memᴰ r (load_rules scope (quarantine_legacy_rules redact now s).0)
      → r.disabled ≡ false
      → (r.confirmed ≡ true)
        ⊎ ((scope ≢ workspace_scope) × (truthy r.pattern ≡ true) × (r.pattern ≢ "*"))
  unfolding quarantine_legacy_rules
  quarantine_legacy_rules-IsConfirmed now s scope r h m d =
      enabled-IsConfirmed scope (load_rules scope (quarantine_legacy_rules redact now s).0) r
        (quarantine_legacy_rules-count now s scope)
        (quarantine_scopes-Parked now (map (λ e. e.0) s.rules) scope s h) m d

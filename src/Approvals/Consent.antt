-- ===== src/Approvals/Consent.antt =====
-- Which rules a permission answer stores, and for whom (`persistAllowRule` of server/approvals.ts).
use mathlib.Core.List.{Memᴰ}
use velarix_bot.Prelude.{
  ◌===◌, ℕ, String, true, false, [], Option, none, some, arith, ◌≡◌, ◌≢◌, ◌⊎◌, ◌∙◌, refl, sym,
  subst₂, inl, inr, Bool-cases, Option-cases, ===_iff, ===_refl, find_first, find_first_sound,
  find_first_finds, Memᴰ-append, get_or_else, truthy, trim,
}
use velarix_bot.Prelude.Dict.{get, get-set}
use velarix_bot.Handoff.{is_credential_ask}
use velarix_bot.Approvals.Meaning.{glob_match_self}
use velarix_bot.Approvals.Rules.{
  RuleAction, allow, deny, ApprovalRule, Store, workspace_scope, load_rules, save_rules, action_eq,
  is_match, matching_rule, argument_pattern, append_audit, match_rule,
}
use velarix_bot.Approvals.Calls.{
  target_scope, PersistInput, add_rule, persist_allow_rule, is_workspace, same_rule,
}

action_eq-eq : (a b : RuleAction) → action_eq a b ≡ true → a ≡ b
action_eq-eq allow allow h = refl
action_eq-eq allow deny h = absurd (ground arith)
action_eq-eq deny allow h = absurd (ground arith)
action_eq-eq deny deny h = refl

-- What an answer stores, against its input.
module _ (redact : String → String) where
  same_rule-fields :
      (tool pattern : String) (action : RuleAction) (r : ApprovalRule)
      → same_rule tool pattern action r ≡ true
      → (r.tool ≡ tool) × (r.pattern ≡ pattern) × (r.action ≡ action)
  unfolding same_rule
  same_rule-fields tool pattern action r h = grind (arith, ===_iff, action_eq-eq)

  add_rule-rule :
      (scope tool pattern : String) (action : RuleAction) (new_id : String) (now : ℕ) (s : Store)
      → let r = (add_rule redact scope tool pattern action new_id now s).1 in
        (r.tool ≡ tool) × (r.pattern ≡ argument_pattern redact pattern) × (r.action ≡ action)
  unfolding add_rule
  add_rule-rule scope tool pattern action new_id now s =
      let matcher = argument_pattern redact pattern in
      elim (Option-cases (find_first (same_rule tool matcher action) (load_rules scope s))) [
        | inl q ↦ rw (q, add_rule) (refl, refl, refl)
        | inr (r, q) ↦
            rw (q, add_rule)
              (same_rule-fields tool matcher action r
                (find_first_sound _ (load_rules scope s) r q).0)
      ]

  add_rule-other_scope :
      (scope tool pattern : String) (action : RuleAction) (new_id : String) (now : ℕ) (s : Store)
      (other : String)
      → scope ≢ other
      → load_rules other (add_rule redact scope tool pattern action new_id now s).0
        ≡ load_rules other s
  unfolding add_rule load_rules save_rules
  add_rule-other_scope scope tool pattern action new_id now s other d =
      grind (arith, get-set, ===_iff)

  persist_allow_rule-other_scope :
      (input : PersistInput) (new_id : String) (now : ℕ) (s : Store) (other : String)
      → target_scope input ≢ other
      → load_rules other (persist_allow_rule redact input new_id now s).0 ≡ load_rules other s
  unfolding persist_allow_rule append_audit load_rules
  persist_allow_rule-other_scope input new_id now s other d =
      let matcher = argument_pattern redact input.summary in
      let h =
        add_rule-other_scope (target_scope input) input.tool matcher allow new_id now s other d in
      ground (arith, h)

  match_rule-load :
      (bot_id tool summary : String) (s' s : Store)
      → load_rules workspace_scope s' ≡ load_rules workspace_scope s
      → load_rules bot_id s' ≡ load_rules bot_id s
      → match_rule redact bot_id tool summary s' ≡ match_rule redact bot_id tool summary s
  unfolding match_rule
  match_rule-load bot_id tool summary s' s w b = rw (w, match_rule) (rw (b, match_rule) refl)

  -- An answer for one bot, not for the workspace, changes no ask of another bot: the rules of every
  -- other scope are as they were, and the rule that answers the other bot's ask is the same.
  pub persist_allow_rule-other_bot :
      (input : PersistInput) (new_id : String) (now : ℕ) (s : Store) (other tool summary : String)
      → is_workspace input.scope ≡ false
      → input.bot_id ≢ workspace_scope
      → input.bot_id ≢ other
      → let s' = (persist_allow_rule redact input new_id now s).0 in
        (load_rules other s' ≡ load_rules other s)
        × (match_rule redact other tool summary s' ≡ match_rule redact other tool summary s)
  persist_allow_rule-other_bot input new_id now s other tool summary w b o =
      let same = persist_allow_rule-other_scope input new_id now s in
      let here : load_rules other (persist_allow_rule redact input new_id now s).0
          ≡ load_rules other s =
        same other (rw w o) in
      (here, match_rule-load other tool summary _ s (same workspace_scope (rw w b)) here)

  add_rule-stands :
      (scope tool pattern : String) (action : RuleAction) (new_id : String) (now : ℕ) (s : Store)
      → let (s', r) = add_rule redact scope tool pattern action new_id now s in
        Memᴰ r (load_rules scope s')
  unfolding add_rule save_rules load_rules
  add_rule-stands scope tool pattern action new_id now s =
      let matcher = argument_pattern redact pattern in
      elim (Option-cases (find_first (same_rule tool matcher action) (load_rules scope s))) [
        | inl q ↦
            rw (q, add_rule)
              (rw (get-set scope scope _ s.rules)
                (rw (===_refl scope) (Memᴰ-append (load_rules scope s) _)))
        | inr (r, q) ↦ rw (q, add_rule) (find_first_sound _ (load_rules scope s) r q).1
      ]

  stored_rules :
      (input : PersistInput) (new_id : String) (now : ℕ) (s : Store) (r : ApprovalRule)
      → (persist_allow_rule redact input new_id now s).1 ≡ some r
      → let matcher = argument_pattern redact input.summary in
        let (added, r') =
          add_rule redact (target_scope input) input.tool matcher allow new_id now s in
        ((persist_allow_rule redact input new_id now s).0.rules ≡ added.rules) × (r' ≡ r)
  unfolding persist_allow_rule append_audit
  stored_rules input new_id now s r e = ground arith

  stored_stands :
      (input : PersistInput) (new_id : String) (now : ℕ) (s : Store) (r : ApprovalRule)
      → (persist_allow_rule redact input new_id now s).1 ≡ some r
      → Memᴰ r (load_rules (target_scope input) (persist_allow_rule redact input new_id now s).0)
  unfolding load_rules
  stored_stands input new_id now s r e =
      let matcher = argument_pattern redact input.summary in
      let (rules, same) = stored_rules input new_id now s r e in
      subst₂ (λ rs x. Memᴰ x (get_or_else (get (target_scope input) rs) [])) (sym rules) same
        (add_rule-stands (target_scope input) input.tool matcher allow new_id now s)

  -- No rule is stored and the store is as it was; or the rule `r` stands in the store.
  abbrev pub StoredFor : PersistInput → Store → Store → Option ApprovalRule → Type 0
  StoredFor input s s' none = s' ≡ s
  StoredFor input s s' (some r) =
      let matcher = argument_pattern redact input.summary in
      (input.always ≡ true)
      × (input.behavior ≡ "allow")
      × (is_credential_ask (get_or_else input.request_type "permission") input.tool input.summary
          ≡ false)
      × (truthy (trim input.tool) ≡ true)
      × (truthy matcher ≡ true)
      × (matcher ≢ "*")
      × (r.tool ≡ input.tool)
      × (r.pattern ≡ argument_pattern redact matcher)
      × (r.action ≡ allow)
      × ((r.pattern ≢ "*") ⊎ (argument_pattern redact matcher ≢ matcher))
      × Memᴰ r (load_rules (target_scope input) s')

  not_wildcard :
      (pattern matcher : String)
      → matcher ≢ "*"
      → pattern ≡ argument_pattern redact matcher
      → (pattern ≢ "*") ⊎ (argument_pattern redact matcher ≢ matcher)
  not_wildcard pattern matcher n e =
      elim (Bool-cases (argument_pattern redact matcher === matcher)) [
        | inl q ↦ inl (λ w. n (sym ((===_iff _ _).0 q) ∙ sym e ∙ w))
        | inr q ↦
            inr (λ w.
              absurd (ground (arith, q, w, ===_iff (argument_pattern redact matcher) matcher)))
      ]

  consent_given :
      (input : PersistInput) (new_id : String) (now : ℕ) (s : Store) (r : ApprovalRule)
      → (persist_allow_rule redact input new_id now s).1 ≡ some r
      → let matcher = argument_pattern redact input.summary in
        (input.always ≡ true)
        × (input.behavior ≡ "allow")
        × (is_credential_ask (get_or_else input.request_type "permission") input.tool input.summary
            ≡ false)
        × (truthy (trim input.tool) ≡ true)
        × (truthy matcher ≡ true)
        × (matcher ≢ "*")
        × (r.tool ≡ input.tool)
        × (r.pattern ≡ argument_pattern redact matcher)
        × (r.action ≡ allow)
  unfolding persist_allow_rule
  consent_given input new_id now s r e =
      let matcher = argument_pattern redact input.summary in
      let h = add_rule-rule (target_scope input) input.tool matcher allow new_id now s in
      ground (arith, h, ===_iff input.behavior "allow", ===_iff matcher "*")

  nothing_stored :
      (input : PersistInput) (new_id : String) (now : ℕ) (s : Store)
      → (persist_allow_rule redact input new_id now s).1 ≡ none
      → (persist_allow_rule redact input new_id now s).0 ≡ s
  unfolding persist_allow_rule
  nothing_stored input new_id now s e = ground arith

  -- Where an answer stores nothing the store is as it was. It stores a rule only where the user chose
  -- to allow always, for an ask that is not about signing in, whose tool is not blank and whose
  -- summary gives a pattern that is neither blank nor the wildcard. The rule then stands in the rules
  -- of its scope and allows that tool on that pattern, redacted, trimmed and cut once more; it is not
  -- the wildcard unless doing so once more has changed the pattern.
  pub persist_allow_rule-consent :
      (input : PersistInput) (new_id : String) (now : ℕ) (s : Store)
      → let (s', stored) = persist_allow_rule redact input new_id now s in
        StoredFor input s s' stored
  persist_allow_rule-consent input new_id now s =
      let p = persist_allow_rule redact input new_id now s in
      elim (Option-cases p.1) [
        | inl e ↦ rw e (nothing_stored input new_id now s e)
        | inr (r, e) ↦
            let (a, b, c, t, m, w, tool, pattern, action) = consent_given input new_id now s r e in
            rw e (
              a,
              b,
              c,
              t,
              m,
              w,
              tool,
              pattern,
              action,
              not_wildcard r.pattern _ w pattern,
              stored_stands input new_id now s r e,
            )
      ]

  -- After an answer has stored a rule that is enabled, the same ask of the bot finds a rule, provided
  -- that redacting, trimming and cutting the summary once more leaves it as it is.
  pub persist_allow_rule-match_rule :
      (input : PersistInput) (new_id : String) (now : ℕ) (s : Store) (r : ApprovalRule)
      → (persist_allow_rule redact input new_id now s).1 ≡ some r
      → r.disabled ≡ false
      → argument_pattern redact (argument_pattern redact input.summary)
        ≡ argument_pattern redact input.summary
      → (r' : ApprovalRule) × (match_rule redact input.bot_id input.tool input.summary
            (persist_allow_rule redact input new_id now s).0
          ≡ some r')
  unfolding match_rule matching_rule is_match
  persist_allow_rule-match_rule input new_id now s r e d i =
      let matcher = argument_pattern redact input.summary in
      let s' = (persist_allow_rule redact input new_id now s).0 in
      let (_, _, _, _, _, _, t, p, _) = consent_given input new_id now s r e in
      let found =
        find_first_finds (is_match redact input.tool matcher) (load_rules (target_scope input) s') r
          (stored_stands input new_id now s r e)
          (grind (arith, ===_refl, t, p, i, glob_match_self matcher)) in
      let test = is_match redact input.tool matcher in
      elim (Bool-cases (is_workspace input.scope)) [
        | inl w ↦
            let first : find_first test (load_rules workspace_scope s') ≡ some found.0 =
              rw w at found.1 in
            (found.0, rw (first, match_rule) refl)
        | inr w ↦
            let own : find_first test (load_rules input.bot_id s') ≡ some found.0 =
              rw w at found.1 in
            elim (Option-cases (find_first test (load_rules workspace_scope s'))) [
              | inl q ↦ (found.0, rw (q, match_rule) (rw (own, match_rule) refl))
              | inr (y, q) ↦ (y, rw (q, match_rule) refl)
            ]
      ]

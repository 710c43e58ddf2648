-- ===== src/Approvals/Matching.antt =====
-- Which rule answers an ask, and what answers it without the user (server/approvals.ts).
use mathlib.Core.List.{Memᴰ}
use velarix_bot.Prelude.{
  ℕ, String, Bool, true, false, ◌||◌, Option, none, some, arith, ◌≡◌, refl, ◌∙◌, ◌⊎◌, inl, inr,
  Option-cases, find_first, find_first_sound, get_or_else, length, length-append, ◌+◌,
}
use velarix_bot.Handoff.{is_credential_ask}
use velarix_bot.Unattended.{is_unattended}
use velarix_bot.Approvals.Rules.{
  allow, ApprovalRule, Store, workspace_scope, load_rules, is_match, matching_rule,
  argument_pattern, append_audit, match_rule,
}
use velarix_bot.Approvals.Decide.{Bot, World, resolve_by_rules, auto_resolve_permission}

module _ (redact : String → String) where
  -- A rule that answers an ask is enabled, is for its tool, and has a pattern that takes its text; and
  -- it stands in the workspace's rules or in the bot's.
  match_rule_sound :
      (bot_id tool summary : String) (s : Store) (r : ApprovalRule)
      → match_rule redact bot_id tool summary s ≡ some r
      → (is_match redact tool (argument_pattern redact summary) r ≡ true)
        × (Memᴰ r (load_rules workspace_scope s) ⊎ Memᴰ r (load_rules bot_id s))
  unfolding match_rule matching_rule
  match_rule_sound bot_id tool summary s r e =
      let test = is_match redact tool (argument_pattern redact summary) in
      elim (Option-cases (find_first test (load_rules workspace_scope s))) [
        | inl q ↦
            let (h, m) = find_first_sound test (load_rules bot_id s) r (rw (q, match_rule) at e) in
            (h, inr m)
        | inr (r', q) ↦
            let (h, m) =
              find_first_sound test (load_rules workspace_scope s) r
                (q ∙ (rw (q, match_rule) at e)) in
            (h, inl m)
      ]

module _ (redact : String → String) (busy : String → Bool) where
  -- An ask is left to the user, and neither a rule nor the log is written, whatever rules are stored
  -- and whatever the bot's setting: when the turn is unattended by its context or by the bot's mark,
  -- when the bot requires approval, and when the ask is about signing in.
  pub auto_resolve_permission-gates :
      (bot : Bot) (tool summary : String) (context : Option Bool) (now : ℕ) (w : World)
      → (get_or_else context false
          || ((is_unattended busy (some bot.id) now w.marks).1
              || (bot.require_approval || is_credential_ask "permission" tool summary)))
        ≡ true
      → let (w', answer) = auto_resolve_permission redact busy bot tool summary context now w in
        (answer ≡ none) × (w'.store ≡ w.store)
  unfolding auto_resolve_permission
  auto_resolve_permission-gates bot tool summary context now w h = ground arith

  abbrev pub AllowedBy : Bot → String → String → Store → Type 0
  AllowedBy bot tool summary s =
      ((r : ApprovalRule) × (r.action ≡ allow)
        × (is_match redact tool (argument_pattern redact summary) r ≡ true)
        × (Memᴰ r (load_rules workspace_scope s) ⊎ Memᴰ r (load_rules bot.id s)))
      ⊎ ((match_rule redact bot.id tool summary s ≡ none) × (bot.always_allow ≡ true))

  resolve_by_rules-allow :
      (bot : Bot) (tool summary : String) (now : ℕ) (s : Store)
      → let (s', answer) = resolve_by_rules redact busy bot tool summary now s in
        answer ≡ some allow
        → AllowedBy bot tool summary s
          × (s'.rules ≡ s.rules)
          × (length s'.audit ≡ length s.audit + 1)
  unfolding resolve_by_rules append_audit
  resolve_by_rules-allow bot tool summary now s e =
      elim (Option-cases (match_rule redact bot.id tool summary s)) [
        | inl q ↦ rw (q, resolve_by_rules) (grind (arith, length-append))
        | inr (r, q) ↦
            let (h, m) = match_rule_sound redact bot.id tool summary s r q in
            rw (q, resolve_by_rules) (inl (r, ground arith, h, m), refl, length-append s.audit _)
      ]

  -- An ask that is allowed without the user is allowed by an enabled stored rule of the workspace or of
  -- this bot, which says allow, is for the tool and takes the text; or no rule answers and the bot is
  -- set to allow always. No gate holds then: the turn is not unattended, by its context or by the bot's
  -- mark, the bot does not require approval and the ask is not about signing in. The rules stay as they
  -- were and one line is logged.
  pub auto_resolve_permission-allow :
      (bot : Bot) (tool summary : String) (context : Option Bool) (now : ℕ) (w : World)
      → let (w', answer) = auto_resolve_permission redact busy bot tool summary context now w in
        answer ≡ some allow
        → AllowedBy bot tool summary w.store
          × (get_or_else context false ≡ false)
          × (bot.require_approval ≡ false)
          × (is_credential_ask "permission" tool summary ≡ false)
          × ((is_unattended busy (some bot.id) now w.marks).1 ≡ false)
          × (w'.store.rules ≡ w.store.rules)
          × (length w'.store.audit ≡ length w.store.audit + 1)
  unfolding auto_resolve_permission
  auto_resolve_permission-allow bot tool summary context now w e =
      let h = resolve_by_rules-allow bot tool summary now w.store (ground arith) in
      ground (arith, h)

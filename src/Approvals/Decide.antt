-- ===== src/Approvals/Decide.antt =====
-- The decision on a permission ask without its user (server/approvals.ts). What `isUnattended` says is
-- the argument `unattended`, a read of the marks of Unattended; its new marks are threaded through.
use velarix_bot.Prelude.{
  ℕ, String, Bool, false, ◌||◌, Option, none, some, if◌then◌else◌, get_or_else,
}
use velarix_bot.Prelude.Dict.{Dict}
use velarix_bot.Handoff.{is_credential_ask}
use velarix_bot.Unattended.{is_unattended}
use velarix_bot.Approvals.Rules.{
  RuleAction, allow, deny, Store, argument_pattern, append_audit, match_rule,
}

pub record Bot : Type 0 where
  pub id : String
  pub require_approval : Bool
  pub always_allow : Bool

-- The marks of unattended bots and the rules, which one process holds together.
pub record World : Type 0 where
  pub marks : Dict ℕ
  pub store : Store

abbrev pub decision_of : RuleAction → String
decision_of allow = "rule.allow"
decision_of deny = "rule.deny"

module _ (redact : String → String) (busy : String → Bool) where
  unfoldable pub resolve_opened_request : String → String → String → Store → Option RuleAction
  resolve_opened_request bot_id tool summary s = elim (match_rule redact bot_id tool summary s) [
    | none ↦ none
    | some rule ↦ some rule.action
  ]

  -- What stored rules and the bot's own setting decide, once no gate holds the ask back.
  unfoldable pub resolve_by_rules : Bot → String → String → ℕ → Store → Store × Option RuleAction
  resolve_by_rules bot tool summary now s = elim (match_rule redact bot.id tool summary s) [
    | some rule ↦ (
      append_audit redact now bot.id tool rule.pattern (decision_of rule.action) (some rule.id) s,
      some rule.action,
    )
    | none ↦
        if bot.always_allow
        then (
          append_audit redact now bot.id tool (argument_pattern redact summary) "bot.always-allow"
              none s,
          some allow,
        )
        else (s, none)
  ]

  unfoldable pub auto_resolve_permission :
      Bot → String → String → Option Bool → ℕ → World → World × Option RuleAction
  unfolding resolve_by_rules
  auto_resolve_permission bot tool summary context now w =
      let (marks, unattended) = is_unattended busy (some bot.id) now w.marks in
      let read : World = record { marks = marks; store = w.store } in
      let (decided, answer) = resolve_by_rules bot tool summary now w.store in
      if get_or_else context false
      then (w, none)
      else if unattended || (bot.require_approval || is_credential_ask "permission" tool summary)
      then (read, none)
      else (record { marks = marks; store = decided }, answer)

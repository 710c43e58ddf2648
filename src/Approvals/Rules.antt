-- ===== src/Approvals/Rules.antt =====
-- The stored approval rules and the audit log (server/approvals.ts), and how an ask finds its rule.
-- A scope that has no file and a scope with no rules are one; rows that `isRule` refuses are left out
-- of the store. `redactSecrets`, of another file, is the argument `redact`.
use velarix_bot.Prelude.{
  ℕ, String, Bool, true, false, not, List, [], ◌∷◌, ◌++◌, ◌&&◌, Option, none, some, ◌===◌,
  if◌then◌else◌, find_first, truthy, trim, get_or_else, or_else, slice,
}
use velarix_bot.Prelude.Dict.{Dict, get, set}
use velarix_bot.Approvals.Glob.{glob_match}

pub data RuleAction : Type 0 where
  allow deny : RuleAction

pub record ApprovalRule : Type 0 where
  pub id : String
  pub tool : String
  pub pattern : String
  pub action : RuleAction
  pub created_at : ℕ
  pub disabled : Bool
  pub quarantined : Bool
  pub confirmed : Bool

pub record AuditEntry : Type 0 where
  pub at : ℕ
  pub bot : String
  pub tool : String
  pub matcher : String
  pub decision : String
  pub rule_id : Option String

pub record Store : Type 0 where
  pub rules : Dict (List ApprovalRule)
  pub audit : List AuditEntry

abbrev pub workspace_scope : String
workspace_scope = "_workspace"

abbrev pub matcher_max : ℕ
matcher_max = 200

unfoldable pub load_rules : String → Store → List ApprovalRule
load_rules scope s = get_or_else (get scope s.rules) []

unfoldable pub save_rules : String → List ApprovalRule → Store → Store
save_rules scope rules s = record { rules = set scope rules s.rules; audit = s.audit }

abbrev pub action_eq : RuleAction → RuleAction → Bool
action_eq allow allow = true
action_eq allow deny = false
action_eq deny allow = false
action_eq deny deny = true

-- An optional field that is left out where it is empty.
abbrev if_truthy : Option String → Option String
if_truthy none = none
if_truthy (some s) = if truthy s then some s else none

module _ (redact : String → String) where
  unfoldable pub argument_pattern : String → String
  argument_pattern summary = slice matcher_max (trim (redact summary))

  -- One line of the log, at its end.
  unfoldable pub append_audit :
      ℕ → String → String → String → String → Option String → Store → Store
  append_audit at bot tool matcher decision rule_id s = record {
    rules = s.rules;
    audit =
        s.audit
        ++ record {
          at = at;
          bot = bot;
          tool = tool;
          matcher = slice 200 (redact matcher);
          decision = decision;
          rule_id = if_truthy rule_id;
        }
          ∷ [];
  }

  unfoldable pub is_match : String → String → ApprovalRule → Bool
  is_match tool haystack rule =
      not rule.disabled && (rule.tool === tool && glob_match haystack rule.pattern)

  unfoldable pub matching_rule : List ApprovalRule → String → String → Option ApprovalRule
  matching_rule rules tool summary = find_first (is_match tool (argument_pattern summary)) rules

  -- The rules of the workspace come before those of the bot.
  unfoldable pub match_rule : String → String → String → Store → Option ApprovalRule
  match_rule bot_id tool summary s =
      or_else (matching_rule (load_rules workspace_scope s) tool summary)
        (matching_rule (load_rules bot_id s) tool summary)

-- ===== src/Approvals/Calls.antt =====
-- The calls of server/approvals.ts that write rules. The id and the time of a new rule, `newId()` and
-- `Date.now()`, are arguments.
use velarix_bot.Prelude.{
  ℕ, ◌+◌, String, Bool, true, false, not, List, [], ◌∷◌, ◌++◌, ◌&&◌, ◌||◌, Option, none, some, ◌==◌,
  ◌===◌, if◌then◌else◌, find_first, truthy, trim, get_or_else, length, keep, any, map,
}
use velarix_bot.Handoff.{is_credential_ask}
use velarix_bot.Approvals.Rules.{
  RuleAction, allow, ApprovalRule, Store, workspace_scope, load_rules, save_rules, action_eq,
  argument_pattern, append_audit,
}

unfoldable pub same_rule : String → String → RuleAction → ApprovalRule → Bool
same_rule tool pattern action r =
    r.tool === tool && (r.pattern === pattern && action_eq r.action action)

pub record PersistInput : Type 0 where
  pub bot_id : String
  pub tool : String
  pub summary : String
  pub behavior : String
  pub always : Bool
  pub scope : Option String
  pub request_type : Option String

-- A rule that a reconfirmation clears of the disabled and the quarantined mark.
unfoldable pub reconfirmed : ApprovalRule → ApprovalRule
reconfirmed r = record r { disabled = false; quarantined = false; confirmed = true }

abbrev has_id : String → ApprovalRule → Bool
has_id rule_id r = r.id === rule_id

-- `rules[index] = next` at the first rule with the id.
unfoldable pub replace_first : String → List ApprovalRule → List ApprovalRule
unfolding reconfirmed
replace_first rule_id [] = []
replace_first rule_id (r ∷ rules) =
    if has_id rule_id r then reconfirmed r ∷ rules else r ∷ replace_first rule_id rules

unfoldable pub needs_quarantine : String → ApprovalRule → Bool
needs_quarantine scope r =
    if r.confirmed || r.quarantined
    then false
    else scope === workspace_scope || (not (truthy r.pattern) || r.pattern === "*")

unfoldable pub park : String → ApprovalRule → ApprovalRule
unfolding needs_quarantine
park scope r =
    if needs_quarantine scope r then record r { disabled = true; quarantined = true } else r

unfoldable pub count_needing : String → List ApprovalRule → ℕ
unfolding needs_quarantine
count_needing scope [] = 0
count_needing scope (r ∷ rules) =
    (if needs_quarantine scope r then 1 else 0) + count_needing scope rules

abbrev pub is_workspace : Option String → Bool
is_workspace none = false
is_workspace (some scope) = scope === "workspace"

abbrev pub target_scope : PersistInput → String
target_scope input = if is_workspace input.scope then workspace_scope else input.bot_id

module _ (redact : String → String) where
  unfoldable pub add_rule :
      String → String → String → RuleAction → String → ℕ → Store → Store × ApprovalRule
  add_rule scope tool pattern action new_id now s =
      let matcher = argument_pattern redact pattern in
      let rules = load_rules scope s in
      let rule : ApprovalRule = record {
        id = new_id;
        tool = tool;
        pattern = matcher;
        action = action;
        created_at = now;
        disabled = false;
        quarantined = false;
        confirmed = true;
      } in
      elim (find_first (same_rule tool matcher action) rules) [
        | some dup ↦ (s, dup)
        | none ↦ (save_rules scope (rules ++ rule ∷ []) s, rule)
      ]

  unfoldable pub persist_allow_rule :
      PersistInput → String → ℕ → Store → Store × Option ApprovalRule
  persist_allow_rule input new_id now s =
      let matcher = argument_pattern redact input.summary in
      let workspace = is_workspace input.scope in
      let (added, rule) =
        add_rule (if workspace then workspace_scope else input.bot_id) input.tool matcher allow
          new_id now s in
      if not input.always || not (input.behavior === "allow")
      then (s, none)
      else if is_credential_ask (get_or_else input.request_type "permission") input.tool
          input.summary
      then (s, none)
      else if not (truthy (trim input.tool)) || (not (truthy matcher) || matcher === "*")
      then (s, none)
      else (
        append_audit redact now input.bot_id input.tool rule.pattern
            (if workspace then "persist.workspace" else "persist.bot") (some rule.id) added,
        some rule,
      )

  -- The log entries of one scope, in the order of its rules.
  unfoldable pub log_parked : ℕ → String → List ApprovalRule → Store → Store
  unfolding needs_quarantine
  log_parked now scope [] s = s
  log_parked now scope (r ∷ rules) s = log_parked now scope rules (
      if needs_quarantine scope r
      then append_audit redact now scope r.tool r.pattern "quarantine" (some r.id) s
      else s)

  unfoldable pub quarantine_scope : ℕ → String → Store → Store
  unfolding log_parked park count_needing
  quarantine_scope now scope s =
      let rules = load_rules scope s in
      let logged = log_parked now scope rules s in
      if count_needing scope rules == 0
      then logged
      else save_rules scope (map (park scope) rules) logged

  -- The scopes are those that had a file when the pass began.
  unfoldable pub quarantine_scopes : ℕ → List String → Store → Store × ℕ
  unfolding quarantine_scope count_needing
  quarantine_scopes now [] s = (s, 0)
  quarantine_scopes now (scope ∷ scopes) s =
      let (s', count) = quarantine_scopes now scopes (quarantine_scope now scope s) in
      (s', count_needing scope (load_rules scope s) + count)

  unfoldable pub quarantine_legacy_rules : ℕ → Store → Store × ℕ
  unfolding quarantine_scopes
  quarantine_legacy_rules now s = quarantine_scopes now (map (λ e. e.0) s.rules) s

  unfoldable pub confirm_in :
      List String → String → String → ℕ → Store → Store × Option ApprovalRule
  unfolding replace_first reconfirmed
  confirm_in [] bot_id rule_id now s = (s, none)
  confirm_in (scope ∷ scopes) bot_id rule_id now s =
      elim (find_first (has_id rule_id) (load_rules scope s)) [
        | none ↦ confirm_in scopes bot_id rule_id now s
        | some r ↦ (
          append_audit redact now bot_id r.tool r.pattern "reconfirm" (some rule_id)
              (save_rules scope (replace_first rule_id (load_rules scope s)) s),
          some (reconfirmed r),
        )
      ]

  unfoldable pub confirm_rule : String → String → ℕ → Store → Store × Option ApprovalRule
  unfolding confirm_in
  confirm_rule bot_id rule_id now s =
      confirm_in (workspace_scope ∷ bot_id ∷ []) bot_id rule_id now s

  unfoldable pub delete_in : List String → String → String → ℕ → Store → Store × Bool
  delete_in [] bot_id rule_id now s = (s, false)
  delete_in (scope ∷ scopes) bot_id rule_id now s =
      let rest = delete_in scopes bot_id rule_id now s in
      let rules = load_rules scope s in
      let next = keep (λ r. not (has_id rule_id r)) rules in
      if length next == length rules then rest else elim (find_first (has_id rule_id) rules) [
        | none ↦ (save_rules scope next s, true)
        | some removed ↦ (
          append_audit redact now bot_id removed.tool removed.pattern "revoke" (some rule_id)
              (save_rules scope next s),
          true,
        )
      ]

  unfoldable pub delete_rule : String → String → ℕ → Store → Store × Bool
  unfolding delete_in
  delete_rule bot_id rule_id now s = delete_in (workspace_scope ∷ bot_id ∷ []) bot_id rule_id now s

  -- The first rule of each id, with its pattern redacted again.
  unfoldable pub first_of_each : List String → List ApprovalRule → List ApprovalRule
  first_of_each seen [] = []
  first_of_each seen (r ∷ rules) =
      let unseen = first_of_each (r.id ∷ seen) rules in
      if any (λ id. id === r.id) seen
      then first_of_each seen rules
      else record r { pattern = redact r.pattern } ∷ unseen

  unfoldable pub list_rules : String → Store → List ApprovalRule
  unfolding first_of_each
  list_rules bot_id s = first_of_each [] (load_rules workspace_scope s ++ load_rules bot_id s)

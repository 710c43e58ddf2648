-- ===== src/Approvals/Tests.antt =====
-- The theorems on approval rules at concrete inputs, with a `redact` that changes nothing.
use mathlib.Core.List.{Memᴰ}
use mathlib.Core.Option as Option
use velarix_bot.Prelude.{
  ℕ, zero, suc, codes, ◌+◌, String, Bool, true, false, [], ◌∷◌, none, some, arith, ◌≡◌, ◌≢◌, refl,
  ◌↔◌, ◌⊎◌, ===_iff, length, truthy, trim, slice,
}
use velarix_bot.Prelude.Dict.{get, set}
use velarix_bot.Handoff.{is_credential_ask, speaks_of_sign_in}
use velarix_bot.Unattended.{is_unattended}
use velarix_bot.Approvals.Glob.{glob_match, is_special}
use velarix_bot.Approvals.Meaning.{Means, glob_match_iff}
use velarix_bot.Approvals.Rules.{
  allow, ApprovalRule, Store, workspace_scope, load_rules, save_rules, argument_pattern,
  append_audit, is_match, matching_rule, match_rule,
}
use velarix_bot.Approvals.Calls.{
  PersistInput, add_rule, same_rule, persist_allow_rule, quarantine_legacy_rules, quarantine_scopes,
  quarantine_scope, log_parked, park, needs_quarantine, count_needing,
}
use velarix_bot.Approvals.Decide.{Bot, World, auto_resolve_permission, resolve_by_rules}
use velarix_bot.Approvals.Matching.{
  AllowedBy, auto_resolve_permission-gates, auto_resolve_permission-allow,
}
use velarix_bot.Approvals.Consent.{
  StoredFor, persist_allow_rule-consent, persist_allow_rule-other_bot,
  persist_allow_rule-match_rule,
}
use velarix_bot.Approvals.Quarantine.{
  quarantine_legacy_rules-again, quarantine_legacy_rules-IsConfirmed,
}

abbrev as_is : String → String
as_is text = text

abbrev never_busy : String → Bool
never_busy id = false

abbrev rule_of : String → String → Bool → ApprovalRule
rule_of id pattern confirmed = record {
  id = id;
  tool = "Bash";
  pattern = pattern;
  action = allow;
  created_at = 1;
  disabled = false;
  quarantined = false;
  confirmed = confirmed;
}

-- A legacy wildcard for all bots and a rule of bot "a".
abbrev stored : Store
stored = record {
  rules = (workspace_scope, rule_of "r1" "*" false ∷ []) ∷ ("a", rule_of "r2" "ls" true ∷ []) ∷ [];
  audit = [];
}

abbrev world : World
world = record { marks = []; store = stored }

abbrev bot_a : Bot
bot_a = record { id = "a"; require_approval = false; always_allow = false }

abbrev answer : PersistInput
answer = record {
  bot_id = "a";
  tool = "Bash";
  summary = " git status ";
  behavior = "allow";
  always = true;
  scope = none;
  request_type = none;
}

globs :
    (glob_match "git status" "git *" ≡ true)
    × (glob_match "git" "git *" ≡ false)
    × (glob_match "a?c" "a?c" ≡ true)
    × (glob_match "abc" "a?c" ≡ false)
    × (glob_match "x" "" ≡ true)
unfolding glob_match is_special
globs = (refl, refl, refl, refl, refl)

glob_match_iff_example :
    (glob_match "git log?" "git *?" ≡ true)
    ↔ ((truthy "git *?" ≡ false) ⊎ Means (codes "git *?") (codes "git log?"))
glob_match_iff_example = glob_match_iff "git log?" "git *?"

-- A star, 199 blanks and a letter: the pattern that is checked is cut to the star and the blanks, and
-- the one that is stored is trimmed once more.
abbrev blanks : ℕ → String → String
blanks zero text = text
blanks (suc n) text = String.◌∷◌ " " (blanks n text)

abbrev padded : PersistInput
padded = record answer { summary = String.◌∷◌ "*" (blanks 199 "x") }

stored_wildcard :
    (Option.map (λ (r : ApprovalRule). r.pattern) (persist_allow_rule as_is padded "r3" 1 stored).1
      ≡ some "*")
    × (truthy (argument_pattern as_is (argument_pattern as_is padded.summary)) ≡ true)
unfolding persist_allow_rule is_credential_ask speaks_of_sign_in load_rules save_rules
    argument_pattern append_audit add_rule same_rule trim slice get set
stored_wildcard = (refl, refl)

auto_resolve_permission-gates_example :
    let (w', given) =
      auto_resolve_permission as_is never_busy bot_a "Bash" "ls" (some true) 9 world in
    (given ≡ none) × (w'.store ≡ stored)
auto_resolve_permission-gates_example =
    auto_resolve_permission-gates as_is never_busy bot_a "Bash" "ls" (some true) 9 world refl

ls_allowed :
    (auto_resolve_permission as_is never_busy bot_a "Bash" "ls" none 9 world).1 ≡ some allow
unfolding auto_resolve_permission resolve_by_rules is_credential_ask speaks_of_sign_in is_unattended
    get set load_rules save_rules argument_pattern append_audit is_match matching_rule match_rule
    add_rule same_rule trim slice glob_match is_special
ls_allowed = refl

auto_resolve_permission-allow_example :
    let w' = (auto_resolve_permission as_is never_busy bot_a "Bash" "ls" none 9 world).0 in
    AllowedBy as_is never_busy bot_a "Bash" "ls" stored
    × (false ≡ false)
    × (false ≡ false)
    × (is_credential_ask "permission" "Bash" "ls" ≡ false)
    × ((is_unattended never_busy (some "a") 9 []).1 ≡ false)
    × (w'.store.rules ≡ stored.rules)
    × (length w'.store.audit ≡ 0 + 1)
auto_resolve_permission-allow_example =
    auto_resolve_permission-allow as_is never_busy bot_a "Bash" "ls" none 9 world ls_allowed

persist_allow_rule-consent_example :
    let (s', given) = persist_allow_rule as_is answer "r3" 1 stored in
    StoredFor as_is answer stored s' given
persist_allow_rule-consent_example = persist_allow_rule-consent as_is answer "r3" 1 stored

persist_allow_rule-other_bot_example :
    let s' = (persist_allow_rule as_is answer "r3" 1 stored).0 in
    (load_rules "b" s' ≡ load_rules "b" stored)
    × (match_rule as_is "b" "Bash" "git status" s'
        ≡ match_rule as_is "b" "Bash" "git status" stored)
persist_allow_rule-other_bot_example =
    persist_allow_rule-other_bot as_is answer "r3" 1 stored "b" "Bash" "git status" refl
      (λ e. absurd (ground (arith, ===_iff "a" "_workspace", e)))
      (λ e. absurd (ground (arith, ===_iff "a" "b", e)))

persist_allow_rule-match_rule_example :
    (r : ApprovalRule) × (match_rule as_is "a" "Bash" " git status "
        (persist_allow_rule as_is answer "r3" 1 stored).0
      ≡ some r)
unfolding persist_allow_rule is_credential_ask speaks_of_sign_in is_unattended get set load_rules
    save_rules argument_pattern append_audit is_match matching_rule match_rule add_rule same_rule
    trim slice glob_match is_special
persist_allow_rule-match_rule_example =
    persist_allow_rule-match_rule as_is answer "r3" 1 stored (rule_of "r3" "git status" true) refl
      refl refl

quarantine_legacy_rules-again_example :
    let s' = (quarantine_legacy_rules as_is 5 stored).0 in
    quarantine_legacy_rules as_is 6 s' ≡ (s', 0)
quarantine_legacy_rules-again_example = quarantine_legacy_rules-again as_is 5 6 stored

parks_wildcard : (quarantine_legacy_rules as_is 5 stored).1 ≡ 1
unfolding quarantine_legacy_rules quarantine_scopes quarantine_scope log_parked park
    needs_quarantine count_needing load_rules save_rules get set append_audit
parks_wildcard = refl

quarantine_legacy_rules-IsConfirmed_example :
    (true ≡ true)
    ⊎ (◌≢◌ {A = String} "a" workspace_scope × (truthy "ls" ≡ true) × ◌≢◌ {A = String} "ls" "*")
unfolding quarantine_legacy_rules quarantine_scopes quarantine_scope log_parked park
    needs_quarantine count_needing load_rules save_rules get set append_audit
quarantine_legacy_rules-IsConfirmed_example =
    quarantine_legacy_rules-IsConfirmed as_is 5 stored "a" (rule_of "r2" "ls" true) (refl, tt)
      (Memᴰ.head refl) refl

-- A summary whose cut ends in a space is cut and trimmed once for an ask and twice for a stored rule.
abbrev long_summary : String
long_summary =
    "0123456789012345678901234567890123456789012345678901234567890123456789012345678901234567890123456789012345678901234567890123456789012345678901234567890123456789012345678901234567890123456789012345678 x"

never_matched :
    let s : Store = record { rules = []; audit = [] } in
    let pattern = argument_pattern as_is long_summary in
    match_rule as_is "b" "Bash" long_summary (add_rule as_is "b" "Bash" pattern allow "r4" 9 s).0
    ≡ none
unfolding match_rule get set load_rules save_rules argument_pattern append_audit is_match
    matching_rule add_rule same_rule trim slice glob_match is_special
never_matched = refl

-- ===== src/Handoff.antt =====
-- Credential asks, server/handoff.ts: which asks are about signing in, and what their card offers.
-- `sanitizeHandoffSummary`, a chain of regular expressions, is the argument `sanitize`.
pub mod Laws
mod Tests
use velarix_bot.Prelude.{
  ℕ, ◌+◌, String, Bool, true, false, not, List, [], ◌∷◌, ◌++◌, ◌&&◌, ◌||◌, Option, none, some, leb,
  ltb, ◌==◌, ◌===◌, if◌then◌else◌, any, take, codes, truthy, get_or_else, map,
}

pub data RequestType : Type 0 where
  permission question credential : RequestType

-- A part of a pattern: a letter in either case, or an optional character of one code unit that is no
-- line terminator, the `.?` of the source.
pub data Part : Type 0 where
  letter : ℕ → Part
  gap : Part

pub lower : ℕ → ℕ
lower c = if leb b'A' c && leb c b'Z' then c + 32 else c

is_gap : ℕ → Bool
is_gap c = ltb c 0x10000 && not (c == 10 || c == 13 || c == 0x2028 || c == 0x2029)

-- The pattern at the start of a text.
matches_here : List Part → List ℕ → Bool
matches_here [] text = true
matches_here (letter l ∷ parts) [] = false
matches_here (letter l ∷ parts) (c ∷ text) = lower c == l && matches_here parts text
matches_here (gap ∷ parts) [] = matches_here parts []
matches_here (gap ∷ parts) (c ∷ text) =
    matches_here parts (c ∷ text) || is_gap c && matches_here parts text

-- Anywhere in a text.
pub found_in : List Part → List ℕ → Bool
unfolding matches_here lower is_gap
found_in parts [] = matches_here parts []
found_in parts (c ∷ text) = matches_here parts (c ∷ text) || found_in parts text

abbrev word : String → List Part
word s = map letter (codes s)

-- /sign.?in|log.?in|credential|handoff|takeover|2fa|password|otp/i
abbrev pub sign_in_patterns : List (List Part)
sign_in_patterns =
    (word "sign" ++ gap ∷ word "in")
    ∷ (word "log" ++ gap ∷ word "in")
    ∷ word "credential"
    ∷ word "handoff"
    ∷ word "takeover"
    ∷ word "2fa"
    ∷ word "password"
    ∷ word "otp"
    ∷ []

unfoldable pub speaks_of_sign_in : List ℕ → Bool
unfolding found_in
speaks_of_sign_in text = any (λ p. found_in p text) sign_in_patterns

-- The text that is searched: kind, tool and summary with spaces between.
abbrev pub haystack : String → String → String → List ℕ
haystack kind tool summary = codes kind ++ 32 ∷ (codes tool ++ 32 ∷ codes summary)

unfoldable pub is_credential_ask : String → String → String → Bool
is_credential_ask kind tool summary = speaks_of_sign_in (haystack kind tool summary)

abbrev pub handoff_continue : String
handoff_continue = "I've signed in — continue"

pub record OpenedRequest : Type 0 where
  pub request_type : RequestType
  pub summary : String
  pub choices : Option (List String)

abbrev has_choices : Option (List String) → Bool
has_choices none = false
has_choices (some []) = false
has_choices (some (c ∷ cs)) = true

pub classify_opened_request :
    (String → String) → String → String → String → Option (List String) → OpenedRequest
classify_opened_request sanitize kind tool summary choices =
    if kind === "credential" || is_credential_ask kind tool summary
    then record {
      request_type = credential;
      summary = sanitize summary;
      choices =
          some (
            if has_choices choices then take 5 (get_or_else choices []) else handoff_continue ∷ []);
    }
    else record {
      request_type = if kind === "question" then question else permission;
      summary = summary;
      choices = if has_choices choices then some (take 5 (get_or_else choices [])) else none;
    }

-- A binding to a computer elsewhere: given, not blank, not "local" and not "off".
unfoldable pub is_remote_computer_binding : Option String → Bool
is_remote_computer_binding computer =
    let c = get_or_else computer "" in truthy c && not (c === "local") && not (c === "off")

pub should_offer_desktop : Option String → Bool → Bool
unfolding is_remote_computer_binding
should_offer_desktop computer configured = is_remote_computer_binding computer && configured

-- ===== src/Triggers/Match.antt =====
-- Which events a trigger matches (server/triggers/match.ts, `slackMessageMatches` of
-- server/listeners/slack.ts, the event types of server/listeners/github.ts). Texts are compared by
-- their code points; `toLowerCase` is an argument.
use velarix_bot.Prelude.{
  ℕ, String, Bool, true, false, not, List, [], ◌∷◌, ◌++◌, Option, none, some, any, leb, ◌==◌, ◌===◌,
  ◌&&◌, ◌||◌, get_or_else, if◌then◌else◌, truthy, trim, codes, is_space,
}
use velarix_bot.Triggers.Schedule.{
  Repo, SlackMatch, DiscordMatch, GithubTrigger, SlackTrigger, DiscordTrigger, ListenerTrigger,
  github, slack, discord, RoutineTrigger, interval, at_time, listener, group,
}

pub data DiscordKind : Type 0 where
  message reaction : DiscordKind

pub record DiscordEvent : Type 0 where
  pub kind : DiscordKind
  pub text : Option String
  pub mentioned : Bool
  pub is_dm : Bool
  pub is_thread : Bool
  pub channel_id : Option String
  pub guild_id : Option String
  pub thread_id : Option String
  pub emoji : Option String
  pub self_user_id : Option String

pub data TriggerEvent : Type 0 where
  github_event : String → Option Repo → TriggerEvent
  slack_event : String → Option String → TriggerEvent
  discord_event : DiscordEvent → TriggerEvent

abbrev pub Lower : Type 0
Lower = String → String

starts_with : List ℕ → List ℕ → Bool
starts_with [] cs = true
starts_with (p ∷ ps) [] = false
starts_with (p ∷ ps) (c ∷ cs) = let rest = starts_with ps cs in p == c && rest

includes_codes : List ℕ → List ℕ → Bool
unfolding starts_with
includes_codes needle [] = starts_with needle []
includes_codes needle (c ∷ cs) =
    let rest = includes_codes needle cs in starts_with needle (c ∷ cs) || rest

-- `text.includes(needle)`.
unfoldable pub includes : String → String → Bool
unfolding includes_codes
includes needle text = includes_codes (codes needle) (codes text)

abbrev is_digit : ℕ → Bool
is_digit c = leb 48 c && leb c 57

abbrev is_letter : ℕ → Bool
is_letter c = leb 65 c && leb c 90 || leb 97 c && leb c 122

abbrev is_word : ℕ → Bool
is_word c = is_letter c || (is_digit c || (c == 46 || (c == 95 || c == 45)))

-- One or more characters of a class, then `>`.
closes_tag : (ℕ → Bool) → Bool → List ℕ → Bool
closes_tag p seen [] = false
closes_tag p seen (c ∷ cs) =
    let rest = closes_tag p true cs in if p c then rest else seen && c == 62

opens_word : List ℕ → Bool
opens_word [] = false
opens_word (c ∷ []) = false
opens_word (c ∷ d ∷ cs) = c == 64 && is_word d

-- `/(^|\s)@[A-Za-z0-9._-]+/`; the flag says that a word may open here.
has_at : Bool → List ℕ → Bool
unfolding opens_word
has_at here [] = false
has_at here (c ∷ cs) = let rest = has_at (is_space c) cs in here && opens_word (c ∷ cs) || rest

-- `/<@[A-Z0-9]+>/i`.
slack_tag : List ℕ → Bool
unfolding closes_tag
slack_tag [] = false
slack_tag (c ∷ []) = false
slack_tag (c ∷ d ∷ cs) =
    let rest = slack_tag (d ∷ cs) in
    c == 60 && (d == 64 && closes_tag (λ x. is_letter x || is_digit x) false cs) || rest

after_mark : List ℕ → List ℕ
after_mark [] = []
after_mark (c ∷ cs) = if c == 33 then cs else c ∷ cs

-- `/<@!?\d+>/`.
discord_tag : List ℕ → Bool
unfolding closes_tag after_mark
discord_tag [] = false
discord_tag (c ∷ []) = false
discord_tag (c ∷ d ∷ cs) =
    let rest = discord_tag (d ∷ cs) in
    c == 60 && (d == 64 && closes_tag is_digit false (after_mark cs)) || rest

unfoldable pub keyword_hits : Lower → Option String → String → Bool
unfolding includes
keyword_hits lower word text =
    let needle = lower (trim (get_or_else word "")) in
    if truthy needle then includes needle (lower text) else false

unfoldable pub slack_message_matches : Lower → String → SlackMatch → Option String → Bool
unfolding slack_tag has_at
slack_message_matches lower text SlackMatch.message word = true
slack_message_matches lower text SlackMatch.mention word =
    slack_tag (codes text) || has_at true (codes text)
slack_message_matches lower text SlackMatch.keyword word = keyword_hits lower word text

unfoldable pub discord_text_mentions : String → Option String → Bool
unfolding discord_tag has_at includes_codes
discord_text_mentions text self_user_id =
    let own = get_or_else self_user_id "" in
    if truthy own
    then includes_codes (codes "<@" ++ codes own ++ codes ">") (codes text)
      || includes_codes (codes "<@!" ++ codes own ++ codes ">") (codes text)
    else discord_tag (codes text) || has_at true (codes text)

-- `replace(/^#/, "")`.
unfoldable pub without_hash : String → String
without_hash String.[] = ""
without_hash (String.◌∷◌ c s) = if String.◌∷◌ c "" === "#" then s else String.◌∷◌ c s

unfoldable pub channel_equals : Lower → Option String → Option String → Bool
channel_equals lower want got =
    if not (truthy (get_or_else want ""))
    then true
    else if not (truthy (get_or_else got ""))
    then false
    else lower (without_hash (get_or_else want "")) === lower (without_hash (get_or_else got ""))

abbrev event_types : List (String × String)
event_types =
    ("push", "PushEvent")
    ∷ ("pull_request", "PullRequestEvent")
    ∷ ("issues", "IssuesEvent")
    ∷ ("issue_comment", "IssueCommentEvent")
    ∷ ("release", "ReleaseEvent")
    ∷ ("create", "CreateEvent")
    ∷ ("delete", "DeleteEvent")
    ∷ ("fork", "ForkEvent")
    ∷ ("watch", "WatchEvent")
    ∷ ("pull_request_review", "PullRequestReviewEvent")
    ∷ ("pull_request_review_comment", "PullRequestReviewCommentEvent")
    ∷ []

-- The type of an event's name, against the type of an event.
abbrev is_type_of : String → String → Bool
is_type_of type_name name =
    any (λ (e : String × String). e.0 === name && e.1 === type_name) event_types

abbrev same_repo : Option Repo → Option Repo → Bool
same_repo none got = true
same_repo (some want) none = true
same_repo (some want) (some got) = want.owner === got.owner && want.name === got.name

unfoldable pub github_matches : GithubTrigger → TriggerEvent → Bool
github_matches t (slack_event text channel) = false
github_matches t (discord_event e) = false
github_matches t (github_event type_name repo) =
    if not (same_repo t.repo repo)
    then false
    else any (λ name. is_type_of type_name name || name === type_name) (get_or_else t.events [])

unfoldable pub slack_matches : Lower → SlackTrigger → TriggerEvent → Bool
slack_matches lower t (github_event type_name repo) = false
slack_matches lower t (discord_event e) = false
slack_matches lower t (slack_event text channel) = elim t.match_kind [
  | none ↦ false
  | some kind ↦
      if not (channel_equals lower t.channel channel)
      then false
      else slack_message_matches lower text kind t.keyword
]

unfoldable pub discord_channel_hit : Lower → Option String → DiscordEvent → Bool
discord_channel_hit lower channel e =
    if not (truthy (get_or_else channel ""))
    then true
    else channel_equals lower channel e.channel_id
      || (channel_equals lower channel e.thread_id || channel_equals lower channel e.guild_id)

abbrev is_message : DiscordKind → Bool
is_message message = true
is_message reaction = false

abbrev same_emoji : Option String → String → Bool
same_emoji none want = false
same_emoji (some got) want = got === want

unfoldable pub discord_kind_hit :
    Lower → DiscordMatch → Option String → Option String → DiscordEvent → Bool
discord_kind_hit lower DiscordMatch.mention word emoji e =
    if not (is_message e.kind)
    then false
    else if e.mentioned
    then true
    else discord_text_mentions (get_or_else e.text "") e.self_user_id
discord_kind_hit lower DiscordMatch.dm word emoji e = is_message e.kind && e.is_dm
discord_kind_hit lower DiscordMatch.channel word emoji e =
    is_message e.kind && (not e.is_dm && not e.is_thread)
discord_kind_hit lower DiscordMatch.keyword word emoji e =
    if not (is_message e.kind) then false else keyword_hits lower word (get_or_else e.text "")
discord_kind_hit lower DiscordMatch.reaction word emoji e =
    if is_message e.kind
    then false
    else if not (truthy (get_or_else emoji ""))
    then true
    else same_emoji e.emoji (get_or_else emoji "")
discord_kind_hit lower DiscordMatch.thread word emoji e = is_message e.kind && e.is_thread

unfoldable pub discord_matches : Lower → DiscordTrigger → TriggerEvent → Bool
discord_matches lower t (github_event type_name repo) = false
discord_matches lower t (slack_event text channel) = false
discord_matches lower t (discord_event e) =
    if not (discord_channel_hit lower t.channel e)
    then false
    else discord_kind_hit lower t.match_kind t.keyword t.emoji e

unfoldable pub listener_matches : Lower → ListenerTrigger → TriggerEvent → Bool
listener_matches lower (github t) event = github_matches t event
listener_matches lower (slack t) event = slack_matches lower t event
listener_matches lower (discord t) event = discord_matches lower t event

unfoldable pub trigger_matches : Lower → RoutineTrigger → TriggerEvent → Bool
trigger_matches lower (interval minutes) event = false
trigger_matches lower (at_time clock time time_zone) event = false
trigger_matches lower (listener t) event = listener_matches lower t event
trigger_matches lower (group any_of minutes) event =
    any (λ t. listener_matches lower t event) any_of

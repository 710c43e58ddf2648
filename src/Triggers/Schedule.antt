-- ===== src/Triggers/Schedule.antt =====
-- Triggers and the schedules that they are stored as (server/triggers/contracts.ts,
-- server/triggers/schedule.ts, the types of server/store.ts). The events of GitHub are their names.
use velarix_bot.Prelude.{
  ℕ, String, Bool, true, false, List, [], ◌∷◌, ◌++◌, Option, none, some, map, any, get_or_else,
  if◌then◌else◌, truthy,
}

pub record Repo : Type 0 where
  pub owner : String
  pub name : String

pub data SlackMatch : Type 0 where
  message mention keyword : SlackMatch

pub data DiscordMatch : Type 0 where
  mention dm channel keyword reaction thread : DiscordMatch

-- The fields that a trigger and its schedule have alike.
pub record GithubTrigger : Type 0 where
  pub every_minutes : Option ℕ
  pub repo : Option Repo
  pub events : Option (List String)

pub record SlackTrigger : Type 0 where
  pub every_minutes : Option ℕ
  pub channel : Option String
  pub match_kind : Option SlackMatch
  pub keyword : Option String

pub record DiscordTrigger : Type 0 where
  pub match_kind : DiscordMatch
  pub channel : Option String
  pub keyword : Option String
  pub emoji : Option String

pub data ListenerTrigger : Type 0 where
  github : GithubTrigger → ListenerTrigger
  slack : SlackTrigger → ListenerTrigger
  discord : DiscordTrigger → ListenerTrigger

pub data Clock : Type 0 where
  daily weekdays : Clock

pub data RoutineTrigger : Type 0 where
  interval : ℕ → RoutineTrigger
  at_time : Clock → String → Option String → RoutineTrigger
  listener : ListenerTrigger → RoutineTrigger
  group : List ListenerTrigger → Option ℕ → RoutineTrigger

pub record DiscordSchedule : Type 0 where
  pub every_minutes : Option ℕ
  pub match_kind : Option DiscordMatch
  pub channel : Option String
  pub keyword : Option String
  pub emoji : Option String

pub data ListenerSchedule : Type 0 where
  github_schedule : GithubTrigger → ListenerSchedule
  slack_schedule : SlackTrigger → ListenerSchedule
  discord_schedule : DiscordSchedule → ListenerSchedule

pub data RoutineSchedule : Type 0 where
  interval_schedule : ℕ → RoutineSchedule
  clock_schedule : Clock → String → Option String → RoutineSchedule
  listener_schedule : ListenerSchedule → RoutineSchedule
  group_schedule : List ListenerSchedule → Option ℕ → RoutineSchedule

-- A key that is left out where its text is empty.
abbrev pub given : Option String → Option String
given none = none
given (some s) = if truthy s then some s else none

abbrev pub given_list : Option (List String) → Option (List String)
given_list none = none
given_list (some []) = none
given_list (some (e ∷ es)) = some (e ∷ es)

abbrev or_default : Option ℕ → Option ℕ
or_default minutes = some (get_or_else minutes 15)

abbrev pub keyword_of : Option SlackMatch → Option String → Option String
keyword_of none word = none
keyword_of (some SlackMatch.message) word = none
keyword_of (some SlackMatch.mention) word = none
keyword_of (some SlackMatch.keyword) word = given word

abbrev pub discord_keyword : DiscordMatch → Option String → Option String
discord_keyword DiscordMatch.keyword word = given word
discord_keyword _ word = none

abbrev pub discord_emoji : DiscordMatch → Option String → Option String
discord_emoji DiscordMatch.reaction word = given word
discord_emoji _ word = none

unfoldable pub listener_to_schedule : ListenerTrigger → ListenerSchedule
listener_to_schedule (github t) = github_schedule (record {
  every_minutes = or_default t.every_minutes;
  repo = t.repo;
  events = given_list t.events;
})
listener_to_schedule (slack t) = slack_schedule (record {
  every_minutes = or_default t.every_minutes;
  channel = given t.channel;
  match_kind = t.match_kind;
  keyword = keyword_of t.match_kind t.keyword;
})
listener_to_schedule (discord t) = discord_schedule (record {
  every_minutes = none;
  match_kind = some t.match_kind;
  channel = given t.channel;
  keyword = discord_keyword t.match_kind t.keyword;
  emoji = discord_emoji t.match_kind t.emoji;
})

unfoldable pub schedule_from_trigger : RoutineTrigger → RoutineSchedule
schedule_from_trigger (interval minutes) = interval_schedule minutes
schedule_from_trigger (at_time clock time time_zone) = clock_schedule clock time (given time_zone)
schedule_from_trigger (listener t) = listener_schedule (listener_to_schedule t)
schedule_from_trigger (group any_of minutes) =
    group_schedule (map listener_to_schedule any_of) (or_default minutes)

abbrev discord_kind : DiscordSchedule → DiscordMatch
discord_kind s = get_or_else s.match_kind DiscordMatch.channel

-- The keyword of a schedule is read by its own match, before the default.
abbrev schedule_keyword : Option DiscordMatch → Option String → Option String
schedule_keyword none word = none
schedule_keyword (some kind) word = discord_keyword kind word

abbrev schedule_emoji : Option DiscordMatch → Option String → Option String
schedule_emoji none word = none
schedule_emoji (some kind) word = discord_emoji kind word

unfoldable pub listener_from_schedule : ListenerSchedule → ListenerTrigger
listener_from_schedule (github_schedule s) =
    github (record { every_minutes = s.every_minutes; repo = s.repo; events = given_list s.events })
listener_from_schedule (slack_schedule s) = slack (record {
  every_minutes = s.every_minutes;
  channel = given s.channel;
  match_kind = s.match_kind;
  keyword = keyword_of s.match_kind s.keyword;
})
listener_from_schedule (discord_schedule s) = discord (record {
  match_kind = discord_kind s;
  channel = given s.channel;
  keyword = schedule_keyword s.match_kind s.keyword;
  emoji = schedule_emoji s.match_kind s.emoji;
})

unfoldable pub trigger_from_schedule : RoutineSchedule → RoutineTrigger
trigger_from_schedule (interval_schedule minutes) = interval minutes
trigger_from_schedule (clock_schedule clock time time_zone) = at_time clock time (given time_zone)
trigger_from_schedule (listener_schedule s) = listener (listener_from_schedule s)
trigger_from_schedule (group_schedule any_of minutes) =
    group (map listener_from_schedule any_of) (or_default minutes)

abbrev pub is_polled : ListenerSchedule → Bool
is_polled (github_schedule s) = true
is_polled (slack_schedule s) = true
is_polled (discord_schedule s) = false

abbrev pub is_pushed : ListenerSchedule → Bool
is_pushed (github_schedule s) = false
is_pushed (slack_schedule s) = false
is_pushed (discord_schedule s) = true

unfoldable pub is_pollable_schedule : RoutineSchedule → Bool
is_pollable_schedule (interval_schedule minutes) = false
is_pollable_schedule (clock_schedule clock time time_zone) = false
is_pollable_schedule (listener_schedule s) = is_polled s
is_pollable_schedule (group_schedule any_of minutes) = any is_polled any_of

unfoldable pub is_event_driven_schedule : RoutineSchedule → Bool
is_event_driven_schedule (interval_schedule minutes) = false
is_event_driven_schedule (clock_schedule clock time time_zone) = false
is_event_driven_schedule (listener_schedule s) = is_pushed s
is_event_driven_schedule (group_schedule any_of minutes) = any is_pushed any_of

abbrev pub polled_only : ListenerSchedule → List ListenerSchedule
polled_only s = if is_polled s then s ∷ [] else []

abbrev pub flat_polled : List ListenerSchedule → List ListenerSchedule
flat_polled [] = []
flat_polled (s ∷ ss) = polled_only s ++ flat_polled ss

unfoldable pub pollable_listener_schedules : RoutineSchedule → List ListenerSchedule
pollable_listener_schedules (interval_schedule minutes) = []
pollable_listener_schedules (clock_schedule clock time time_zone) = []
pollable_listener_schedules (listener_schedule s) = polled_only s
pollable_listener_schedules (group_schedule any_of minutes) = flat_polled any_of

-- ===== src/Triggers/Stored.antt =====
-- A trigger that is stored as a schedule and read back (server/triggers/schedule.ts) is the trigger
-- that was stored, for all that match.ts asks of it.
use velarix_bot.Prelude.{
  ℕ, String, List, [], ◌∷◌, Option, none, some, map, any, get_or_else, ◌≡◌, refl,
}
use velarix_bot.Triggers.Schedule.{
  SlackMatch, DiscordMatch, GithubTrigger, SlackTrigger, DiscordTrigger, ListenerTrigger, github,
  slack, discord, RoutineTrigger, interval, at_time, listener, group, given, given_list, keyword_of,
  discord_keyword, discord_emoji, listener_to_schedule, schedule_from_trigger,
  listener_from_schedule, trigger_from_schedule,
}
use velarix_bot.Triggers.Match.{
  Lower, TriggerEvent, DiscordEvent, github_event, slack_event, discord_event, listener_matches,
  github_matches, slack_matches, discord_matches, discord_channel_hit, discord_kind_hit,
  channel_equals, keyword_hits, slack_message_matches, trigger_matches,
}

given_twice : (o : Option String) → given (given o) ≡ given o
given_twice none = refl
given_twice (some String.[]) = refl
given_twice (some (String.◌∷◌ c s)) = refl

get-given : (o : Option String) → get_or_else (given o) "" ≡ get_or_else o ""
get-given none = refl
get-given (some String.[]) = refl
get-given (some (String.◌∷◌ c s)) = refl

given_list_twice : (o : Option (List String)) → given_list (given_list o) ≡ given_list o
given_list_twice none = refl
given_list_twice (some []) = refl
given_list_twice (some (e ∷ es)) = refl

get-given_list : (o : Option (List String)) → get_or_else (given_list o) [] ≡ get_or_else o []
get-given_list none = refl
get-given_list (some []) = refl
get-given_list (some (e ∷ es)) = refl

keyword_again :
    (lower : Lower) (word : Option String) (text : String)
    → keyword_hits lower (given (given word)) text ≡ keyword_hits lower word text
unfolding keyword_hits
keyword_again lower none text = refl
keyword_again lower (some String.[]) text = refl
keyword_again lower (some (String.◌∷◌ c s)) text = refl

channel_again :
    (lower : Lower) (want got : Option String)
    → channel_equals lower (given (given want)) got ≡ channel_equals lower want got
unfolding channel_equals
channel_again lower none got = refl
channel_again lower (some String.[]) got = refl
channel_again lower (some (String.◌∷◌ c s)) got = refl

channel_hit_again :
    (lower : Lower) (want : Option String) (e : DiscordEvent)
    → discord_channel_hit lower (given (given want)) e ≡ discord_channel_hit lower want e
unfolding discord_channel_hit
channel_hit_again lower none e = refl
channel_hit_again lower (some String.[]) e = refl
channel_hit_again lower (some (String.◌∷◌ c s)) e = refl

emoji_again :
    (lower : Lower) (word emoji : Option String) (e : DiscordEvent)
    → discord_kind_hit lower DiscordMatch.reaction word (given (given emoji)) e
      ≡ discord_kind_hit lower DiscordMatch.reaction word emoji e
unfolding discord_kind_hit
emoji_again lower word none e = refl
emoji_again lower word (some String.[]) e = refl
emoji_again lower word (some (String.◌∷◌ c s)) e = refl

-- What is stored of the word and the emoji, read back, decides as they do.
kind_again :
    (lower : Lower) (kind : DiscordMatch) (word emoji : Option String) (e : DiscordEvent)
    → discord_kind_hit lower kind
        (discord_keyword kind (discord_keyword kind word))
        (discord_emoji kind (discord_emoji kind emoji))
        e
      ≡ discord_kind_hit lower kind word emoji e
unfolding discord_kind_hit
kind_again lower DiscordMatch.mention word emoji e = refl
kind_again lower DiscordMatch.dm word emoji e = refl
kind_again lower DiscordMatch.channel word emoji e = refl
kind_again lower DiscordMatch.keyword word emoji e =
    rw (keyword_again lower word (get_or_else e.text "")) refl
kind_again lower DiscordMatch.reaction word emoji e = emoji_again lower none emoji e
kind_again lower DiscordMatch.thread word emoji e = refl

slack_again :
    (lower : Lower) (kind : SlackMatch) (word : Option String) (text : String)
    → slack_message_matches lower text kind (keyword_of (some kind) (keyword_of (some kind) word))
      ≡ slack_message_matches lower text kind word
unfolding slack_message_matches
slack_again lower SlackMatch.message word text = refl
slack_again lower SlackMatch.mention word text = refl
slack_again lower SlackMatch.keyword word text = keyword_again lower word text

-- A listener as it comes back.
abbrev reread : ListenerTrigger → ListenerTrigger
reread t = listener_from_schedule (listener_to_schedule t)

github_reread :
    (lower : Lower) (t : GithubTrigger) (e : TriggerEvent)
    → listener_matches lower (reread (github t)) e ≡ listener_matches lower (github t) e
unfolding listener_matches listener_to_schedule listener_from_schedule github_matches
github_reread lower t (slack_event text channel) = refl
github_reread lower t (discord_event d) = refl
github_reread lower t (github_event type_name repo) =
    rw (given_list_twice t.events, get-given_list t.events) refl

slack_kind :
    (lower : Lower) (kind : Option SlackMatch) (want got word : Option String) (text : String)
    (minutes minutes' : Option ℕ)
    → slack_matches lower
        (record {
          every_minutes = minutes;
          channel = given (given want);
          match_kind = kind;
          keyword = keyword_of kind (keyword_of kind word);
        })
        (slack_event text got)
      ≡ slack_matches lower
          (record { every_minutes = minutes'; channel = want; match_kind = kind; keyword = word })
          (slack_event text got)
unfolding slack_matches
slack_kind lower none want got word text minutes minutes' = refl
slack_kind lower (some kind) want got word text minutes minutes' =
    rw (channel_again lower want got, slack_again lower kind word text) refl

slack_reread :
    (lower : Lower) (t : SlackTrigger) (e : TriggerEvent)
    → listener_matches lower (reread (slack t)) e ≡ listener_matches lower (slack t) e
unfolding listener_matches listener_to_schedule listener_from_schedule slack_matches
slack_reread lower t (github_event type_name repo) = refl
slack_reread lower t (discord_event d) = refl
slack_reread lower t (slack_event text got) =
    slack_kind lower t.match_kind t.channel got t.keyword text
      (some (get_or_else t.every_minutes 15)) t.every_minutes

discord_reread :
    (lower : Lower) (t : DiscordTrigger) (e : TriggerEvent)
    → listener_matches lower (reread (discord t)) e ≡ listener_matches lower (discord t) e
unfolding listener_matches listener_to_schedule listener_from_schedule discord_matches
discord_reread lower t (github_event type_name repo) = refl
discord_reread lower t (slack_event text channel) = refl
discord_reread lower t (discord_event e) =
    rw (channel_hit_again lower t.channel e, kind_again lower t.match_kind t.keyword t.emoji e) refl

listener_reread :
    (lower : Lower) (t : ListenerTrigger) (e : TriggerEvent)
    → listener_matches lower (reread t) e ≡ listener_matches lower t e
listener_reread lower (github t) e = github_reread lower t e
listener_reread lower (slack t) e = slack_reread lower t e
listener_reread lower (discord t) e = discord_reread lower t e

any_reread :
    (lower : Lower) (ts : List ListenerTrigger) (e : TriggerEvent)
    → any
        (λ t. listener_matches lower t e)
        (map listener_from_schedule (map listener_to_schedule ts))
      ≡ any (λ t. listener_matches lower t e) ts
any_reread lower [] e = refl
any_reread lower (t ∷ ts) e = rw (listener_reread lower t e, any_reread lower ts e) refl

-- A trigger that is stored and read back matches the events that the trigger matches, whatever
-- `toLowerCase` does.
pub trigger_matches_stored :
    (lower : Lower) (t : RoutineTrigger) (e : TriggerEvent)
    → trigger_matches lower (trigger_from_schedule (schedule_from_trigger t)) e
      ≡ trigger_matches lower t e
unfolding trigger_matches trigger_from_schedule schedule_from_trigger
trigger_matches_stored lower (interval minutes) e = refl
trigger_matches_stored lower (at_time clock time time_zone) e = refl
trigger_matches_stored lower (listener t) e = listener_reread lower t e
trigger_matches_stored lower (group any_of minutes) e = any_reread lower any_of e

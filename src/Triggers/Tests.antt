-- ===== src/Triggers/Tests.antt =====
-- Triggers and events, and the theorems at concrete inputs.
use velarix_bot.Prelude.{is_space, true, false, [], ◌∷◌, none, some, ◌≡◌, refl}
use velarix_bot.Triggers.Schedule.{
  SlackMatch, DiscordMatch, github, slack, discord, RoutineTrigger, group, schedule_from_trigger,
  trigger_from_schedule,
}
use velarix_bot.Triggers.Match.{
  Lower, TriggerEvent, github_event, slack_event, discord_event, DiscordKind, trigger_matches,
  listener_matches, github_matches, slack_matches, discord_matches, channel_equals,
  slack_message_matches, discord_text_mentions, discord_channel_hit, discord_kind_hit, without_hash,
}
use velarix_bot.Triggers.Stored.{trigger_matches_stored}

abbrev as_is : Lower
as_is s = s

abbrev watch : RoutineTrigger
watch =
    group
      (github (record { every_minutes = none; repo = none; events = some ("push" ∷ []) })
        ∷ slack (record {
          every_minutes = none;
          channel = some "#ops";
          match_kind = some SlackMatch.mention;
          keyword = some "";
        })
        ∷ discord (record {
          match_kind = DiscordMatch.mention;
          channel = some "";
          keyword = none;
          emoji = none;
        })
        ∷ [])
      none

abbrev pinged : TriggerEvent
pinged = slack_event "ask <@U1> or @bob" (some "ops")

abbrev typed : TriggerEvent
typed = discord_event (record {
  kind = DiscordKind.message;
  text = some "hi <@!42>";
  mentioned = false;
  is_dm = false;
  is_thread = false;
  channel_id = none;
  guild_id = none;
  thread_id = none;
  emoji = none;
  self_user_id = some "42";
})

matches :
    (trigger_matches as_is watch pinged ≡ true)
    × (trigger_matches as_is watch typed ≡ true)
    × (trigger_matches as_is watch (slack_event "mail a@b" (some "ops")) ≡ false)
    × (trigger_matches as_is watch (github_event "PushEvent" none) ≡ true)
unfolding trigger_matches listener_matches github_matches slack_matches discord_matches
    channel_equals slack_message_matches discord_text_mentions discord_channel_hit discord_kind_hit
    without_hash is_space
matches = (refl, refl, refl, refl)

trigger_matches_stored_example :
    trigger_matches as_is (trigger_from_schedule (schedule_from_trigger watch)) pinged
    ≡ trigger_matches as_is watch pinged
trigger_matches_stored_example = trigger_matches_stored as_is watch pinged

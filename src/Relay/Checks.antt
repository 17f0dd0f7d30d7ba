-- ===== src/Relay/Checks.antt =====
-- A relay with a target that answers and a shadow that does not.
use interview_analytics_agen.Common.{
  ℕ, ◌+◌, ◌≤◌, ◌≡◌, ◌⊎◌, refl, String, List, true, none, some, length, ◌==◌, if◌then◌else◌,
}
use interview_analytics_agen.Common.Exec.{ok, raised}
use interview_analytics_agen.Relay.{
  channel_name, Env, Kind, Exc, fail_on_error, targets, retry_count, retry_backoff_ms, response,
  timed_out, Io, webhook,
}
use interview_analytics_agen.Relay.Laws.{ForwardsAll, webhook_answers}

abbrev env : Env
env name =
    if name == "ALERT_RELAY_CRITICAL_TARGET_URL"
    then some "http://pager"
    else if name == "ALERT_RELAY_CRITICAL_SHADOW_URL"
    then some "http://shadow"
    else none

abbrev network : Io
network = record {
  World = ℕ;
  Payload = Unit;
  post = λ url payload t w. (if url == "http://pager" then response 200 else timed_out, w + 1);
  sleep_ms = λ n w. w;
}

webhook_answers_example :
    (n : ℕ) × (errors : List (Kind × String × Exc)) × ForwardsAll network env tt
      (targets env (channel_name "critical"))
      0
      n
      errors
      (webhook network env "critical" tt 0).1
    × let failing = (1 ≤ length errors) × (fail_on_error env ≡ true) in
      let c = channel_name "critical" in
      (failing
        × ((webhook network env "critical" tt 0).0
            ≡ raised (record { channel = c; forwarded = n; errors = errors })))
      ⊎ ((failing → ⊥)
          × ((webhook network env "critical" tt 0).0
              ≡ ok (record { channel = c; forwarded = n; errors = length errors })))
webhook_answers_example = webhook_answers network env "critical" tt 0

-- The shadow times out three times, and the webhook fails.
posts_made : (webhook network env "critical" tt 0).1 ≡ 4
unfolding webhook targets retry_count retry_backoff_ms
posts_made = refl

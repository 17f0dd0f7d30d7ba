-- ===== src/Connector/Pull.antt =====
-- `pull_sberjazz_live_chunks` of sberjazz_service.py: one meeting after the other, with the count of
-- failures in a row that Redis keeps for each.
pub mod Laws
use interview_analytics_agen.Common.{
  ℕ, suc, ◌+◌, ◌-◌, String, Bool, true, false, not, List, [], ◌∷◌, max, leb, decimal, if◌then◌else◌,
}
use interview_analytics_agen.Common.Exec.{Result, ok, raised, Exec, ◌>>=◌, ◌>>◌, pure}
use interview_analytics_agen.Common.Int.{at_least}
use interview_analytics_agen.Settings.{Settings}
use interview_analytics_agen.Connector.Io.{
  Exc, Stamp, at, SessionState, live_fail_count, plain, Io, Service, M, call, now,
}
use interview_analytics_agen.Connector.Breaker.{session_ttl_sec}
use interview_analytics_agen.Connector.Sessions.{list_sessions}
use interview_analytics_agen.Connector.Calls.{reconnect_meeting}
use interview_analytics_agen.Connector.Live.{pull_meeting}

-- The counts of `SberJazzLivePullResult`.
pub record Counts : Type 0 where
  pub scanned : ℕ
  pub connected : ℕ
  pub pulled : ℕ
  pub ingested : ℕ
  pub failed : ℕ
  pub invalid_chunks : ℕ

pub record LivePullResult : Type 0 where
  pub counts : Counts
  pub updated_at : Stamp

abbrev pub no_counts : Counts
no_counts = record {
  scanned = 0;
  connected = 0;
  pulled = 0;
  ingested = 0;
  failed = 0;
  invalid_chunks = 0;
}

abbrev pub add_pulled : Counts → ℕ × ℕ × ℕ → Counts
add_pulled c n = record c {
  pulled = c.pulled + n.0;
  ingested = c.ingested + n.1;
  invalid_chunks = c.invalid_chunks + n.2;
}

abbrev pub add_failed : Counts → Counts
add_failed c = record c { failed = c.failed + 1 }

module _ (io : Io) (cfg : Settings) where
  abbrev pub fail_threshold : ℕ
  fail_threshold = at_least 1 cfg.sberjazz_live_pull_fail_reconnect_threshold

  -- `_inc_live_pull_fail_count`
  pub inc_fail_count : String → M io ℕ
  unfolding decimal
  inc_fail_count meeting_id = do
    count ← call io (io.incr (live_fail_count meeting_id))
    call io (io.set (live_fail_count meeting_id) (plain (decimal count)) (session_ttl_sec cfg))
    pure count

  -- `_reset_live_pull_fail_count`
  pub reset_fail_count : String → M io (Unit {0})
  reset_fail_count meeting_id = call io (io.delete (live_fail_count meeting_id))

  -- What the reconnect raises is logged; what the reset in its `finally` raises is not caught.
  pub reconnect_and_reset : String → M io (Unit {0})
  unfolding reset_fail_count
  reconnect_and_reset meeting_id s =
      let (r, s') = reconnect_meeting io cfg meeting_id s in reset_fail_count meeting_id s'

  pub count_failure : String → Counts → ℕ → M io Counts
  unfolding reconnect_and_reset
  count_failure meeting_id c count =
      (if leb fail_threshold count then reconnect_and_reset meeting_id else pure tt)
      >> pure (add_failed c)

  -- The handler of an exception of one meeting.
  pub on_pull_failure : String → Counts → M io Counts
  unfolding inc_fail_count count_failure
  on_pull_failure meeting_id c = inc_fail_count meeting_id >>= count_failure meeting_id c

  -- The rest of the `try` after a pull: resetting the count may raise too.
  pub after_pull : String → Counts → Result Exc (ℕ × ℕ × ℕ) → M io Counts
  unfolding on_pull_failure
  after_pull meeting_id c (raised e) s = on_pull_failure meeting_id c s
  after_pull meeting_id c (ok n) s =
      let (r, s') = reset_fail_count meeting_id s in
      elim r [
        | ok u ↦ (ok (add_pulled c n), s')
        | raised e ↦ on_pull_failure meeting_id (add_pulled c n) s'
      ]

  -- One round of the loop.
  pub pull_one : ℕ → SessionState → Counts → M io Counts
  unfolding after_pull
  pull_one batch_limit st c s =
      let seen = record c { scanned = c.scanned + 1 } in
      let (r, s') = pull_meeting io cfg st.meeting_id (max 1 batch_limit) s in
      if st.connected
      then after_pull st.meeting_id (record seen { connected = c.connected + 1 }) r s'
      else (ok seen, s)

  pub pull_all : ℕ → List SessionState → Counts → M io Counts
  pull_all batch_limit [] c = pure c
  pull_all batch_limit (st ∷ states) c = do
    c' ← pull_one batch_limit st c
    pull_all batch_limit states c'

  pub finish : Counts → Service io → Result Exc LivePullResult × Service io
  finish c s = let (t, s') = now io s in (ok (record { counts = c; updated_at = at t }), s')

  -- `pull_sberjazz_live_chunks`
  unfoldable pub pull_live_chunks : ℕ → ℕ → M io LivePullResult
  unfolding pull_all pull_one finish
  pull_live_chunks limit_sessions batch_limit = do
    states ← list_sessions io cfg (max 1 limit_sessions)
    c ← pull_all batch_limit states no_counts
    finish c

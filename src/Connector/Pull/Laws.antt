-- ===== src/Connector/Pull/Laws.antt =====
-- What `pull_sberjazz_live_chunks` does with each session that was listed.
use interview_analytics_agen.Common.{
  ℕ, suc, ◌+◌, ◌≤◌, ◌≡◌, refl, sym, ap, ◌∙◌, inl, inr, String, true, false, List, [], ◌∷◌, max,
  length, leb, Bool-cases, arith,
}
use interview_analytics_agen.Common.Exec.{
  Result, ok, raised, Result-cases, bind_ok, ok_injective, ◌>>=◌, pure,
}
use interview_analytics_agen.Settings.{Settings}
use interview_analytics_agen.Connector.Io.{Exc, at, SessionState, Io, Service, M, now}
use interview_analytics_agen.Connector.Sessions.{list_sessions}
use interview_analytics_agen.Connector.Calls.{reconnect_meeting}
use interview_analytics_agen.Connector.Reconcile.Laws.{list_sessions-bounded}
use interview_analytics_agen.Connector.Live.{pull_meeting}
use interview_analytics_agen.Connector.Pull.{
  Counts, no_counts, LivePullResult, fail_threshold, inc_fail_count, reset_fail_count,
  reconnect_and_reset, count_failure, on_pull_failure, after_pull, finish, pull_one, pull_all,
  pull_live_chunks,
}

abbrev pub scanned_one : Counts → Counts
scanned_one c = record c { scanned = c.scanned + 1 }

abbrev pub connected_one : Counts → Counts
connected_one c = record c { scanned = c.scanned + 1; connected = c.connected + 1 }

abbrev pub plus : Counts → ℕ → ℕ → ℕ → Counts
plus c pulled ingested invalid = record c {
  pulled = c.pulled + pulled;
  ingested = c.ingested + ingested;
  invalid_chunks = c.invalid_chunks + invalid;
}

abbrev pub failed_one : Counts → Counts
failed_one c = record c { failed = c.failed + 1 }

pair_with : {A B : Type 0} (p : A × B) (a : A) → p.0 ≡ a → p ≡ (a, p.1)
pair_with {A = A} {B = B} p a e = let put : A → A × B = λ x. (x, p.1) in ap put e

module _ (io : Io) (cfg : Settings) where
  -- After a failed pull the failures in a row are counted; where they reach the threshold, the
  -- meeting is reconnected, whatever comes of it, and the count starts again.
  pub data Recovers (meeting_id : String) (s : Service io) : Service io → Type 0 where
    below :
        {count : ℕ}
        → (inc_fail_count io cfg meeting_id s).0 ≡ ok count
        → suc count ≤ fail_threshold io cfg
        → Recovers meeting_id s (inc_fail_count io cfg meeting_id s).1
    reached :
        {count : ℕ} {s' : Service io}
        → (inc_fail_count io cfg meeting_id s).0 ≡ ok count
        → fail_threshold io cfg ≤ count
        → reset_fail_count io cfg meeting_id
            (reconnect_meeting io cfg meeting_id (inc_fail_count io cfg meeting_id s).1).1
          ≡ (ok tt, s')
        → Recovers meeting_id s s'

  -- What is done for one session: nothing where it is not connected; otherwise its chunks are pulled,
  -- and a pull or a reset of the count that raised is a failure, in the second case with the chunks
  -- counted.
  pub data Pulls (batch_limit : ℕ) (st : SessionState) (c : Counts) (s : Service io)
      : Counts → Service io → Type 0 where
    disconnected : st.connected ≡ false → Pulls batch_limit st c s (scanned_one c) s
    pulled :
        {p i v : ℕ} {s' s'' : Service io}
        → st.connected ≡ true
        → pull_meeting io cfg st.meeting_id (max 1 batch_limit) s ≡ (ok (p, i, v), s')
        → reset_fail_count io cfg st.meeting_id s' ≡ (ok tt, s'')
        → Pulls batch_limit st c s (plus (connected_one c) p i v) s''
    not_reset :
        {p i v : ℕ} {e : Exc} {s' s'' s''' : Service io}
        → st.connected ≡ true
        → pull_meeting io cfg st.meeting_id (max 1 batch_limit) s ≡ (ok (p, i, v), s')
        → reset_fail_count io cfg st.meeting_id s' ≡ (raised e, s'')
        → Recovers st.meeting_id s'' s'''
        → Pulls batch_limit st c s (failed_one (plus (connected_one c) p i v)) s'''
    not_pulled :
        {e : Exc} {s' s'' : Service io}
        → st.connected ≡ true
        → pull_meeting io cfg st.meeting_id (max 1 batch_limit) s ≡ (raised e, s')
        → Recovers st.meeting_id s' s''
        → Pulls batch_limit st c s (failed_one (connected_one c)) s''

  -- One session after the other.
  pub data PullsAll (batch_limit : ℕ)
      : List SessionState → Counts → Service io → Counts → Service io → Type 0 where
    done : {c : Counts} {s : Service io} → PullsAll batch_limit [] c s c s
    next :
        {st : SessionState} {rest : List SessionState} {c c' c'' : Counts} {s s' s'' : Service io}
        → Pulls batch_limit st c s c' s'
        → PullsAll batch_limit rest c' s' c'' s''
        → PullsAll batch_limit (st ∷ rest) c s c'' s''

  count_failure-Recovers :
      (meeting_id : String) (c c' : Counts) (count : ℕ) (s : Service io)
      → (inc_fail_count io cfg meeting_id s).0 ≡ ok count
      → let s' = (inc_fail_count io cfg meeting_id s).1 in
        (count_failure io cfg meeting_id c count s').0 ≡ ok c'
        → (c' ≡ failed_one c) × Recovers meeting_id s (count_failure io cfg meeting_id c count s').1
  unfolding count_failure reconnect_and_reset
  count_failure-Recovers meeting_id c c' count s got h =
      let s' = (inc_fail_count io cfg meeting_id s).1 in
      elim (Bool-cases (leb (fail_threshold io cfg) count)) [
        | inr few ↦ rw few (sym (ok_injective (rw few at h)), below got (ground arith))
        | inl many ↦
            let (u, ran, step) =
              bind_ok (reconnect_and_reset io cfg meeting_id) (λ _. pure (failed_one c)) s' c'
                (rw many at h) in
            rw many (
              sym (ok_injective (ap (λ x. x.0) (sym step) ∙ rw many at h)),
              rw step (
                  reached got (ground arith) (
                    pair_with
                      (reset_fail_count io cfg meeting_id
                        (reconnect_meeting io cfg meeting_id s').1)
                      (ok tt) ran)),
            )
      ]

  on_pull_failure-Recovers :
      (meeting_id : String) (c c' : Counts) (s : Service io)
      → (on_pull_failure io cfg meeting_id c s).0 ≡ ok c'
      → (c' ≡ failed_one c) × Recovers meeting_id s (on_pull_failure io cfg meeting_id c s).1
  unfolding on_pull_failure
  on_pull_failure-Recovers meeting_id c c' s h =
      let (count, got, step) =
        bind_ok (inc_fail_count io cfg meeting_id) (count_failure io cfg meeting_id c) s c' h in
      rw step (count_failure-Recovers meeting_id c c' count s got (ap (λ x. x.0) (sym step) ∙ h))

  after_pull-Pulls :
      (batch_limit : ℕ) (st : SessionState) (c c' : Counts) (s s' : Service io)
      (r : Result Exc (ℕ × ℕ × ℕ))
      → st.connected ≡ true
      → pull_meeting io cfg st.meeting_id (max 1 batch_limit) s ≡ (r, s')
      → (after_pull io cfg st.meeting_id (connected_one c) r s').0 ≡ ok c'
      → Pulls batch_limit st c s c' (after_pull io cfg st.meeting_id (connected_one c) r s').1
  unfolding after_pull
  after_pull-Pulls batch_limit st c c' s s' (raised e) up got h =
      let (same, recovers) = on_pull_failure-Recovers st.meeting_id (connected_one c) c' s' h in
      rw same (not_pulled up got recovers)
  after_pull-Pulls batch_limit st c c' s s' (ok (p, i, v)) up got h =
      elim (Result-cases (reset_fail_count io cfg st.meeting_id s').0) [
        | inl (u, e) ↦
            rw (e, after_pull)
              (rw (← ok_injective (rw (e, after_pull) at h))
                (pulled up got (pair_with (reset_fail_count io cfg st.meeting_id s') (ok tt) e)))
        | inr (x, e) ↦
            let c₁ = plus (connected_one c) p i v in
            let (same, recovers) =
              on_pull_failure-Recovers st.meeting_id c₁ c'
                (reset_fail_count io cfg st.meeting_id s').1 (rw (e, after_pull) at h) in
            rw (e, after_pull)
              (rw same (
                not_reset up got (pair_with (reset_fail_count io cfg st.meeting_id s') (raised x) e)
                  recovers))
      ]

  one_disconnected :
      (batch_limit : ℕ) (st : SessionState) (c : Counts) (s : Service io)
      → st.connected ≡ false
      → pull_one io cfg batch_limit st c s ≡ (ok (scanned_one c), s)
  unfolding pull_one
  one_disconnected batch_limit st c s down = rw down refl

  one_connected :
      (batch_limit : ℕ) (st : SessionState) (c : Counts) (s : Service io)
      → st.connected ≡ true
      → let (r, s') = pull_meeting io cfg st.meeting_id (max 1 batch_limit) s in
        pull_one io cfg batch_limit st c s ≡ after_pull io cfg st.meeting_id (connected_one c) r s'
  unfolding pull_one
  one_connected batch_limit st c s up = rw up refl

  pull_one-Pulls :
      (batch_limit : ℕ) (st : SessionState) (c c' : Counts) (s : Service io)
      → (pull_one io cfg batch_limit st c s).0 ≡ ok c'
      → Pulls batch_limit st c s c' (pull_one io cfg batch_limit st c s).1
  pull_one-Pulls batch_limit st c c' s h = elim (Bool-cases st.connected) [
    | inl up ↦
        let one = one_connected batch_limit st c s up in
        let (r, s') = pull_meeting io cfg st.meeting_id (max 1 batch_limit) s in
        rw one (after_pull-Pulls batch_limit st c c' s s' r up refl (rw one at h))
    | inr down ↦
        let one = one_disconnected batch_limit st c s down in
        rw one (rw (← ok_injective (rw one at h)) (disconnected down))
  ]

  pull_all-PullsAll :
      (batch_limit : ℕ) (states : List SessionState) (c c' : Counts) (s : Service io)
      → (pull_all io cfg batch_limit states c s).0 ≡ ok c'
      → PullsAll batch_limit states c s c' (pull_all io cfg batch_limit states c s).1
  unfolding pull_all
  pull_all-PullsAll batch_limit [] c c' s h = rw (← ok_injective h) done
  pull_all-PullsAll batch_limit (st ∷ rest) c c' s h =
      let (c₁, got, step) =
        bind_ok (pull_one io cfg batch_limit st c) (pull_all io cfg batch_limit rest) s c' h in
      let s₁ = (pull_one io cfg batch_limit st c s).1 in
      rw step (
        next (pull_one-Pulls batch_limit st c c₁ s got)
          (pull_all-PullsAll batch_limit rest c₁ c' s₁ (ap (λ x. x.0) (sym step) ∙ h)))

  -- A live pull that returns has gone through the sessions that were listed, at most max(1, limit) of
  -- them, from no counts to those it returns. A session that is not connected is only scanned. Of
  -- every other one the chunks are pulled and counted; where that or the reset of its failures raised,
  -- it counts as failed and its failures in a row are counted, and once they reach the threshold the
  -- meeting is reconnected and their count is reset.
  pub pull_live_chunks-PullsAll :
      (limit_sessions batch_limit : ℕ) (s : Service io) (result : LivePullResult)
      → (pull_live_chunks io cfg limit_sessions batch_limit s).0 ≡ ok result
      → (states : List SessionState) × (after : Service io) × ((list_sessions io cfg
            (max 1 limit_sessions)
            s).0
          ≡ ok states)
        × (length states ≤ max 1 limit_sessions)
        × PullsAll batch_limit states no_counts
            (list_sessions io cfg (max 1 limit_sessions) s).1
            result.counts
            after
        × ((pull_live_chunks io cfg limit_sessions batch_limit s).1 ≡ (now io after).1)
  unfolding pull_live_chunks finish
  pull_live_chunks-PullsAll limit_sessions batch_limit s result e =
      let pull : List SessionState → M io Counts =
        λ states. pull_all io cfg batch_limit states no_counts in
      let (states, listed, step) =
        bind_ok (list_sessions io cfg (max 1 limit_sessions))
          (λ states. pull states >>= finish io cfg) s result e in
      let s₁ = (list_sessions io cfg (max 1 limit_sessions) s).1 in
      let (c, ran, step') =
        bind_ok (pull states) (finish io cfg) s₁ result (ap (λ x. x.0) (sym step) ∙ e) in
      let same : record { counts = c; updated_at = at (now io (pull states s₁).1).0 } ≡ result =
        ok_injective (ap (λ x. x.0) (sym (step ∙ step')) ∙ e) in
      let bounded = list_sessions-bounded io cfg (max 1 limit_sessions) states s listed in
      (
        states,
        (pull states s₁).1,
        listed,
        omega (arith, bounded),
        rw (← same) (pull_all-PullsAll batch_limit states no_counts c s₁ ran),
        ap (λ x. x.1) (step ∙ step'),
      )

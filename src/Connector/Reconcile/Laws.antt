-- ===== src/Connector/Reconcile/Laws.antt =====
-- What `reconcile_sberjazz_sessions` does with each session that was listed.
use interview_analytics_agen.Common.{
  ℕ, ◌+◌, ◌-◌, ◌*◌, ◌≤◌, ◌≡◌, refl, sym, ◌∙◌, ap, inl, inr, true, false, List, [], ◌∷◌, ltb, length,
  take, length-take, max, Bool-cases, arith,
}
use interview_analytics_agen.Common.Exec.{Result, ok, raised, Result-cases, ◌>>=◌}
use interview_analytics_agen.Settings.{Settings}
use interview_analytics_agen.Connector.Io.{Exc, session_index, SessionState, Io, Service, M, now}
use interview_analytics_agen.Connector.Breaker.{parse_dt}
use interview_analytics_agen.Connector.Sessions.{
  list_sessions, latest_first, add_members, table_keys, members_of, read_states, sort_keys,
  sort_desc, states_of,
}
use interview_analytics_agen.Connector.Calls.{reconnect_meeting}
use interview_analytics_agen.Connector.Reconcile.{
  Counts, ReconcileResult, no_counts, count_one, stale_threshold_sec, reconnect_counted,
  reconcile_one, reconcile_all, reconcile_listed, reconcile_sessions,
}

abbrev pub counts_of : ℕ → ℕ → ℕ → Counts
counts_of scanned reconnected failed = record {
  scanned = scanned;
  stale = reconnected + failed;
  reconnected = reconnected;
  failed = failed;
}

module _ (io : Io) (cfg : Settings) where
  -- A session is stale at an instant: it was last touched at least the threshold before.
  abbrev pub IsStale : ℕ → SessionState → Service io → Type 0
  IsStale present st s =
      (parse_dt io cfg st.updated_at s).0 + stale_threshold_sec cfg * 1000000 ≤ present

  abbrev pub read_stamp : SessionState → Service io → Service io
  read_stamp st s = (parse_dt io cfg st.updated_at s).1

  -- From how many were reconnected and failed, the sessions that are left are gone through in their
  -- order: one that is not connected or not stale is left alone, every other one is reconnected, which
  -- returns or raises.
  pub data Reconciles (present : ℕ)
      : List SessionState → ℕ → ℕ → Service io → ℕ → ℕ → Service io → Type 0 where
    done : {n k : ℕ} {s : Service io} → Reconciles present [] n k s n k s
    disconnected :
        {st : SessionState} {rest : List SessionState} {n k n' k' : ℕ} {s s' : Service io}
        → st.connected ≡ false
        → Reconciles present rest n k s n' k' s'
        → Reconciles present (st ∷ rest) n k s n' k' s'
    fresh :
        {st : SessionState} {rest : List SessionState} {n k n' k' : ℕ} {s s' : Service io}
        → st.connected ≡ true
        → (IsStale present st s → ⊥)
        → Reconciles present rest n k (read_stamp st s) n' k' s'
        → Reconciles present (st ∷ rest) n k s n' k' s'
    reconnected :
        {st after : SessionState} {rest : List SessionState} {n k n' k' : ℕ} {s s' : Service io}
        → st.connected ≡ true
        → IsStale present st s
        → (reconnect_meeting io cfg st.meeting_id (read_stamp st s)).0 ≡ ok after
        → Reconciles present rest
            (n + 1)
            k
            (reconnect_meeting io cfg st.meeting_id (read_stamp st s)).1
            n'
            k'
            s'
        → Reconciles present (st ∷ rest) n k s n' k' s'
    failed :
        {st : SessionState} {e : Exc} {rest : List SessionState} {n k n' k' : ℕ} {s s' : Service io}
        → st.connected ≡ true
        → IsStale present st s
        → (reconnect_meeting io cfg st.meeting_id (read_stamp st s)).0 ≡ raised e
        → Reconciles present rest n
            (k + 1)
            (reconnect_meeting io cfg st.meeting_id (read_stamp st s)).1
            n'
            k'
            s'
        → Reconciles present (st ∷ rest) n k s n' k' s'

  -- The counts and the state after the loop, by the numbers of the relation.
  abbrev Goes : ℕ → List SessionState → ℕ → ℕ → Service io → Counts → Service io → Type 0
  Goes present states n k s c s' =
      (c.reconnected + c.failed ≡ c.stale)
      × Reconciles present states n k s c.reconnected c.failed s'

  one_disconnected :
      (present : ℕ) (st : SessionState) (c : Counts) (s : Service io)
      → st.connected ≡ false
      → reconcile_one io cfg present st c s ≡ (record c { scanned = c.scanned + 1 }, s)
  unfolding reconcile_one
  one_disconnected present st c s down = ground arith

  one_fresh :
      (present : ℕ) (st : SessionState) (c : Counts) (s : Service io)
      → st.connected ≡ true
      → ltb (present - (parse_dt io cfg st.updated_at s).0) (stale_threshold_sec cfg * 1000000)
        ≡ true
      → reconcile_one io cfg present st c s
        ≡ (record c { scanned = c.scanned + 1 }, read_stamp st s)
  unfolding reconcile_one
  one_fresh present st c s up young = ground arith

  one_stale :
      (present : ℕ) (st : SessionState) (c : Counts) (s : Service io)
      → st.connected ≡ true
      → ltb (present - (parse_dt io cfg st.updated_at s).0) (stale_threshold_sec cfg * 1000000)
        ≡ false
      → (q : Result Exc SessionState)
      → (reconnect_meeting io cfg st.meeting_id (read_stamp st s)).0 ≡ q
      → reconcile_one io cfg present st c s ≡ (
        count_one q (record c { scanned = c.scanned + 1 }),
        (reconnect_meeting io cfg st.meeting_id (read_stamp st s)).1,
      )
  unfolding reconcile_one reconnect_counted
  one_stale present st c s up old q e = ground arith

  reconcile_all-Goes :
      (present : ℕ) (states : List SessionState) (c : Counts) (s : Service io)
      → c.reconnected + c.failed ≡ c.stale
      → let after = reconcile_all io cfg present states c s in
        Goes present states c.reconnected c.failed s after.0 after.1
        × (after.0.scanned ≡ c.scanned + length states)
  unfolding reconcile_all
  reconcile_all-Goes present [] c s h = ((h, done), omega arith)
  reconcile_all-Goes present (st ∷ rest) c s h =
      let seen : Counts = record c { scanned = c.scanned + 1 } in
      elim (Bool-cases st.connected) [
        | inr down ↦
            let (goes, n) = reconcile_all-Goes present rest seen s h in
            rw (reconcile_all, one_disconnected present st c s down)
              ((goes.0, disconnected down goes.1), omega arith)
        | inl up ↦
            let since = (parse_dt io cfg st.updated_at s).0 in
            let s' = read_stamp st s in
            elim (Bool-cases (ltb (present - since) (stale_threshold_sec cfg * 1000000))) [
              | inl young ↦
                  let (goes, n) = reconcile_all-Goes present rest seen s' h in
                  rw (reconcile_all, one_fresh present st c s up young)
                    ((goes.0, fresh up (λ stale. ground arith) goes.1), omega arith)
              | inr old ↦
                  let stale : IsStale present st s = ground arith in
                  elim (Result-cases (reconnect_meeting io cfg st.meeting_id s').0) [
                    | inl (after, e) ↦
                        let (goes, n) =
                          reconcile_all-Goes present rest (count_one (ok after) seen)
                            (reconnect_meeting io cfg st.meeting_id s').1 (omega (arith, h)) in
                        rw (reconcile_all, one_stale present st c s up old _ e)
                          ((goes.0, reconnected up stale e goes.1), omega arith)
                    | inr (x, e) ↦
                        let (goes, n) =
                          reconcile_all-Goes present rest (count_one (raised x) seen)
                            (reconnect_meeting io cfg st.meeting_id s').1 (omega (arith, h)) in
                        rw (reconcile_all, one_stale present st c s up old _ e)
                          ((goes.0, failed up stale e goes.1), omega arith)
                  ]
            ]
      ]

  latest_first-bounded :
      (limit : ℕ) (found states : List SessionState) (s : Service io)
      → (latest_first io cfg limit found s).0 ≡ ok states
      → length states ≤ max 1 limit
  unfolding latest_first
  latest_first-bounded limit found states s h =
      let all = states_of io cfg (sort_desc io cfg (sort_keys io cfg found s).0) in
      let e : take (max 1 limit) all ≡ states = ground arith in
      rw (← e) (omega (arith, length-take (max 1 limit) all))

  bind-bounded :
      (limit : ℕ) (m : M io (List SessionState)) (s : Service io) (states : List SessionState)
      → ((m >>= latest_first io cfg limit) s).0 ≡ ok states
      → length states ≤ max 1 limit
  bind-bounded limit m s states h = elim (Result-cases (m s).0) [
    | inl (found, e) ↦ latest_first-bounded limit found states (m s).1 (rw e at h)
    | inr (x, e) ↦ absurd (ground arith)
  ]

  pub list_sessions-bounded :
      (limit : ℕ) (states : List SessionState) (s : Service io)
      → (list_sessions io cfg limit s).0 ≡ ok states
      → length states ≤ max 1 limit
  unfolding list_sessions
  list_sessions-bounded limit states s h =
      let (r, w) = io.smembers session_index s.world in
      let s' : Service io = record s { world = w } in
      let ids = add_members io cfg (table_keys io cfg s.sessions) (members_of io cfg r) in
      bind-bounded limit (read_states io cfg ids) s' states h

  -- A reconciliation that returns has gone through the sessions that were listed, at most max(1, limit)
  -- of them, each scanned once: it has reconnected every one that is connected and was last touched at
  -- least the threshold before the start, and no other; and it counts as reconnected those whose
  -- reconnection returned, as failed those whose reconnection raised, and as stale both.
  pub reconcile_sessions-Reconciles :
      (limit : ℕ) (result : ReconcileResult) (s : Service io)
      → (reconcile_sessions io cfg limit s).0 ≡ ok result
      → (states : List SessionState) × (after : Service io) × ((list_sessions io cfg limit
            (now io s).1).0
          ≡ ok states)
        × (length states ≤ max 1 limit)
        × (result.counts.scanned ≡ length states)
        × (result.counts.reconnected + result.counts.failed ≡ result.counts.stale)
        × Reconciles
            (now io s).0
            states
            0
            0
            (list_sessions io cfg limit (now io s).1).1
            result.counts.reconnected
            result.counts.failed
            after
        × ((reconcile_sessions io cfg limit s).1 ≡ (now io after).1)
  unfolding reconcile_sessions reconcile_listed
  reconcile_sessions-Reconciles limit result s h =
      elim (Result-cases (list_sessions io cfg limit (now io s).1).0) [
        | inl (states, e) ↦
            let s' = (list_sessions io cfg limit (now io s).1).1 in
            let after = reconcile_all io cfg (now io s).0 states no_counts s' in
            let (goes, scanned) = reconcile_all-Goes (now io s).0 states no_counts s' refl in
            let same : after.0 ≡ result.counts = ground arith in
            (
              states,
              after.1,
              e,
              list_sessions-bounded limit states (now io s).1 e,
              ap (λ c. c.scanned) (sym same) ∙ (scanned ∙ omega arith),
              rw (← same) goes.0,
              rw (← same) goes.1,
              rw e refl,
            )
        | inr (x, e) ↦ absurd (ground arith)
      ]

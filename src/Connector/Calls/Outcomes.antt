-- ===== src/Connector/Calls/Outcomes.antt =====
-- What joining and leaving leave behind.
use interview_analytics_agen.Common.{
  ℕ, ◌+◌, ◌-◌, ◌≡◌, refl, sym, ap, ◌∙◌, Bool-cases, inl, inr, String, Bool, true, false, not,
  Option, none, some, [], ◌∷◌, ◌&&◌, leb, ◌==◌, eq_iff, if◌then◌else◌, arith,
}
use interview_analytics_agen.Common.Exec.{Result, ok, bind_ok, Result-cases, ◌>>=◌}
use interview_analytics_agen.Settings.{Settings}
use interview_analytics_agen.Connector.Io.{
  Exc, SessionState, SessionTable, find_session, put_session, Provider, Io, Service, M, call, now,
  at,
}
use interview_analytics_agen.Common.Int.{at_least}
use interview_analytics_agen.Connector.Breaker.{
  age_sec, parse_dt, before_connector_call, on_connector_success, on_connector_failure,
  get_cb_state, save_cb_state,
}
use interview_analytics_agen.Connector.Sessions.{resolve_connector, save_state, get_meeting_state}
use interview_analytics_agen.Connector.Calls.Attempts.{Fails, try_attempts-IsRun}
use interview_analytics_agen.Connector.Calls.{
  Tried, succeeded, gave_up, retry_attempts, state_after, try_attempts, conclude, run_operation,
  join_again, joined_lately, join_connected, join_impl, leave_impl,
}

pub find_session-put_session :
    (t : SessionTable) (k j : String) (st : SessionState)
    → find_session (put_session t k st) j ≡ (if k == j then some st else find_session t j)
unfolding find_session put_session
find_session-put_session [] k j st = refl
find_session-put_session ((i, old) ∷ t) k j st =
    ground (arith, find_session-put_session t k j st, eq_iff i k, eq_iff i j, eq_iff k j)

succeeded_injective : {n k : ℕ} → succeeded n ≡ succeeded k → n ≡ k
succeeded_injective h = ground arith

pub succeeded-ne-gave_up : {n : ℕ} {e : Exc} → succeeded n ≡ gave_up e → ⊥
succeeded-ne-gave_up h = ground arith

module _ (io : Io) (cfg : Settings) where
  -- The circuit breaker keeps its hands off the sessions.
  sessions-get_cb_state : (s : Service io) → (get_cb_state io cfg s).1.sessions ≡ s.sessions
  unfolding get_cb_state
  sessions-get_cb_state s = ground arith

  pub sessions-on_connector_failure :
      (e : Option String) (s : Service io) → (on_connector_failure io cfg e s).sessions ≡ s.sessions
  unfolding on_connector_failure save_cb_state
  sessions-on_connector_failure e s = ground (arith, sessions-get_cb_state s)

  -- The session that the process has for a meeting.
  abbrev pub session_of : String → Service io → Option SessionState
  session_of meeting_id s = find_session s.sessions meeting_id

  pub saved :
      (st : SessionState) (s : Service io)
      → session_of st.meeting_id (save_state io cfg st s).1 ≡ some st
  unfolding save_state
  saved st s = ground (
    arith,
    find_session-put_session s.sessions st.meeting_id st.meeting_id st,
    eq_iff st.meeting_id st.meeting_id,
  )

  -- A session that is saved as reached.
  pub record IsReached (reached : Bool) (meeting_id : String) (st : SessionState) (s : Service io)
      : Type 0 where
    pub connected : st.connected ≡ reached
    pub meeting : st.meeting_id ≡ meeting_id
    pub no_error : st.last_error ≡ none
    pub kept : session_of meeting_id s ≡ some st

  -- The state that a successful attempt saves, and where it saves it.
  abbrev reached_state : Bool → String → Provider → ℕ → Service io → SessionState
  reached_state reached meeting_id p attempt s =
      state_after io cfg meeting_id p reached attempt none (now io s).0

  conclude-succeeded :
      (reached : Bool) (meeting_id : String) (p : Provider) (attempt : ℕ) (s : Service io)
      → conclude io cfg reached meeting_id p (succeeded attempt, s) ≡ (
        ok (reached_state reached meeting_id p attempt s),
        (save_state io cfg
            (reached_state reached meeting_id p attempt s)
            (on_connector_success io cfg (now io s).1)).1,
      )
  unfolding conclude save_state
  conclude-succeeded reached meeting_id p attempt s = refl

  conclude-IsReached :
      (reached : Bool) (meeting_id : String) (p : Provider) (t : Tried) (s : Service io)
      (st : SessionState)
      → (conclude io cfg reached meeting_id p (t, s)).0 ≡ ok st
      → IsReached reached meeting_id st (conclude io cfg reached meeting_id p (t, s)).1
  conclude-IsReached reached meeting_id p (succeeded attempt) s st h =
      let w = reached_state reached meeting_id p attempt s in
      let e : w ≡ st = cc (conclude-succeeded reached meeting_id p attempt s) in
      rw (conclude-succeeded reached meeting_id p attempt s, ← e)
        (record {
          connected = refl;
          meeting = refl;
          no_error = refl;
          kept = saved w (on_connector_success io cfg (now io s).1);
        })
  conclude-IsReached reached meeting_id p (gave_up e) s st h =
      absurd (unfold conclude in ground arith)

  abbrev pub Operation : Type 0
  Operation = Provider → String → io.World → Result Exc (Unit {0}) × io.World

  abbrev pub tries : Operation → String → Provider → Service io → Tried × Service io
  tries op meeting_id p s =
      try_attempts io cfg (call io (op p meeting_id)) (retry_attempts io cfg - 1) 1 s

  pub run-eq-conclude :
      (reached : Bool) (op : Operation) (meeting_id : String) (p : Provider) (s : Service io)
      → resolve_connector cfg ≡ ok p
      → run_operation io cfg reached op meeting_id s
        ≡ conclude io cfg reached meeting_id p (tries op meeting_id p s)
  unfolding run_operation
  run-eq-conclude reached op meeting_id p s e = rw e

  -- The connector was called from the state s on: each call before the last raised an exception worth a
  -- retry, the last one returned, and the session has the number of the calls.
  pub record IsPerformed (op : Operation) (meeting_id : String) (s : Service io) (st : SessionState)
      : Type 0 where
    pub provider : Provider
    pub resolved : resolve_connector cfg ≡ ok provider
    pub failures : ℕ
    pub last : Service io
    pub failed_before : Fails io cfg (call io (op provider meeting_id)) 1 failures s last
    pub returned : (op provider meeting_id last.world).0 ≡ ok tt
    pub counted : st.attempts ≡ 1 + failures

  conclude-attempts :
      (reached : Bool) (meeting_id : String) (p : Provider) (t : Tried) (s : Service io)
      (st : SessionState)
      → (conclude io cfg reached meeting_id p (t, s)).0 ≡ ok st
      → t ≡ succeeded st.attempts
  conclude-attempts reached meeting_id p (succeeded attempt) s st h =
      let w = reached_state reached meeting_id p attempt s in
      let e : w ≡ st = cc (conclude-succeeded reached meeting_id p attempt s) in
      ap (λ x. succeeded x.attempts) e
  conclude-attempts reached meeting_id p (gave_up e) s st h =
      absurd (unfold conclude in ground arith)

  tries-IsPerformed :
      (op : Operation) (meeting_id : String) (p : Provider) (s : Service io) (st : SessionState)
      → resolve_connector cfg ≡ ok p
      → (tries op meeting_id p s).0 ≡ succeeded st.attempts
      → IsPerformed op meeting_id s st
  tries-IsPerformed op meeting_id p s st resolved h =
      let run =
        try_attempts-IsRun io cfg (call io (op p meeting_id)) (retry_attempts io cfg - 1) 1 s in
      elim run.ended [
        | inl (done, answer) ↦ record {
          provider = p;
          resolved = resolved;
          failures = run.failures;
          last = run.last;
          failed_before = run.before;
          returned = done;
          counted = succeeded_injective (sym h ∙ ap (λ x. x.0) answer);
        }
        | inr (x, failed, why, answer) ↦
            absurd (succeeded-ne-gave_up (sym h ∙ ap (λ x. x.0) answer))
      ]

  run-IsPerformed :
      (reached : Bool) (op : Operation) (meeting_id : String) (s : Service io) (st : SessionState)
      → (run_operation io cfg reached op meeting_id s).0 ≡ ok st
      → IsPerformed op meeting_id s st
  run-IsPerformed reached op meeting_id s st h = elim (Result-cases (resolve_connector cfg)) [
    | inl (p, e) ↦ tries-IsPerformed op meeting_id p s st e (
        conclude-attempts reached meeting_id p (tries op meeting_id p s).0
          (tries op meeting_id p s).1 st (rw (run-eq-conclude reached op meeting_id p s e) at h))
    | inr (x, e) ↦ absurd (unfold run_operation in ground arith)
  ]

  run-IsReached :
      (reached : Bool) (op : Operation) (meeting_id : String) (s : Service io) (st : SessionState)
      → (run_operation io cfg reached op meeting_id s).0 ≡ ok st
      → IsReached reached meeting_id st (run_operation io cfg reached op meeting_id s).1
  run-IsReached reached op meeting_id s st h = elim (Result-cases (resolve_connector cfg)) [
    | inl (p, e) ↦ rw (run-eq-conclude reached op meeting_id p s e) (
        conclude-IsReached reached meeting_id p (tries op meeting_id p s).0
          (tries op meeting_id p s).1 st (rw (run-eq-conclude reached op meeting_id p s e) at h))
    | inr (x, e) ↦ absurd (unfold run_operation in ground arith)
  ]

  join_again-IsReached :
      (previous : SessionState) (meeting_id : String) (s : Service io) (st : SessionState)
      → (join_again io cfg previous meeting_id s).0 ≡ ok st
      → IsReached true meeting_id st (join_again io cfg previous meeting_id s).1
  unfolding join_again save_state
  join_again-IsReached previous meeting_id s st h =
      let w = record previous {
        meeting_id = meeting_id;
        connected = true;
        last_error = none;
        updated_at = at (now io s).0;
      } in
      let e : w ≡ st = ground arith in
      rw (← e)
        (record { connected = refl; meeting = refl; no_error = refl; kept = saved w (now io s).1 })

  abbrev Reaches : String → Result Exc SessionState × Service io → Type 0
  Reaches meeting_id r = (st : SessionState) → r.0 ≡ ok st → IsReached true meeting_id st r.1

  Reaches-if :
      (b : Bool) (f g : M io SessionState) (meeting_id : String) (s : Service io)
      → Reaches meeting_id (f s)
      → Reaches meeting_id (g s)
      → Reaches meeting_id ((if b then f else g) s)
  Reaches-if true f g meeting_id s hf hg = hf
  Reaches-if false f g meeting_id s hf hg = hg

  join_connected-IsReached :
      (previous : SessionState) (meeting_id : String) (s : Service io)
      → Reaches meeting_id (join_connected io cfg previous meeting_id s)
  unfolding join_connected
  join_connected-IsReached previous meeting_id s =
      let (lately, s') = joined_lately io cfg previous s in
      Reaches-if lately (join_again io cfg previous meeting_id)
        (run_operation io cfg true io.join meeting_id) meeting_id s'
        (join_again-IsReached previous meeting_id s') (run-IsReached true io.join meeting_id s')

  join_from : Bool → String → SessionState → M io SessionState
  join_from force meeting_id previous =
      if previous.connected && not force
      then join_connected io cfg previous meeting_id
      else run_operation io cfg true io.join meeting_id

  join_from-IsReached :
      (force : Bool) (meeting_id : String) (previous : SessionState) (s : Service io)
      → Reaches meeting_id (join_from force meeting_id previous s)
  unfolding join_from
  join_from-IsReached force meeting_id previous s =
      Reaches-if (previous.connected && not force) (join_connected io cfg previous meeting_id)
        (run_operation io cfg true io.join meeting_id) meeting_id s
        (join_connected-IsReached previous meeting_id s) (run-IsReached true io.join meeting_id s)

  Reaches-bind :
      {A : Type 0} (m : M io A) (f : A → M io SessionState) (meeting_id : String) (s : Service io)
      → ((a : A) → Reaches meeting_id (f a (m s).1))
      → Reaches meeting_id ((m >>= f) s)
  Reaches-bind m f meeting_id s hf st h = elim (Result-cases (m s).0) [
    | inl (a, e) ↦ rw e (hf a st (rw e at h))
    | inr (x, e) ↦ absurd (ground arith)
  ]

  -- The age of the previous session's time stamp in whole seconds, and the state after it was read.
  abbrev pub aged : SessionState → Service io → ℕ × Service io
  aged previous s =
      let (t, s₁) = now io s in
      let (since, s₂) = parse_dt io cfg previous.updated_at s₁ in (age_sec t since, s₂)

  -- Whether that is at most the configured time of an idempotent join.
  abbrev pub is_recent : SessionState → Service io → Bool
  is_recent previous s = leb (aged previous s).0 (at_least 0 cfg.sberjazz_join_idempotent_ttl_sec)

  -- Why a join returned, from the state s in which it knew the previous session: the connector was
  -- called, because the previous session is not connected, a join was forced, or the last one is too
  -- long ago; or none of these.
  pub data IsJoined (force : Bool) (meeting_id : String) (previous : SessionState) (s : Service io)
      (st : SessionState) : Type 0 where
    called_first :
        (previous.connected && not force) ≡ false
        → IsPerformed io.join meeting_id s st
        → IsJoined force meeting_id previous s st
    called_again :
        (previous.connected && not force) ≡ true
        → is_recent previous s ≡ false
        → IsPerformed io.join meeting_id (aged previous s).1 st
        → IsJoined force meeting_id previous s st
    recent :
        (previous.connected && not force) ≡ true
        → is_recent previous s ≡ true
        → IsJoined force meeting_id previous s st

  join_from-IsJoined :
      (force : Bool) (meeting_id : String) (previous : SessionState) (s : Service io)
      (st : SessionState)
      → (join_from force meeting_id previous s).0 ≡ ok st
      → IsJoined force meeting_id previous s st
  unfolding join_from join_connected joined_lately
  join_from-IsJoined force meeting_id previous s st h =
      elim (Bool-cases (previous.connected && not force)) [
        | inr fresh ↦
            called_first fresh (run-IsPerformed true io.join meeting_id s st (ground arith))
        | inl known ↦ elim (Bool-cases (is_recent previous s)) [
          | inl lately ↦ recent known lately
          | inr old ↦
              called_again known old
                (run-IsPerformed true io.join meeting_id (aged previous s).1 st (ground arith))
        ]
      ]

  join_impl-saved :
      (force : Bool) (meeting_id : String) (s : Service io) (st : SessionState)
      → (join_impl io cfg force meeting_id s).0 ≡ ok st
      → IsReached true meeting_id st (join_impl io cfg force meeting_id s).1
  unfolding join_impl join_from
  join_impl-saved force meeting_id s =
      Reaches-bind (before_connector_call io cfg)
        (λ _. get_meeting_state io cfg meeting_id >>= join_from force meeting_id) meeting_id s
        λ _.
          Reaches-bind (get_meeting_state io cfg meeting_id) (join_from force meeting_id) meeting_id
            (before_connector_call io cfg s).1
            λ previous. join_from-IsReached force meeting_id previous _

  join_impl-IsJoined :
      (force : Bool) (meeting_id : String) (s : Service io) (st : SessionState)
      → (join_impl io cfg force meeting_id s).0 ≡ ok st
      → (previous : SessionState) × ((get_meeting_state io cfg meeting_id
            (before_connector_call io cfg s).1).0
          ≡ ok previous)
        × IsJoined force meeting_id previous
            (get_meeting_state io cfg meeting_id (before_connector_call io cfg s).1).1
            st
  unfolding join_impl join_from
  join_impl-IsJoined force meeting_id s st h =
      let (_, _, ran) =
        bind_ok (before_connector_call io cfg)
          (λ _. get_meeting_state io cfg meeting_id >>= join_from force meeting_id) s st h in
      let s' = (before_connector_call io cfg s).1 in
      let (previous, got, ran') =
        bind_ok (get_meeting_state io cfg meeting_id) (join_from force meeting_id) s' st
          (ap (λ x. x.0) (sym ran) ∙ h) in
      (
        previous,
        got,
        join_from-IsJoined force meeting_id previous _ st (ap (λ x. x.0) (sym (ran ∙ ran')) ∙ h),
      )

  -- A join that returns has asked the breaker and read the previous session, and then called the
  -- connector: each call before the last raised an exception worth a retry, the last one returned, and
  -- the session has their number. Only where the previous session is connected, no join is forced and
  -- the last one is recent is the connector not called. The returned state is connected, carries no
  -- error, and is the one that the process keeps for that meeting.
  pub join_impl-IsReached :
      (force : Bool) (meeting_id : String) (s : Service io) (st : SessionState)
      → (join_impl io cfg force meeting_id s).0 ≡ ok st
      → IsReached true meeting_id st (join_impl io cfg force meeting_id s).1
        × (previous : SessionState) × ((get_meeting_state io cfg meeting_id
              (before_connector_call io cfg s).1).0
            ≡ ok previous)
        × IsJoined force meeting_id previous
            (get_meeting_state io cfg meeting_id (before_connector_call io cfg s).1).1
            st
  join_impl-IsReached force meeting_id s st h =
      let (previous, got, joined) = join_impl-IsJoined force meeting_id s st h in
      (join_impl-saved force meeting_id s st h, previous, got, joined)

  -- A leave that returns left its meeting disconnected: the returned state says so, carries no error
  -- and is the one that the process keeps for that meeting.
  pub leave_impl-IsReached :
      (meeting_id : String) (s : Service io) (st : SessionState)
      → (leave_impl io cfg meeting_id s).0 ≡ ok st
      → IsReached false meeting_id st (leave_impl io cfg meeting_id s).1
  unfolding leave_impl
  leave_impl-IsReached meeting_id s st h = elim (Result-cases (before_connector_call io cfg s).0) [
    | inl (u, e) ↦
        rw e (
          run-IsReached false io.leave meeting_id (before_connector_call io cfg s).1 st (rw e at h))
    | inr (x, e) ↦ absurd (ground arith)
  ]

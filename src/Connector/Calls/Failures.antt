-- ===== src/Connector/Calls/Failures.antt =====
-- What joins and leaves do when they are refused or fail.
use interview_analytics_agen.Common.{
  ℕ, ◌-◌, ◌≡◌, refl, sym, ap, ◌∙◌, ◌⊎◌, inl, inr, String, Bool, true, false, not, some, arith,
}
use interview_analytics_agen.Common.Exec.{ok, raised, Result-cases}
use interview_analytics_agen.Settings.{Settings}
use interview_analytics_agen.Connector.Io.{
  Exc, SessionState, Provider, Io, Service, call, now, opened,
}
use interview_analytics_agen.Connector.Breaker.{before_connector_call, cb_is_open}
use interview_analytics_agen.Connector.Breaker.Laws.{
  IsReliable, current, cooling, before_call_gates,
}
use interview_analytics_agen.Connector.Sessions.{resolve_connector, save_state}
use interview_analytics_agen.Connector.Calls.{
  is_retryable, Tried, succeeded, gave_up, error_text, final_error, retry_attempts, state_after,
  conclude, run_operation, join_impl, leave_impl,
}
use interview_analytics_agen.Connector.Calls.Attempts.{Fails, try_attempts-IsRun}
use interview_analytics_agen.Connector.Calls.Outcomes.{
  session_of, saved, sessions-on_connector_failure, Operation, tries, run-eq-conclude,
  succeeded-ne-gave_up,
}

gave_up_injective : {e x : Exc} → gave_up e ≡ gave_up x → e ≡ x
gave_up_injective h = ground arith

module _ (io : Io) (cfg : Settings) where
  -- A failed operation: its session is saved as not reached, with the text of the last exception,
  -- and what is raised is that exception if it is a ProviderError, and a general ProviderError otherwise.
  pub record IsFailed (reached : Bool) (meeting_id : String) (cause raised_error : Exc)
      (s : Service io) : Type 0 where
    pub error : raised_error ≡ final_error cause
    pub st : SessionState
    pub kept : session_of io cfg meeting_id s ≡ some st
    pub connected : st.connected ≡ not reached
    pub told : st.last_error ≡ some (error_text cause)

  -- The connector was called from the state s on, at most the configured number of times: each call
  -- before the last raised an exception worth a retry, and the last one raised the cause, which is not
  -- worth a retry or came after all the retries.
  pub record IsTriedInVain (op : Operation io cfg) (meeting_id : String) (s : Service io)
      (cause : Exc) : Type 0 where
    pub provider : Provider
    pub resolved : resolve_connector cfg ≡ ok provider
    pub failures : ℕ
    pub last : Service io
    pub failed_before : Fails io cfg (call io (op provider meeting_id)) 1 failures s last
    pub failed : (op provider meeting_id last.world).0 ≡ raised cause
    pub over : (is_retryable cause ≡ false) ⊎ (failures ≡ retry_attempts io cfg - 1)

  tries-IsTriedInVain :
      (op : Operation io cfg) (meeting_id : String) (p : Provider) (s : Service io) (cause : Exc)
      → resolve_connector cfg ≡ ok p
      → (tries io cfg op meeting_id p s).0 ≡ gave_up cause
      → IsTriedInVain op meeting_id s cause
  tries-IsTriedInVain op meeting_id p s cause resolved h =
      let run =
        try_attempts-IsRun io cfg (call io (op p meeting_id)) (retry_attempts io cfg - 1) 1 s in
      elim run.ended [
        | inl (done, answer) ↦ absurd (succeeded-ne-gave_up (sym (ap (λ x. x.0) answer) ∙ h))
        | inr (x, failed, why, answer) ↦
            let same : x ≡ cause = gave_up_injective (sym (ap (λ x. x.0) answer) ∙ h) in
            record {
              provider = p;
              resolved = resolved;
              failures = run.failures;
              last = run.last;
              failed_before = run.before;
              failed = failed ∙ ap (λ e. raised e) same;
              over = rw (← same) why;
            }
      ]

  conclude-IsFailed :
      (reached : Bool) (meeting_id : String) (p : Provider) (t : Tried) (s : Service io) (x : Exc)
      → (conclude io cfg reached meeting_id p (t, s)).0 ≡ raised x
      → (cause : Exc) × (t ≡ gave_up cause)
        × IsFailed reached meeting_id cause x (conclude io cfg reached meeting_id p (t, s)).1
  unfolding conclude
  conclude-IsFailed reached meeting_id p (succeeded attempt) s x h = absurd (ground arith)
  conclude-IsFailed reached meeting_id p (gave_up e) s x h =
      let (u, s₁) = now io s in
      let st =
        state_after io cfg meeting_id p (not reached) (retry_attempts io cfg) (some (error_text e))
          u in
      (
        e,
        refl,
        record {
          error = ground arith;
          st = st;
          kept =
              rw
                (sessions-on_connector_failure io cfg (some (error_text e))
                  (save_state io cfg st s₁).1)
                (saved io cfg st s₁);
          connected = refl;
          told = refl;
        },
      )

  -- Where Redis is reliable: while the breaker is open and cools, neither a join nor a leave does anything: both raise the
  -- breaker's refusal from the state that the test left.
  pub open_refuses :
      (force : Bool) (meeting_id : String) (s : Service io)
      → IsReliable io
      → (current io cfg s).state ≡ opened
      → cooling io cfg s ≡ true
      → (join_impl io cfg force meeting_id s
          ≡ (raised cb_is_open, (before_connector_call io cfg s).1))
        × (leave_impl io cfg meeting_id s ≡ (raised cb_is_open, (before_connector_call io cfg s).1))
  unfolding join_impl leave_impl
  open_refuses force meeting_id s h o c =
      let e = (before_call_gates io cfg s h).0 o c in (rw e, rw e)

  run-IsFailed :
      (reached : Bool) (op : Operation io cfg) (meeting_id : String) (s : Service io) (x : Exc)
      → (run_operation io cfg reached op meeting_id s).0 ≡ raised x
      → (resolve_connector cfg ≡ raised x)
        ⊎ ((cause : Exc) × IsTriedInVain op meeting_id s cause
            × IsFailed reached meeting_id cause x (run_operation io cfg reached op meeting_id s).1)
  run-IsFailed reached op meeting_id s x h = elim (Result-cases (resolve_connector cfg)) [
    | inl (p, e) ↦
        let ran = run-eq-conclude io cfg reached op meeting_id p s e in
        let (cause, gave, kept) =
          conclude-IsFailed reached meeting_id p (tries io cfg op meeting_id p s).0
            (tries io cfg op meeting_id p s).1 x (rw ran at h) in
        inr (cause, tries-IsTriedInVain op meeting_id p s cause e gave, rw ran kept)
    | inr (y, e) ↦ inl (unfold run_operation in ground arith)
  ]

  -- A leave that raises was refused by the breaker, or names an unknown provider; or, from the state
  -- after the breaker's test, it called the connector until an exception was not worth a retry or the
  -- configured attempts were used up. Then the session is kept as still connected, with the text of that
  -- last exception; what is raised is that exception if it is a ProviderError, and a general
  -- ProviderError otherwise.
  pub leave_impl-IsFailed :
      (meeting_id : String) (s : Service io) (x : Exc)
      → (leave_impl io cfg meeting_id s).0 ≡ raised x
      → ((before_connector_call io cfg s).0 ≡ raised x)
        ⊎ ((resolve_connector cfg ≡ raised x)
            ⊎ ((cause : Exc) × IsTriedInVain io.leave meeting_id
                  (before_connector_call io cfg s).1
                  cause
                × IsFailed false meeting_id cause x (leave_impl io cfg meeting_id s).1))
  unfolding leave_impl
  leave_impl-IsFailed meeting_id s x h = elim (Result-cases (before_connector_call io cfg s).0) [
    | inl (u, e) ↦ rw e (
        inr
          (run-IsFailed false io.leave meeting_id (before_connector_call io cfg s).1 x (rw e at h)))
    | inr (y, e) ↦ inl (ground arith)
  ]

-- ===== src/Connector/Breaker/Laws.antt =====
-- How the circuit breaker moves: what the next read finds after each operation.
use interview_analytics_agen.Common.{
  ℕ, zero, suc, ◌+◌, ◌≡◌, ◌≢◌, refl, sym, ◌∙◌, ◌⊎◌, inl, inr, String, Bool, true, false, ◌&&◌, ◌||◌,
  Option, none, some, ltb, leb, nat_eq, if◌then◌else◌, Bool-cases, arith,
}
use interview_analytics_agen.Common.Exec.{ok, raised}
use interview_analytics_agen.Settings.{Settings}
use interview_analytics_agen.Connector.Io.{
  Exc, at, CbPhase, closed, opened, half_open, CircuitBreakerState, circuit_breaker, breaker_doc,
  Io, Service, now,
}
use interview_analytics_agen.Connector.Breaker.{
  reset_cb, cb_failure_threshold, cb_open_sec, session_ttl_sec, save_cb_state, get_cb_state,
  before_connector_call, on_connector_success, on_connector_failure, failed_state, opens,
  is_half_open, is_closed, default_cb_state, cb_is_open, age_sec, parse_dt, opened_or_now,
  half_open_of,
}

-- Redis keeps the breaker's state: right after a write a read finds what was written, or nothing
-- where it has expired, or raises; also where the write itself raised, since a server that refuses
-- a write is taken to be away for the read right after it too.
pub record IsReliable (io : Io) : Type 0 where
  pub read_back :
      (b : CircuitBreakerState) (ttl : ℕ) (w : io.World)
      → let r = (io.get circuit_breaker (io.set circuit_breaker (breaker_doc b) ttl w).1).0 in
        (r ≡ ok (some (breaker_doc b))) ⊎ ((r ≡ ok none) ⊎ ((e : Exc) × (r ≡ raised e)))

module _ (io : Io) (cfg : Settings) where
  -- The state that the program reads next.
  abbrev pub current : Service io → CircuitBreakerState
  current s = (get_cb_state io cfg s).0

  -- What was saved is read next.
  pub get_cb_state-save_cb_state :
      (b : CircuitBreakerState) (s : Service io)
      → IsReliable io
      → current (save_cb_state io cfg b s).1 ≡ b
  unfolding get_cb_state save_cb_state
  get_cb_state-save_cb_state b s h = ground (arith, h.read_back b (session_ttl_sec cfg) s.world)

  -- The step that one failure makes, from the state read before it.
  pub record IsFailureStep (before after : CircuitBreakerState) : Type 0 where
    pub counted : after.consecutive_failures ≡ before.consecutive_failures + 1
    pub phase : after.state ≡ (
        if leb (cb_failure_threshold cfg) (before.consecutive_failures + 1)
          || is_half_open before.state
        then opened
        else closed)
    pub stamped : after.state ≡ opened → (t : ℕ) × (after.opened_at ≡ some (at t))
    pub unstamped : after.state ≡ closed → after.opened_at ≡ none

  failed_state-IsFailureStep :
      (b : CircuitBreakerState) (e : Option String) (t u : ℕ)
      → IsFailureStep b (failed_state io cfg b e t u)
  failed_state-IsFailureStep b e t u = record {
    counted = ground arith;
    phase = ground arith;
    stamped = λ h. (t, ground arith);
    unstamped = λ h. ground arith;
  }

  -- Where Redis is reliable, a failure counts one more; it opens the breaker exactly where the count reaches the threshold or
  -- the breaker was half open, and else leaves it closed.
  pub on_failure-IsFailureStep :
      (e : Option String) (s : Service io)
      → IsReliable io
      → IsFailureStep (current s) (current (on_connector_failure io cfg e s))
  unfolding on_connector_failure
  on_failure-IsFailureStep e s h =
      let s₁ = (get_cb_state io cfg s).1 in
      let (t, s₂) = if opens io cfg (current s) then now io s₁ else (0, s₁) in
      let (u, s₃) = now io s₂ in
      let b = failed_state io cfg (current s) e t u in
      rw (get_cb_state-save_cb_state b s₃ h) (failed_state-IsFailureStep (current s) e t u)

  -- Any number of failed calls since the breaker was closed with no failure counted, with whatever
  -- else happened between them that left the breaker's state alone.
  pub data Failures : ℕ → Service io → Type 0 where
    rested :
        {s : Service io}
        → (current s).state ≡ closed
        → (current s).consecutive_failures ≡ 0
        → Failures 0 s
    failed :
        {n : ℕ} {s s' : Service io} (e : Option String)
        → Failures n s
        → current s' ≡ current (on_connector_failure io cfg e s)
        → Failures (suc n) s'

  abbrev phase_after : ℕ → CbPhase
  phase_after n = if leb (cb_failure_threshold cfg) n then opened else closed

  failure_step :
      (n : ℕ) (b b' : CircuitBreakerState)
      → b.consecutive_failures ≡ n
      → b.state ≡ phase_after n
      → IsFailureStep b b'
      → (b'.consecutive_failures ≡ suc n) × (b'.state ≡ phase_after (suc n))
  failure_step n b b' c p h = ground (arith, h.counted, h.phase)

  zero_closed : phase_after 0 ≡ closed
  zero_closed = ground arith

  -- Where Redis is reliable and the breaker was closed with no failure counted: after n failures in
  -- a row the count is n, and the breaker is open exactly where n has reached the threshold.
  pub opens_at_threshold :
      (n : ℕ) (s : Service io)
      → IsReliable io
      → Failures n s
      → ((current s).consecutive_failures ≡ n)
        × ((current s).state ≡ (if leb (cb_failure_threshold cfg) n then opened else closed))
  opens_at_threshold zero s h (rested c z) = (z, c ∙ sym zero_closed)
  opens_at_threshold (suc n) s' h (failed {s = s} e before same) =
      let ih = opens_at_threshold n s h before in
      rw same (
        failure_step n (current s) (current (on_connector_failure io cfg e s)) ih.0 ih.1
          (on_failure-IsFailureStep e s h))

  -- The instant at which an open breaker counts as opened, and the present at its test.
  since : Service io → ℕ × Service io
  since s =
      let (o, s₁) = opened_or_now io cfg (current s).opened_at (get_cb_state io cfg s).1 in
      parse_dt io cfg o s₁

  unfoldable pub cooling : Service io → Bool
  unfolding since opened_or_now
  cooling s = let (t, s') = since s in ltb (age_sec (now io s').0 t) (cb_open_sec cfg)

  half_open_read :
      (b : CircuitBreakerState) (s : Service io)
      → IsReliable io
      → ((current (half_open_of io cfg b s)).state ≡ half_open)
        × ((current (half_open_of io cfg b s)).consecutive_failures ≡ b.consecutive_failures)
  unfolding half_open_of
  half_open_read b s h =
      rw
        (get_cb_state-save_cb_state (record b { state = half_open; updated_at = at (now io s).0 })
          (now io s).1 h)
        (refl, refl)

  cooled_passes :
      (s : Service io)
      → (current s).state ≡ opened
      → cooling s ≡ false
      → before_connector_call io cfg s
        ≡ (ok tt, half_open_of io cfg (current s) (now io (since s).1).1)
  unfolding before_connector_call cooling since
  cooled_passes s o c = ground arith

  -- Before a call, where Redis is reliable: an open breaker that cools refuses it; one that has cooled lets it through and is
  -- half open then, with its count; any other lets it through.
  pub before_call_gates :
      (s : Service io)
      → IsReliable io
      → ((current s).state ≡ opened
          → cooling s ≡ true
          → (before_connector_call io cfg s).0 ≡ raised cb_is_open)
        × ((current s).state ≡ opened
            → cooling s ≡ false
            → ((before_connector_call io cfg s).0 ≡ ok tt)
              × ((current (before_connector_call io cfg s).1).state ≡ half_open)
              × ((current (before_connector_call io cfg s).1).consecutive_failures
                  ≡ (current s).consecutive_failures))
        × ((current s).state ≢ opened
            → before_connector_call io cfg s ≡ (ok tt, (get_cb_state io cfg s).1))
  unfolding before_connector_call cooling since
  before_call_gates s h = (
    (λ o c. ground arith),
    (λ o c. rw (cooled_passes s o c) (
      refl,
      (half_open_read (current s) (now io (since s).1).1 h).0,
      (half_open_read (current s) (now io (since s).1).1 h).1,
    )),
    (λ o. ground arith),
  )

  abbrev is_healthy : CircuitBreakerState → Bool
  is_healthy b = is_closed b.state && nat_eq b.consecutive_failures 0

  healthy_parts :
      (b : CircuitBreakerState)
      → is_healthy b ≡ true
      → (b.state ≡ closed) × (b.consecutive_failures ≡ 0)
  healthy_parts b h = ground arith

  -- Where Redis is reliable, after a successful call the breaker is closed with no failure counted, whatever it was before,
  -- if two reads in a row find the same state.
  pub success_closes :
      (s : Service io)
      → IsReliable io
      → current (get_cb_state io cfg s).1 ≡ current s
      → ((current (on_connector_success io cfg s)).state ≡ closed)
        × ((current (on_connector_success io cfg s)).consecutive_failures ≡ 0)
  unfolding on_connector_success default_cb_state
  success_closes s h again = elim (Bool-cases (is_healthy (current s))) [
    | inl healthy ↦ rw (healthy, again) (healthy_parts (current s) healthy)
    | inr sick ↦
        let (fresh, s') = default_cb_state io cfg (get_cb_state io cfg s).1 in
        rw (sick, get_cb_state-save_cb_state fresh s' h) (refl, refl)
  ]

  -- A reset closes the breaker.
  pub reset_closes :
      (s : Service io)
      → IsReliable io
      → ((current (reset_cb io cfg s).1).state ≡ closed)
        × ((current (reset_cb io cfg s).1).consecutive_failures ≡ 0)
  unfolding reset_cb default_cb_state
  reset_closes s h =
      let (fresh, s') = default_cb_state io cfg s in
      rw (get_cb_state-save_cb_state fresh s' h) (refl, refl)

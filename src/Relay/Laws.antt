-- ===== src/Relay/Laws.antt =====
-- What the webhook of apps/alert_relay/main.py answers, and what it did for each target.
use interview_analytics_agen.Common.{
  ℕ, zero, suc, ◌+◌, ◌≤◌, ◌≡◌, refl, ◌⊎◌, inl, inr, String, true, false, List, [], ◌∷◌, length, leb,
  ltb, Bool-cases, arith,
}
use interview_analytics_agen.Common.Exec.{Result, ok, raised, Result-cases}
use interview_analytics_agen.Relay.{
  channel_name, Env, fail_on_error, timeout_sec, retry_count, retry_statuses, Kind, targets, Posted,
  response, timed_out, no_connection, failed, Exc, timeout, connection_error, http_error,
  other_exception, Io, is_in, verdict, back_off, forward_attempts, forward, forward_all, webhook,
}

module _ (io : Io) (env : Env) where
  -- How a POST ends the attempts: a status below 400 or of 600 and more is a success, another one an
  -- HTTP error, and what raised is raised.
  pub data Ends : Posted → Result Exc (Unit {0}) → Type 0 where
    accepted : {status : ℕ} → suc status ≤ 400 → Ends (response status) (ok tt)
    beyond : {status : ℕ} → 600 ≤ status → Ends (response status) (ok tt)
    refused :
        {status : ℕ}
        → 400 ≤ status
        → suc status ≤ 600
        → Ends (response status) (raised (http_error status))
    late : Ends timed_out (raised timeout)
    unreachable : Ends no_connection (raised connection_error)
    broken : {t : String} → Ends (failed t) (raised (other_exception t))

  -- What is worth another attempt: no answer, or one of the statuses that are configured for it, from
  -- 400 on.
  pub data IsTransient : Posted → Type 0 where
    late : IsTransient timed_out
    unreachable : IsTransient no_connection
    busy :
        {status : ℕ}
        → 400 ≤ status
        → is_in status (retry_statuses env) ≡ true
        → IsTransient (response status)

  -- The attempts at one target, with those left behind this one: only a POST that is worth another
  -- attempt is followed by one, after the back-off, while there is one left.
  pub data Forwards (url : String) (payload : io.Payload)
      : ℕ → ℕ → io.World → Result Exc (Unit {0}) → io.World → Type 0 where
    ended :
        {left attempt : ℕ} {w w' : io.World} {p : Posted} {r : Result Exc (Unit {0})}
        → io.post url payload (timeout_sec env) w ≡ (p, w')
        → (left ≡ 0) ⊎ (IsTransient p → ⊥)
        → Ends p r
        → Forwards url payload left attempt w r w'
    again :
        {left attempt : ℕ} {w w' w'' : io.World} {p : Posted} {r : Result Exc (Unit {0})}
        → io.post url payload (timeout_sec env) w ≡ (p, w')
        → IsTransient p
        → Forwards url payload left (suc attempt) (back_off io env attempt w') r w''
        → Forwards url payload (suc left) attempt w r w''

  -- The targets one after the other: how many were forwarded to, and the errors of the others.
  pub data ForwardsAll (payload : io.Payload)
      : List (Kind × String) → io.World → ℕ → List (Kind × String × Exc) → io.World → Type 0 where
    done : {w : io.World} → ForwardsAll payload [] w 0 [] w
    forwarded :
        {t : Kind × String} {ts : List (Kind × String)} {n : ℕ} {w w' w'' : io.World}
        {errors : List (Kind × String × Exc)}
        → Forwards t.1 payload (retry_count env) 1 w (ok tt) w'
        → ForwardsAll payload ts w' n errors w''
        → ForwardsAll payload (t ∷ ts) w (n + 1) errors w''
    missed :
        {t : Kind × String} {ts : List (Kind × String)} {n : ℕ} {w w' w'' : io.World}
        {errors : List (Kind × String × Exc)} {e : Exc}
        → Forwards t.1 payload (retry_count env) 1 w (raised e) w'
        → ForwardsAll payload ts w' n errors w''
        → ForwardsAll payload (t ∷ ts) w n ((t.0, t.1, e) ∷ errors) w''

  verdict-Ends : (p : Posted) → Ends p (verdict env p).0
  unfolding verdict
  verdict-Ends timed_out = late
  verdict-Ends no_connection = unreachable
  verdict-Ends (failed t) = broken
  verdict-Ends (response status) = elim (Bool-cases (leb 400 status)) [
    | inr low ↦ rw low (accepted (ground arith))
    | inl high ↦ elim (Bool-cases (ltb status 600)) [
      | inl e ↦ rw high (rw e (refused (ground arith) (ground arith)))
      | inr e ↦ rw high (rw e (beyond (ground arith)))
    ]
  ]

  verdict-again : (p : Posted) → (verdict env p).1 ≡ true → IsTransient p
  unfolding verdict
  verdict-again timed_out h = late
  verdict-again no_connection h = unreachable
  verdict-again (failed t) h = absurd (ground arith)
  verdict-again (response status) h = elim (Bool-cases (leb 400 status)) [
    | inr low ↦ absurd (ground arith)
    | inl high ↦ busy (ground arith) (rw high at h)
  ]

  verdict-final : (p : Posted) → (verdict env p).1 ≡ false → IsTransient p → ⊥
  unfolding verdict
  verdict-final timed_out h t = ground arith
  verdict-final no_connection h t = ground arith
  verdict-final (failed t) h final = elim final [ ]
  verdict-final (response status) h (busy high listed) = ground arith

  forward_attempts-Forwards :
      (url : String) (payload : io.Payload) (left attempt : ℕ) (w : io.World)
      → let (r, w') = forward_attempts io env url payload left attempt w in
        Forwards url payload left attempt w r w'
  unfolding forward_attempts
  forward_attempts-Forwards url payload zero attempt w =
      ended refl (inl refl) (verdict-Ends (io.post url payload (timeout_sec env) w).0)
  forward_attempts-Forwards url payload (suc left) attempt w =
      let (p, w') = io.post url payload (timeout_sec env) w in
      elim (Bool-cases (verdict env p).1) [
        | inl e ↦ rw e (
            again refl (verdict-again p e) (
              forward_attempts-Forwards url payload left (suc attempt)
                (back_off io env attempt w')))
        | inr e ↦ rw e (ended refl (inr (verdict-final p e)) (verdict-Ends p))
      ]

  forward_all-ForwardsAll :
      (ts : List (Kind × String)) (payload : io.Payload) (w : io.World)
      → let (counts, w') = forward_all io env ts payload w in
        ForwardsAll payload ts w counts.0 counts.1 w'
  unfolding forward_all forward
  forward_all-ForwardsAll [] payload w = done
  forward_all-ForwardsAll (t ∷ ts) payload w =
      let one = forward_attempts-Forwards t.1 payload (retry_count env) 1 w in
      let (r, w') = forward_attempts io env t.1 payload (retry_count env) 1 w in
      let rest = forward_all-ForwardsAll ts payload w' in
      elim (Result-cases r) [
        | inl (u, e) ↦ rw e (forwarded (rw e at one) rest)
        | inr (x, e) ↦ rw e (missed (rw e at one) rest)
      ]

  -- The webhook has tried every target of the channel in their order. A target counts as forwarded to
  -- where its last POST was answered with a status below 400 (or from 600 on), and is among the errors
  -- with what its last POST raised otherwise; only timeouts, failed connections and the configured
  -- statuses from 400 on are tried again, as often as configured. The webhook fails with 502 exactly
  -- where there is an error and failing on errors is configured; else it answers with both counts.
  pub webhook_answers :
      (channel : String) (payload : io.Payload) (w : io.World)
      → (n : ℕ) × (errors : List (Kind × String × Exc)) × ForwardsAll payload
          (targets env (channel_name channel))
          w
          n
          errors
          (webhook io env channel payload w).1
        × let failing = (1 ≤ length errors) × (fail_on_error env ≡ true) in
          let c = channel_name channel in
          (failing
            × ((webhook io env channel payload w).0
                ≡ raised (record { channel = c; forwarded = n; errors = errors })))
          ⊎ ((failing → ⊥)
              × ((webhook io env channel payload w).0
                  ≡ ok (record { channel = c; forwarded = n; errors = length errors })))
  unfolding webhook
  webhook_answers channel payload w =
      let ts = targets env (channel_name channel) in
      let ((n, errors), w') = forward_all io env ts payload w in
      (
        n,
        errors,
        forward_all-ForwardsAll ts payload w,
        elim (Bool-cases (ltb 0 (length errors))) [
          | inr e ↦ inr ((λ f. ground arith), rw e refl)
          | inl e ↦ elim (Bool-cases (fail_on_error env)) [
            | inl on ↦ inl ((ground arith, on), rw e (rw on refl))
            | inr off ↦ inr ((λ f. ground arith), rw e (rw off refl))
          ]
        ],
      )

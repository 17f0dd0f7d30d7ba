-- ===== src/Connector/Calls/Attempts.antt =====
-- The retry loop against its description: how many attempts are made, and which one decides.
use interview_analytics_agen.Common.{
  ℕ, zero, suc, ◌+◌, ◌≤◌, ◌≡◌, refl, ◌⊎◌, inl, inr, true, false, Bool-cases, arith,
}
use interview_analytics_agen.Common.Exec.{ok, raised, Result-cases}
use interview_analytics_agen.Settings.{Settings}
use interview_analytics_agen.Connector.Io.{Exc, Io, Service, M}
use interview_analytics_agen.Connector.Calls.{
  is_retryable, Tried, succeeded, gave_up, back_off, try_attempts,
}

module _ (io : Io) (cfg : Settings) (op : M io (Unit {0})) where
  -- Attempts from the given number on that all failed in a way that is worth a retry, each followed
  -- by its pause.
  pub data Fails : ℕ → ℕ → Service io → Service io → Type 0 where
    no_more : {attempt : ℕ} {s : Service io} → Fails attempt 0 s s
    once_more :
        {attempt n : ℕ} {s t : Service io} (e : Exc)
        → (op s).0 ≡ raised e
        → is_retryable e ≡ true
        → Fails (suc attempt) n (back_off io cfg attempt (op s).1) t
        → Fails attempt (suc n) s t

  -- A run of the loop with so many attempts left behind the first.
  pub record IsRun (left attempt : ℕ) (s : Service io) (result : Tried × Service io) : Type 0 where
    pub failures : ℕ
    pub last : Service io
    pub before : Fails attempt failures s last
    pub within : failures ≤ left
    pub ended :
        (((op last).0 ≡ ok tt) × (result ≡ (succeeded (attempt + failures), (op last).1)))
        ⊎ ((e : Exc) × ((op last).0 ≡ raised e)
            × ((is_retryable e ≡ false) ⊎ (failures ≡ left))
            × (result ≡ (gave_up e, (op last).1)))

  last-IsRun :
      (attempt : ℕ) (s : Service io) → IsRun 0 attempt s (try_attempts io cfg op 0 attempt s)
  unfolding try_attempts
  last-IsRun attempt s = record {
    failures = 0;
    last = s;
    before = no_more;
    within = omega arith;
    ended = elim (Result-cases (op s).0) [
      | inl (u, e) ↦ inl (ground arith, ground arith)
      | inr (x, e) ↦ inr (x, e, inr refl, ground arith)
    ];
  }

  -- The decisive cases of an attempt with others left.
  decided :
      (left attempt : ℕ) (s : Service io)
      → (op s).0 ≡ ok tt
      → IsRun (suc left) attempt s (try_attempts io cfg op (suc left) attempt s)
  unfolding try_attempts
  decided left attempt s e = record {
    failures = 0;
    last = s;
    before = no_more;
    within = omega arith;
    ended = inl (e, ground arith);
  }

  stopped :
      (left attempt : ℕ) (s : Service io) (x : Exc)
      → (op s).0 ≡ raised x
      → is_retryable x ≡ false
      → IsRun (suc left) attempt s (try_attempts io cfg op (suc left) attempt s)
  unfolding try_attempts
  stopped left attempt s x e n = record {
    failures = 0;
    last = s;
    before = no_more;
    within = omega arith;
    ended = inr (x, e, inl n, ground arith);
  }

  retried :
      (left attempt : ℕ) (s : Service io) (x : Exc)
      → (op s).0 ≡ raised x
      → is_retryable x ≡ true
      → try_attempts io cfg op (suc left) attempt s
        ≡ try_attempts io cfg op left (suc attempt) (back_off io cfg attempt (op s).1)
  unfolding try_attempts
  retried left attempt s x e y = ground arith

  one_more :
      (left attempt : ℕ) (s : Service io) (x : Exc) (result : Tried × Service io)
      → (op s).0 ≡ raised x
      → is_retryable x ≡ true
      → IsRun left (suc attempt) (back_off io cfg attempt (op s).1) result
      → IsRun (suc left) attempt s result
  one_more left attempt s x result e y r = record {
    failures = suc r.failures;
    last = r.last;
    before = once_more x e y r.before;
    within = omega arith;
    ended = elim r.ended [
      | inl (done, answer) ↦ inl (done, ground arith)
      | inr (x', failed, why, answer) ↦ inr (x', failed, ground arith, answer)
    ];
  }

  -- The loop makes attempts until one succeeds, raises an exception that is not worth a retry, or is
  -- the last one allowed: it answers with the number of the attempt that succeeded or with the
  -- exception of the last attempt, and every attempt before that one raised a retryable exception.
  pub try_attempts-IsRun :
      (left attempt : ℕ) (s : Service io)
      → IsRun left attempt s (try_attempts io cfg op left attempt s)
  try_attempts-IsRun zero attempt s = last-IsRun attempt s
  try_attempts-IsRun (suc left) attempt s = elim (Result-cases (op s).0) [
    | inl (u, e) ↦ decided left attempt s e
    | inr (x, e) ↦ elim (Bool-cases (is_retryable x)) [
      | inl y ↦ rw (retried left attempt s x e y) (
          one_more left attempt s x _ e y
            (try_attempts-IsRun left (suc attempt) (back_off io cfg attempt (op s).1)))
      | inr n ↦ stopped left attempt s x e n
    ]
  ]

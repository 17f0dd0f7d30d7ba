-- ===== src/Connector/Job/Laws.antt =====
-- When the job resets the circuit breaker, and what a run answers.
use interview_analytics_agen.Common.{
  ℕ, suc, ◌≤◌, ◌≡◌, ◌≢◌, refl, sym, ap, ◌∙◌, ◌⊎◌, inl, inr, Bool, true, false, Option, none, some,
  Bool-cases, arith,
}
use interview_analytics_agen.Common.Exec.{Result, ok, raised, bind_ok, ok_injective, ◌>>=◌}
use interview_analytics_agen.Common.Int.{ℤ}
use interview_analytics_agen.Settings.{Settings}
use interview_analytics_agen.Connector.Io.{
  Exc, Stamp, at, unreadable, closed, opened, Io, Service, now,
}
use interview_analytics_agen.Connector.Breaker.{age_sec, is_open, get_cb_state, reset_cb}
use interview_analytics_agen.Connector.Breaker.Laws.{IsReliable, current, reset_closes}
use interview_analytics_agen.Connector.Reconcile.{ReconcileResult, reconcile_sessions}
use interview_analytics_agen.Connector.Health.{ConnectorHealth, get_connector_health}
use interview_analytics_agen.Connector.Job.{
  parse_opened_at, min_age_sec, too_young, reset_if_healthy, reset_old, reset_open,
  maybe_auto_reset, after_reconcile, limit_of, run,
}

module _ (io : Io) (cfg : Settings) where
  -- The age test of an open breaker, after its state was read.
  abbrev young : Service io → Bool × Service io
  young s =
      too_young io cfg (parse_opened_at (current io cfg s).opened_at) (get_cb_state io cfg s).1

  -- The breaker opened at a known time, and the clock after its state was read is less than the
  -- configured number of seconds behind that.
  abbrev pub IsYoung : Service io → Type 0
  IsYoung s =
      (opened_at : ℕ) × ((current io cfg s).opened_at ≡ some (at opened_at))
      × (suc (age_sec (now io (get_cb_state io cfg s).1).0 opened_at) ≤ min_age_sec io cfg)

  too_young-true :
      (o : Option Stamp) (s : Service io)
      → (too_young io cfg (parse_opened_at o) s).0 ≡ true
      → (opened_at : ℕ) × (o ≡ some (at opened_at))
        × (suc (age_sec (now io s).0 opened_at) ≤ min_age_sec io cfg)
  unfolding too_young
  too_young-true none s h = absurd (ground arith)
  too_young-true (some (at t)) s h = (t, refl, ground arith)
  too_young-true (some (unreadable x)) s h = absurd (ground arith)

  too_young-false :
      (o : Option Stamp) (s : Service io)
      → (too_young io cfg (parse_opened_at o) s).0 ≡ false
      → (opened_at : ℕ) → o ≡ some (at opened_at)
      → min_age_sec io cfg ≤ age_sec (now io s).0 opened_at
  unfolding too_young
  too_young-false o s h opened_at e =
      let h' : (too_young io cfg (parse_opened_at (some (at opened_at))) s).0 ≡ false = rw e at h in
      ground arith

  -- Why the breaker was left alone, and what was done for that.
  pub data Kept (s : Service io) : Service io → Type 0 where
    disabled : cfg.sberjazz_cb_auto_reset_enabled ≡ false → Kept s s
    not_open : (current io cfg s).state ≢ opened → Kept s (get_cb_state io cfg s).1
    still_young : IsYoung s → Kept s (young s).1
    unhealthy :
        (h : ConnectorHealth)
        → (get_connector_health io cfg (young s).1).0 ≡ ok h
        → h.healthy ≡ false
        → Kept s (get_connector_health io cfg (young s).1).1

  -- The breaker was open, had been so for the configured time, and the platform was healthy; now it
  -- is closed with no failure counted.
  pub record IsRecovered (s after : Service io) : Type 0 where
    pub enabled : cfg.sberjazz_cb_auto_reset_enabled ≡ true
    pub was_open : (current io cfg s).state ≡ opened
    pub old :
        (opened_at : ℕ)
        → (current io cfg s).opened_at ≡ some (at opened_at)
        → min_age_sec io cfg ≤ age_sec (now io (get_cb_state io cfg s).1).0 opened_at
    pub health : ConnectorHealth
    pub asked : (get_connector_health io cfg (young s).1).0 ≡ ok health
    pub healthy : health.healthy ≡ true
    pub is_closed : (current io cfg after).state ≡ closed
    pub no_failures : (current io cfg after).consecutive_failures ≡ 0

  reset_disabled :
      (s : Service io)
      → cfg.sberjazz_cb_auto_reset_enabled ≡ false
      → maybe_auto_reset io cfg s ≡ (ok tt, s)
  unfolding maybe_auto_reset
  reset_disabled s off = rw off refl

  reset_not_open :
      (s : Service io)
      → cfg.sberjazz_cb_auto_reset_enabled ≡ true
      → is_open (current io cfg s).state ≡ false
      → maybe_auto_reset io cfg s ≡ (ok tt, (get_cb_state io cfg s).1)
  unfolding maybe_auto_reset
  reset_not_open s on shut = ground arith

  reset_of_open :
      (s : Service io)
      → cfg.sberjazz_cb_auto_reset_enabled ≡ true
      → is_open (current io cfg s).state ≡ true
      → maybe_auto_reset io cfg s ≡ reset_old io cfg (young s).0 (young s).1
  unfolding maybe_auto_reset reset_open
  reset_of_open s on wide = ground arith

  reset_young :
      (s : Service io)
      → cfg.sberjazz_cb_auto_reset_enabled ≡ true
      → is_open (current io cfg s).state ≡ true
      → (young s).0 ≡ true
      → maybe_auto_reset io cfg s ≡ (ok tt, (young s).1)
  reset_young s on wide y = reset_of_open s on wide ∙ rw y (unfold reset_old in refl)

  reset_asked :
      (s : Service io)
      → cfg.sberjazz_cb_auto_reset_enabled ≡ true
      → is_open (current io cfg s).state ≡ true
      → (young s).0 ≡ false
      → maybe_auto_reset io cfg s
        ≡ (get_connector_health io cfg >>= reset_if_healthy io cfg) (young s).1
  reset_asked s on wide old = reset_of_open s on wide ∙ rw old (unfold reset_old in refl)

  guarded_old :
      (s : Service io)
      → IsReliable io
      → cfg.sberjazz_cb_auto_reset_enabled ≡ true
      → is_open (current io cfg s).state ≡ true
      → (young s).0 ≡ false
      → (maybe_auto_reset io cfg s).0 ≡ ok tt
      → IsRecovered s (maybe_auto_reset io cfg s).1 ⊎ Kept s (maybe_auto_reset io cfg s).1
  unfolding reset_if_healthy
  guarded_old s h on wide old e =
      let asked = reset_asked s on wide old in
      let (health, got, step) =
        bind_ok (get_connector_health io cfg) (reset_if_healthy io cfg) (young s).1 tt
          (ap (λ x. x.0) (sym asked) ∙ e) in
      let s' = (get_connector_health io cfg (young s).1).1 in
      elim (Bool-cases health.healthy) [
        | inl fine ↦
            let done : maybe_auto_reset io cfg s ≡ (ok tt, (reset_cb io cfg s').1) =
              asked ∙ (step ∙ rw fine refl) in
            inl (
              rw done (record {
                enabled = on;
                was_open = ground arith;
                old = too_young-false (current io cfg s).opened_at (get_cb_state io cfg s).1 old;
                health = health;
                asked = got;
                healthy = fine;
                is_closed = (reset_closes io cfg s' h).0;
                no_failures = (reset_closes io cfg s' h).1;
              }))
        | inr ill ↦
            let done : maybe_auto_reset io cfg s ≡ (ok tt, s') = asked ∙ (step ∙ rw ill refl) in
            inr (rw done (unhealthy health got ill))
      ]

  -- Where Redis is reliable, an automatic reset that does not raise either closed a breaker that was
  -- open, in front of a healthy platform, and whose time of opening, where it is known, is at least the
  -- configured number of seconds behind the clock; or it left the breaker alone because the reset is
  -- disabled, the breaker is not open, that time is known and fewer seconds ago, or the platform is
  -- unhealthy.
  pub auto_reset_guarded :
      (s : Service io)
      → IsReliable io
      → (maybe_auto_reset io cfg s).0 ≡ ok tt
      → IsRecovered s (maybe_auto_reset io cfg s).1 ⊎ Kept s (maybe_auto_reset io cfg s).1
  auto_reset_guarded s h e = elim (Bool-cases cfg.sberjazz_cb_auto_reset_enabled) [
    | inr off ↦ inr (rw (reset_disabled s off) (disabled off))
    | inl on ↦ elim (Bool-cases (is_open (current io cfg s).state)) [
      | inr shut ↦ inr (rw (reset_not_open s on shut) (not_open (ground arith)))
      | inl wide ↦ elim (Bool-cases (young s).0) [
        | inl y ↦ inr (
            rw (reset_young s on wide y) (
              still_young
                (too_young-true (current io cfg s).opened_at (get_cb_state io cfg s).1 y)))
        | inr old ↦ guarded_old s h on wide old e
      ]
    ]
  ]

  run_enabled :
      (limit : Option ℤ) (s : Service io)
      → cfg.reconciliation_enabled ≡ true
      → run io cfg limit s
        ≡ after_reconcile io cfg
            (reconcile_sessions io cfg (limit_of io cfg limit) (maybe_auto_reset io cfg s).1)
  unfolding run
  run_enabled limit s on = rw on refl

  after_ok :
      (r : Result Exc ReconcileResult × Service io) (result : ReconcileResult)
      → r.0 ≡ ok result
      → (after_reconcile io cfg r).0 ≡ ok (some result)
  unfolding after_reconcile
  after_ok (ok a, s) result e = rw (ok_injective e) refl
  after_ok (raised x, s) result e = absurd (ground arith)

  after_raised :
      (r : Result Exc ReconcileResult × Service io) (x : Exc)
      → r.0 ≡ raised x
      → (after_reconcile io cfg r).0 ≡ raised x
  unfolding after_reconcile
  after_raised (ok a, s) x e = absurd (ground arith)
  after_raised (raised y, s) x e = ground arith

  -- An enabled run answers what its reconciliation answers, a result or an exception, whatever the
  -- automatic reset before it and the live pull after it did, also where they raised; a disabled one answers None and does nothing.
  pub run_answers :
      (limit : Option ℤ) (s : Service io)
      → let r =
          (reconcile_sessions io cfg (limit_of io cfg limit) (maybe_auto_reset io cfg s).1).0 in
        (cfg.reconciliation_enabled ≡ false → run io cfg limit s ≡ (ok none, s))
        × ((result : ReconcileResult)
            → cfg.reconciliation_enabled ≡ true
            → r ≡ ok result
            → (run io cfg limit s).0 ≡ ok (some result))
        × ((x : Exc)
            → cfg.reconciliation_enabled ≡ true
            → r ≡ raised x
            → (run io cfg limit s).0 ≡ raised x)
  run_answers limit s = (
    (λ off. unfold run in rw off refl),
    (λ result on e. rw (run_enabled limit s on) (after_ok _ result e)),
    (λ x on e. rw (run_enabled limit s on) (after_raised _ x e)),
  )

-- ===== src/Pipeline/Retention/Laws.antt =====
-- What the retention of storage/retention.py blanks and what it leaves.
use interview_analytics_agen.Common.{
  ℕ, suc, ◌+◌, ◌*◌, ◌≤◌, ◌≡◌, refl, true, false, some, List, [], ◌∷◌, ◌⊎◌, inl, inr, Bool-cases,
  Option-cases, ltb, arith,
}
use interview_analytics_agen.Common.Exec.{Result, ok, raised}
use interview_analytics_agen.Common.Int.{ℤ, pos, negsuc}
use interview_analytics_agen.Pipeline.Store.{Meeting, Db}
use interview_analytics_agen.Pipeline.Io.{Exc, PipelineSettings, Io, State, settled, with_session}
use interview_analytics_agen.Pipeline.Retention.{
  day_us, cutoff_text, blanked, blank_old, apply_retention, process_retention,
}

-- A time lies more than so many days behind another.
abbrev pub IsOlder : ℤ → ℕ → ℕ → Type 0
IsOlder (pos n) now t = suc (t + n * day_us) ≤ now
IsOlder (negsuc n) now t = suc t ≤ now + suc n * day_us

IsOlder-cutoff :
    (days : ℤ) (now cutoff t : ℕ)
    → cutoff_text days now ≡ some cutoff
    → (ltb t cutoff ≡ true → IsOlder days now t) × (ltb t cutoff ≡ false → IsOlder days now t → ⊥)
unfolding cutoff_text
IsOlder-cutoff (pos n) now cutoff t h = (λ e. ground arith, λ e older. ground arith)
IsOlder-cutoff (negsuc n) now cutoff t h = (λ e. ground arith, λ e older. ground arith)

module _ {W : Type 0} where
  -- What is left of a meeting: an old one loses its raw transcript and nothing else, another is what
  -- it was.
  abbrev pub IsKept : ℤ → ℕ → Meeting W → Meeting W → Type 0
  IsKept days now m m' =
      (IsOlder days now m.created_at × (m' ≡ record m { raw_transcript = "" }))
      ⊎ ((IsOlder days now m.created_at → ⊥) × (m' ≡ m))

  -- Each meeting is kept so, in the same order, and there are no others.
  abbrev pub IsRetained : ℤ → ℕ → List (Meeting W) → List (Meeting W) → Type 0
  IsRetained days now [] [] = Unit
  IsRetained days now [] (m' ∷ ms') = ⊥
  IsRetained days now (m ∷ ms) [] = ⊥
  IsRetained days now (m ∷ ms) (m' ∷ ms') = IsKept days now m m' × IsRetained days now ms ms'

  blanked-IsKept :
      (days : ℤ) (now cutoff : ℕ) (m : Meeting W)
      → cutoff_text days now ≡ some cutoff
      → IsKept days now m (blanked cutoff m)
  blanked-IsKept days now cutoff m h =
      let (before, since) = IsOlder-cutoff days now cutoff m.created_at h in
      elim (Bool-cases (ltb m.created_at cutoff)) [
        | inl e ↦ inl (before e, rw e refl)
        | inr e ↦ inr (since e, rw e refl)
      ]

  blank_old-IsRetained :
      (days : ℤ) (now cutoff : ℕ) (ms : List (Meeting W))
      → cutoff_text days now ≡ some cutoff
      → IsRetained days now ms (blank_old cutoff ms)
  unfolding blank_old
  blank_old-IsRetained days now cutoff [] h = tt
  blank_old-IsRetained days now cutoff (m ∷ ms) h =
      (blanked-IsKept days now cutoff m h, blank_old-IsRetained days now cutoff ms h)

module _ {W : Type 0} (io : Io W) (cfg : PipelineSettings W) where
  -- What a run leaves: the meetings as retained, and the same segments; or, where it raised, the
  -- database that it found.
  abbrev pub IsSwept : Result Exc (Unit {0}) → ℕ → Db W → Db W → Type 0
  IsSwept (ok _) now before after =
      IsRetained cfg.retention_days_text now before.meetings after.meetings
      × (after.segments ≡ before.segments)
  IsSwept (raised e) now before after = after ≡ before

  settled-IsSwept :
      (now cutoff : ℕ) (db : Db W) (s : State io)
      → cutoff_text cfg.retention_days_text now ≡ some cutoff
      → s.db ≡ record db { meetings = blank_old cutoff db.meetings }
      → (r : Result Exc (Unit {0}))
      → let after = settled io db tt (r, s) in IsSwept after.0 now db after.1.db
  settled-IsSwept now cutoff db s h e (ok _) =
      rw e (blank_old-IsRetained cfg.retention_days_text now cutoff db.meetings h, refl)
  settled-IsSwept now cutoff db s h e (raised x) = refl

  -- A run of the retention that returns has emptied the raw transcript of exactly the meetings that
  -- were created more than the configured number of days before the clock, and left the rest of them,
  -- the other meetings and the segments as they were. One that raises, where the date or the commit
  -- fails, leaves the whole database as it was.
  pub process_retention-IsSwept :
      (s : State io)
      → let r = process_retention io cfg s in IsSwept r.0 (io.utcnow s.world) s.db r.1.db
  unfolding process_retention apply_retention with_session
  process_retention-IsSwept s =
      elim (Option-cases (cutoff_text cfg.retention_days_text (io.utcnow s.world))) [
        | inl e ↦ rw e refl
        | inr (cutoff, e) ↦
            rw e (settled-IsSwept (io.utcnow s.world) cutoff s.db _ e refl (io.commit s.world).0)
      ]

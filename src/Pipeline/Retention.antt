-- ===== src/Pipeline/Retention.antt =====
-- storage/retention.py: the transcripts of old meetings are blanked, in the session of
-- apps/worker_retention and of jobs/retention_job.py. Times are microseconds since the first day of
-- the year 1.
pub mod Laws
use interview_analytics_agen.Common.{
  ℕ, suc, ◌+◌, ◌-◌, ◌*◌, String, Option, none, some, List, [], ◌∷◌, ltb, leb, if◌then◌else◌,
}
use interview_analytics_agen.Common.Exec.{Result, ok, raised, raise}
use interview_analytics_agen.Common.Int.{ℤ, pos, negsuc}
use interview_analytics_agen.Pipeline.Store.{Meeting, Db}
use interview_analytics_agen.Pipeline.Io.{
  other_error, PipelineSettings, Io, M, State, change_db, with_session,
}

abbrev pub day_us : ℕ
day_us = 86400000000

-- `datetime.max`
abbrev pub latest : ℕ
latest = 315537897599999999

-- `datetime.utcnow() - timedelta(days=days)`: `none` where it raises OverflowError.
unfoldable pub cutoff_text : ℤ → ℕ → Option ℕ
cutoff_text (pos n) now = if ltb now (n * day_us) then none else some (now - n * day_us)
cutoff_text (negsuc n) now =
    let cutoff = now + suc n * day_us in if leb cutoff latest then some cutoff else none

module _ {W : Type 0} where
  -- The body of the loop.
  abbrev pub blanked : ℕ → Meeting W → Meeting W
  blanked cutoff m = if ltb m.created_at cutoff then record m { raw_transcript = "" } else m

  unfoldable pub blank_old : ℕ → List (Meeting W) → List (Meeting W)
  blank_old cutoff [] = []
  blank_old cutoff (m ∷ ms) = blanked cutoff m ∷ blank_old cutoff ms

module _ {W : Type 0} (io : Io W) (cfg : PipelineSettings W) where
  abbrev pub blank_before : Option ℕ → M io (Unit {0})
  blank_before none = raise (other_error "date value out of range")
  blank_before (some cutoff) =
      change_db io λ db. record db { meetings = blank_old cutoff db.meetings }

  unfoldable pub apply_retention : M io (Unit {0})
  unfolding cutoff_text blank_old
  apply_retention s = blank_before (cutoff_text cfg.retention_days_text (io.utcnow s.world)) s

  -- `run` of the job, and what worker_retention does with each task.
  unfoldable pub process_retention : M io (Unit {0})
  unfolding apply_retention with_session
  process_retention = with_session io (apply_retention)

-- ===== src/Domain/Runs.antt =====
-- Runs of the pipeline: what `transition` leads to, from any stage and whatever the statuses.
use interview_analytics_agen.Common.{ℕ, suc, ◌+◌, ◌≤◌, ◌≡◌, false, none, some, arith}
use interview_analytics_agen.Domain.{
  PipelineStage, stt, enhancer, analytics, delivery, retention, PipelineStatus, queued, done,
  failed, transition,
}

-- The place of a stage in the order that enums.py and the documentation give.
abbrev pub rank : PipelineStage → ℕ
rank stt = 0
rank enhancer = 1
rank analytics = 2
rank delivery = 3
rank retention = 4

-- A stage ran, ended with a status, and the pipeline went on from it.
pub data Advances : PipelineStage → PipelineStage → Type 0 where
  advance :
      {s t : PipelineStage} (status : PipelineStatus)
      → (transition s status).next_stage ≡ some t
      → Advances s t

pub data Run : PipelineStage → PipelineStage → ℕ → Type 0 where
  here : {s : PipelineStage} → Run s s 0
  step : {s t u : PipelineStage} {n : ℕ} → Advances s t → Run t u n → Run s u (suc n)

-- The pipeline goes on to another stage exactly where the stage is done and is not the last, and
-- then to the next one in the order, which is queued.
pub transition_moves :
    (s t : PipelineStage) (status : PipelineStatus)
    → (transition s status).next_stage ≡ some t
    → (status ≡ done) × (rank t ≡ rank s + 1) × ((transition s status).status ≡ some queued)
unfolding transition
transition_moves s t status h = ground arith

rank-Advances : {s t : PipelineStage} → Advances s t → rank t ≡ rank s + 1
rank-Advances {s} {t} (advance status h) = (transition_moves s t status h).1

-- A run of n moves ends n places further in the order of the stages: no stage is skipped or
-- repeated.
pub rank-Run : {s t : PipelineStage} {n : ℕ} → Run s t n → rank t ≡ rank s + n
rank-Run here = omega arith
rank-Run (step a r) = omega (arith, rank-Advances a, rank-Run r)

rank-le : (s : PipelineStage) → rank s ≤ 4
rank-le s = ground arith

-- No run has more than four moves, from whatever stage it starts.
pub Run-bounded : {s t : PipelineStage} {n : ℕ} → Run s t n → n ≤ 4
Run-bounded {t = t} r = omega (arith, rank-Run r, rank-le t)

-- A transition is refused exactly where the stage has failed, and a stage that has failed leads to
-- no other.
pub transition_refused :
    (s : PipelineStage) (status : PipelineStatus)
    → ((transition s status).ok ≡ false → status ≡ failed)
      × (status ≡ failed → (transition s status).ok ≡ false)
      × (status ≡ failed → (transition s status).next_stage ≡ none)
unfolding transition
transition_refused s status = ground arith

-- ===== src/Domain.antt =====
-- src/interview_analytics_agent/domain/enums.py and state_machine.py: the stages of the pipeline,
-- their statuses, and the rule that leads from one stage to the next.
mod Runs
mod Checks
use mathlib.Core.Logic.{ite}
use interview_analytics_agen.Common.{
  ◌≡◌, Bool, true, false, Option, none, some, String, List, [], ◌∷◌,
}

pub data PipelineStage : Type 0 where
  stt enhancer analytics delivery retention : PipelineStage

pub data PipelineStatus : Type 0 where
  queued processing done failed : PipelineStatus

pub PipelineStage-discrete : Discrete PipelineStage
PipelineStage-discrete = hlevel

pub record TransitionResult : Type 0 where
  pub ok : Bool
  pub next_stage : Option PipelineStage
  pub status : Option PipelineStatus
  pub reason : Option String

-- `_stage_order`
abbrev pub stage_order : List PipelineStage
stage_order = stt ∷ enhancer ∷ analytics ∷ delivery ∷ retention ∷ []

abbrev head? : List PipelineStage → Option PipelineStage
head? [] = none
head? (x ∷ xs) = some x

-- `order[idx + 1]` at the first index of `current`, `None` behind the end or where it is missing.
after : PipelineStage → List PipelineStage → Option PipelineStage
unfolding PipelineStage-discrete
after current [] = none
after current (x ∷ xs) =
    let rest = after current xs in ite (PipelineStage-discrete x current) (head? xs) rest

unfoldable pub next_stage_after : PipelineStage → Option PipelineStage
unfolding after
next_stage_after current = after current stage_order

abbrev to_next : Option PipelineStage → TransitionResult
to_next none = record { ok = true; next_stage = none; status = some done; reason = none }
to_next (some s) = record { ok = true; next_stage = some s; status = some queued; reason = none }

unfoldable pub transition : PipelineStage → PipelineStatus → TransitionResult
unfolding next_stage_after
transition stage failed = record {
  ok = false;
  next_stage = none;
  status = some failed;
  reason = some "stage_failed";
}
transition stage done = to_next (next_stage_after stage)
transition stage status = record {
  ok = true;
  next_stage = none;
  status = some status;
  reason = none;
}

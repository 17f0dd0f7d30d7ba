-- ===== src/Domain/Checks.antt =====
-- Tests of the stages, and instances of their theorems.
use interview_analytics_agen.Common.{◌+◌, ◌≤◌, ◌≡◌, refl, none}
use interview_analytics_agen.Domain.{stt, analytics, retention, done, next_stage_after, transition}
use interview_analytics_agen.Domain.Runs.{rank, Run, here, step, advance, rank-Run, Run-bounded}

last_stage : next_stage_after retention ≡ none
unfolding next_stage_after
last_stage = refl

two_moves : Run stt analytics 2
unfolding transition
two_moves = step (advance done refl) (step (advance done refl) here)

rank-Run_example : rank analytics ≡ rank stt + 2
rank-Run_example = rank-Run two_moves

Run-bounded_example : 2 ≤ 4
Run-bounded_example = Run-bounded two_moves

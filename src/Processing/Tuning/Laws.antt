-- ===== src/Processing/Tuning/Laws.antt =====
-- What processing/rubric_tuning.py saves, and what processing/scorecard.py reads of it.
use interview_analytics_agen.Common.{
  String, Bool, true, false, ◌&&◌, not, Option, some, List, [], ◌∷◌, length, is_empty, strip,
  if◌then◌else◌, ◌==◌, ◌≡◌, refl, ◌∙◌, arith, Bool-cases, inl, inr,
}
use interview_analytics_agen.Common.Assoc.{
  lookup, keys, keys-map, map-Distinct, lookup-set, Distinct, set-Distinct,
}
use interview_analytics_agen.Common.Floats.{Floats}
use interview_analytics_agen.Processing.Rubric.{Overrides}
use interview_analytics_agen.Processing.Scorecard.{Competency, Scorecard}
use interview_analytics_agen.Processing.Decision.{reaches}
use interview_analytics_agen.Processing.Comparison.{text_or_empty}
use interview_analytics_agen.Processing.Calibration.{Review, agent_scores}
use interview_analytics_agen.Processing.Tuning.{
  TuningSettings, Tuned, current_of, read_weights, base_weights_of, mean_abs_diff_by_competency,
  learning_rate_of, tuned_raw, tuned_of, updated_of, maybe_update_weights,
}

if-Distinct :
    {A : Type 0} (b : Bool) (c d : List (String × A))
    → Distinct c
    → Distinct d
    → Distinct (if b then c else d)
if-Distinct true c d hc hd = hc
if-Distinct false c d hc hd = hd

module _ {W : Type 0} ⦃f : Floats W⦄ where
  read_weights-Distinct :
      (comps : List Competency) (out : List (String × W))
      → Distinct out
      → Distinct (read_weights out comps)
  unfolding read_weights
  read_weights-Distinct [] out h = h
  read_weights-Distinct (item ∷ items) out h =
      read_weights-Distinct items _ (if-Distinct _ out _ h (set-Distinct out _ _ h))

  pub tuned_of-Distinct :
      (lr : W) (mad base : List (String × W)) → Distinct base → Distinct (tuned_of lr mad base)
  unfolding tuned_of tuned_raw
  tuned_of-Distinct lr mad base h = map-Distinct _ (tuned_raw lr mad base) (map-Distinct _ base h)

  -- What an update needs, and the update.
  pub saved :
      (s : TuningSettings W) (scorecard : Scorecard) (reviews : List Review)
      (current : Option Overrides) (present : String) (t : Tuned W)
      → maybe_update_weights s scorecard reviews current present ≡ some t
      → (s.scorecard_auto_tuning_enabled ≡ true)
        × (reaches (length reviews) s.scorecard_tuning_min_reviews ≡ true)
        × (updated_of s scorecard reviews current present
              (base_weights_of scorecard.competencies)
              (mean_abs_diff_by_competency (agent_scores [] scorecard.competencies) reviews)
            ≡ t)
  unfolding maybe_update_weights
  saved s scorecard reviews current present t h = ground arith

  keys-global :
      (s : TuningSettings W) (scorecard : Scorecard) (reviews : List Review)
      (current : Option Overrides) (present : String) (base mad : List (String × W))
      → keys (updated_of s scorecard reviews current present base mad).overrides.global ≡ keys base
  unfolding updated_of tuned_of tuned_raw
  keys-global s scorecard reviews current present base mad =
      keys-map _ (tuned_of (learning_rate_of s) mad base)
      ∙ keys-map _ (tuned_raw (learning_rate_of s) mad base)
      ∙ keys-map _ base

  lookup-by_position :
      (s : TuningSettings W) (scorecard : Scorecard) (reviews : List Review)
      (current : Option Overrides) (present : String) (base mad : List (String × W)) (p : String)
      → (let position = strip (text_or_empty scorecard.position_label) in
          let o = (updated_of s scorecard reviews current present base mad).overrides in
          lookup o.by_position p ≡ (
            if not (is_empty position) && position == p
            then some o.global
            else lookup (current_of current).by_position p))
  unfolding updated_of
  lookup-by_position s scorecard reviews current present base mad p =
      let position = strip (text_or_empty scorecard.position_label) in
      elim (Bool-cases (is_empty position)) [
        | inl e ↦ rw e refl
        | inr e ↦ rw e (lookup-set (current_of current).by_position position p _)
      ]

  -- Weights are saved only with the tuning switched on and enough reviews. The saved weights are of
  -- the scorecard's competencies; they are also those of the scorecard's position, if it has one, and
  -- the weights of every other position stay as they were.
  pub update_frame :
      (s : TuningSettings W) (scorecard : Scorecard) (reviews : List Review)
      (current : Option Overrides) (present : String) (t : Tuned W) (p : String)
      → maybe_update_weights s scorecard reviews current present ≡ some t
      → (s.scorecard_auto_tuning_enabled ≡ true)
        × (reaches (length reviews) s.scorecard_tuning_min_reviews ≡ true)
        × (keys t.overrides.global ≡ keys (base_weights_of {W = W} scorecard.competencies))
        × (let position = strip (text_or_empty scorecard.position_label) in
            lookup t.overrides.by_position p ≡ (
              if not (is_empty position) && position == p
              then some t.overrides.global
              else lookup (current_of current).by_position p))
  update_frame s scorecard reviews current present t p h =
      let (enabled, enough, made) = saved s scorecard reviews current present t h in
      rw (← made) (
        enabled,
        enough,
        keys-global s scorecard reviews current present _ _,
        lookup-by_position s scorecard reviews current present _ _ p,
      )

pub base_weights_of-Distinct :
    (W : Type 0) ⦃f : Floats W⦄ (comps : List Competency) → Distinct (base_weights_of {W = W} comps)
unfolding base_weights_of
base_weights_of-Distinct W comps =
    map-Distinct _ (read_weights {W = W} [] comps) (read_weights-Distinct comps [] tt)

-- ===== src/Processing/Tuning.antt =====
-- processing/rubric_tuning.py: the weights that calibration feeds back. The file of overrides is
-- the state: `none` where it is missing or cannot be read.
pub mod Laws
pub mod Loaded
use interview_analytics_agen.Common.{
  ℕ, String, Bool, true, false, ◌||◌, not, Option, none, some, List, [], ◌∷◌, ◌++◌, map, length,
  is_empty, if◌then◌else◌, strip, contains,
}
use interview_analytics_agen.Common.Value.{Value, null, string, Dict, truthy, str}
use interview_analytics_agen.Common.Assoc.{lookup, lookup_or, set}
use interview_analytics_agen.Common.Floats.{Floats, maximum, nought, of_nat, or_else}
use interview_analytics_agen.Common.Int.{ℤ}
use interview_analytics_agen.Processing.Rubric.{Overrides, values}
use interview_analytics_agen.Processing.Scorecard.{Competency, Scorecard}
use interview_analytics_agen.Processing.Decision.{reaches}
use interview_analytics_agen.Processing.Comparison.{text_or_empty}
use interview_analytics_agen.Processing.Calibration.{Review, agent_scores}

-- common/config.py: the settings of the tuning.
pub record TuningSettings (W : Type 0) : Type 0 where
  pub scorecard_auto_tuning_enabled : Bool
  pub scorecard_tuning_min_reviews : ℤ
  pub scorecard_tuning_learning_rate : W

-- What is written to the file: the new weights, and what they were made of.
pub record Tuned (W : Type 0) : Type 0 where
  pub overrides : Overrides
  pub updated_at : String
  pub reviews_count : ℕ
  pub learning_rate : W
  pub mean_abs_diff : List (String × W)

-- `{}` where there is no file.
abbrev pub current_of : Option Overrides → Overrides
current_of none = record { global = []; by_position = []; others = [] }
current_of (some o) = o

abbrev pub is_nil : {A : Type 0} → List A → Bool
is_nil [] = true
is_nil (x ∷ xs) = false

module _ {W : Type 0} ⦃f : Floats W⦄ where
  abbrev read_or_nought : Value → W
  read_or_nought v = elim (f.read v) [ none ↦ nought | some x ↦ x ]

  -- The loop of `_base_weights`.
  unfoldable pub read_weights : List (String × W) → List Competency → List (String × W)
  unfolding strip set
  read_weights out [] = out
  read_weights out (item ∷ items) =
      let cid = strip (text_or_empty item.competency_id) in
      read_weights (if is_empty cid then out else set out cid (read_or_nought item.weight)) items

  unfoldable pub base_weights_of : List Competency → List (String × W)
  unfolding read_weights
  base_weights_of comps =
      let out = read_weights [] comps in
      let total = or_else (f.sum (map (maximum nought) (values out))) (of_nat 1) in
      map (λ p. (p.0, f.div (maximum nought p.1) total)) out

  -- `per_comp.setdefault(cid, []).append(diff)`
  abbrev append_to : List (String × List W) → String → W → List (String × List W)
  append_to per_comp cid diff = set per_comp cid (lookup_or [] per_comp cid ++ (diff ∷ []))

  -- What a review says of a competency, where it is a number.
  abbrev review_score : Dict → String → Option W
  review_score scores cid = elim (lookup scores cid) [ none ↦ none | some v ↦ f.read v ]

  abbrev append_diff : List (String × List W) → String → W → Option W → List (String × List W)
  append_diff per_comp cid agent_score none = per_comp
  append_diff per_comp cid agent_score (some x) =
      append_to per_comp cid (f.abs (f.sub agent_score x))

  unfoldable pub add_review :
      List (String × List W) → Dict → List (String × W) → List (String × List W)
  unfolding lookup set
  add_review per_comp scores [] = per_comp
  add_review per_comp scores ((cid, agent_score) ∷ agent) =
      add_review (append_diff per_comp cid agent_score (review_score scores cid)) scores agent

  unfoldable pub add_reviews :
      List (String × List W) → List (String × W) → List Review → List (String × List W)
  unfolding add_review
  add_reviews per_comp agent [] = per_comp
  add_reviews per_comp agent (row ∷ reviews) =
      add_reviews (add_review per_comp row.scores agent) agent reviews

  -- `_mean_abs_diff_by_competency`: no list of differences is empty.
  unfoldable pub mean_abs_diff_by_competency : List (String × W) → List Review → List (String × W)
  unfolding add_reviews
  mean_abs_diff_by_competency agent reviews =
      map (λ p. (p.0, f.div (f.sum p.1) (of_nat (length p.1)))) (add_reviews [] agent reviews)

  abbrev pub learning_rate_of : TuningSettings W → W
  learning_rate_of s = maximum (f.literal 1 2) s.scorecard_tuning_learning_rate

  -- A weight after its reliability, which the mean difference lowers.
  abbrev pub tuned_weight : W → List (String × W) → String → W → W
  tuned_weight lr mad cid base_w =
      let reliability =
        maximum (f.literal 35 2) (f.sub (of_nat 1) (f.mul lr (lookup_or nought mad cid))) in
      maximum (f.literal 1 2) (f.mul base_w reliability)

  unfoldable pub tuned_raw : W → List (String × W) → List (String × W) → List (String × W)
  unfolding lookup
  tuned_raw lr mad base = map (λ p. (p.0, tuned_weight lr mad p.0 p.1)) base

  unfoldable pub tuned_of : W → List (String × W) → List (String × W) → List (String × W)
  unfolding tuned_raw
  tuned_of lr mad base =
      let raw = tuned_raw lr mad base in
      let total = or_else (f.sum (values raw)) (of_nat 1) in
      map (λ p. (p.0, f.round (f.div p.1 total) 6)) raw

  abbrev pub document : List (String × W) → Dict
  document = map (λ p. (p.0, f.write p.1))

  -- `updated`, at the present time.
  unfoldable pub updated_of :
      TuningSettings W
      → Scorecard
      → List Review
      → Option Overrides
      → String
      → List (String × W)
      → List (String × W)
      → Tuned W
  unfolding tuned_of strip set
  updated_of s scorecard reviews current present base mad =
      let tuned = document (tuned_of (learning_rate_of s) mad base) in
      let position = strip (text_or_empty scorecard.position_label) in
      let old = current_of current in
      record {
        overrides = record {
          global = tuned;
          by_position =
              if is_empty position then old.by_position else set old.by_position position tuned;
          others = old.others;
        };
        updated_at = present;
        reviews_count = length reviews;
        learning_rate = learning_rate_of s;
        mean_abs_diff = map (λ p. (p.0, f.round p.1 4)) mad;
      }

  -- `maybe_update_weights_from_calibration`: what it saves and returns, on the overrides that the file
  -- holds and the present time.
  unfoldable pub maybe_update_weights :
      TuningSettings W → Scorecard → List Review → Option Overrides → String → Option (Tuned W)
  unfolding base_weights_of agent_scores mean_abs_diff_by_competency updated_of
  maybe_update_weights s scorecard reviews current present =
      let base = base_weights_of scorecard.competencies in
      let agent = agent_scores [] scorecard.competencies in
      let mad = mean_abs_diff_by_competency agent reviews in
      if not s.scorecard_auto_tuning_enabled
      then none
      else if not (reaches (length reviews) s.scorecard_tuning_min_reviews)
      then none
      else if is_nil base || is_nil agent
      then none
      else if is_nil mad
      then none
      else some (updated_of s scorecard reviews current present base mad)

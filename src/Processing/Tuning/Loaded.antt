-- ===== src/Processing/Tuning/Loaded.antt =====
-- What processing/scorecard.py reads of the weights that processing/rubric_tuning.py saved.
use interview_analytics_agen.Common.{
  String, false, Option, some, List, [], ◌∷◌, ◌++◌, contains, ◌==◌, ◌≡◌, refl, sym, ap, ◌∙◌, arith,
  eq_iff, append_assoc, append-nil,
}
use interview_analytics_agen.Common.Value.{Dict}
use interview_analytics_agen.Common.Assoc.{keys, Distinct, set-new}
use interview_analytics_agen.Common.Floats.{Floats, IsOrdered}
use interview_analytics_agen.Processing.Rubric.{Overrides, select, selected_of, position_of}
use interview_analytics_agen.Processing.Scorecard.{Scorecard}
use interview_analytics_agen.Processing.Calibration.{Review, agent_scores}
use interview_analytics_agen.Processing.Tuning.{
  TuningSettings, Tuned, tuned_of, document, updated_of, mean_abs_diff_by_competency,
  base_weights_of, learning_rate_of, maybe_update_weights,
}
use interview_analytics_agen.Processing.Tuning.Laws.{
  saved, tuned_of-Distinct, base_weights_of-Distinct,
}

contains-middle :
    {A : Type 0} (c d : List (String × A)) (k j : String) (a : A)
    → contains (keys (c ++ ((k, a) ∷ d))) j ≡ false
    → (k == j) ≡ false
unfolding contains keys
contains-middle [] d k j a h = ground arith
contains-middle ((i, b) ∷ c) d k j a h = contains-middle c d k j a (ground arith)

not_before :
    {A : Type 0} (c d : List (String × A)) (k : String) (a : A)
    → Distinct (c ++ ((k, a) ∷ d))
    → contains (keys c) k ≡ false
unfolding contains keys
not_before [] d k a h = refl
not_before ((j, b) ∷ c) d k a h =
    ground (arith, not_before c d k a h.1, contains-middle c d k j a h.0, eq_iff k j, eq_iff j k)

module _ {W : Type 0} ⦃f : Floats W⦄ (o : IsOrdered W) where
  select-document :
      (d out : List (String × W)) → Distinct (out ++ d) → select out (document d) ≡ out ++ d
  unfolding select
  select-document [] out h = sym (append-nil out)
  select-document ((k, w) ∷ d) out h = rw (o.read_write w) (
      rw (set-new out k w (not_before out d k w h)) (
        select-document d (out ++ ((k, w) ∷ [])) (rw (append_assoc out ((k, w) ∷ []) d) h)
        ∙ append_assoc out ((k, w) ∷ []) d))

  without_position :
      (context : Dict) (d : Overrides)
      → position_of context ≡ ""
      → selected_of {W = W} context d ≡ select [] d.global
  unfolding selected_of
  without_position context d e = rw e refl

  -- Weights that were saved are the ones that the scorecard of an interview without a position
  -- selects, each as it was written: nothing is lost or added between the file and the score.
  pub selected_of-saved :
      (s : TuningSettings W) (scorecard : Scorecard) (reviews : List Review)
      (current : Option Overrides) (present : String) (t : Tuned W) (context : Dict)
      → maybe_update_weights s scorecard reviews current present ≡ some t
      → position_of context ≡ ""
      → document (selected_of {W = W} context t.overrides) ≡ t.overrides.global
  unfolding updated_of
  selected_of-saved s scorecard reviews current present t context h e =
      let (_, _, made) = saved s scorecard reviews current present t h in
      let base = base_weights_of scorecard.competencies in
      let mad = mean_abs_diff_by_competency (agent_scores [] scorecard.competencies) reviews in
      let tuned = tuned_of (learning_rate_of s) mad base in
      let distinct =
        tuned_of-Distinct (learning_rate_of s) mad base (base_weights_of-Distinct W _) in
      rw (← made) (
        ap document (
          without_position context
            (updated_of s scorecard reviews current present base mad).overrides e
          ∙ select-document tuned [] distinct))

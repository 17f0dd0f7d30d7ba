-- ===== src/Processing/Quality.antt =====
-- processing/quality.py: a rough score of the enhanced text.
use interview_analytics_agen.Common.{
  String, Bool, true, ◌&&◌, not, ltb, is_empty, if◌then◌else◌, ◌≡◌, arith, Bool-cases, inl, inr,
}
use interview_analytics_agen.Common.Floats.{
  Floats, IsOrdered, maximum, minimum, nought, of_nat, clamp-le, le-clamp,
}
use interview_analytics_agen.Processing.Transcript.{text_length, ends_sentence}

module _ {W : Type 0} ⦃f : Floats W⦄ where
  abbrev add_tenth : Bool → W → W
  add_tenth gained score = if gained then f.add score (f.literal 1 1) else score

  unfoldable pub quality_score : String → String → W
  unfolding text_length ends_sentence
  quality_score raw_text enhanced_text =
      let shorter =
        not (is_empty raw_text) && ltb (text_length enhanced_text) (text_length raw_text) in
      let score = add_tenth shorter (f.literal 5 1) in
      if is_empty enhanced_text
      then nought
      else maximum nought (minimum (of_nat 1) (add_tenth (ends_sentence enhanced_text) score))

  -- The quality lies between 0 and 1, the ends included, for any two texts.
  pub quality_score-bounds :
      (o : IsOrdered W) (raw_text enhanced_text : String)
      → (f.le nought (quality_score raw_text enhanced_text) ≡ true)
        × (f.le (quality_score raw_text enhanced_text) (of_nat 1) ≡ true)
  unfolding quality_score
  quality_score-bounds o raw_text enhanced_text = elim (Bool-cases (is_empty enhanced_text)) [
    | inl e ↦ rw e (o.literals 0 0 0 (omega arith), o.literals 0 1 0 (omega arith))
    | inr e ↦ rw e (
      le-clamp {W = W} nought (of_nat 1) _ (o.literals 0 0 0 (omega arith)),
      clamp-le {W = W} nought (of_nat 1) _ (o.literals 0 1 0 (omega arith))
          (o.literals 1 1 0 (omega arith)),
    )
  ]

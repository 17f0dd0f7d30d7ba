-- ===== src/Processing/Rubric/Laws.antt =====
-- The weights of processing/scorecard.py.
use interview_analytics_agen.Common.{
  String, Option, none, some, List, [], ◌∷◌, map, contains, ◌≡◌, refl, ◌∙◌, Bool-cases, inl, inr,
}
use interview_analytics_agen.Common.Value.{Dict}
use interview_analytics_agen.Common.Assoc.{keys, set, keys-set, keys-map}
use interview_analytics_agen.Common.Floats.{Floats, maximum, nought, of_nat, or_else}
use interview_analytics_agen.Processing.Rubric.{
  Overrides, base_weights, base_rubric, values, normalize_weights, merge, selected_of,
  effective_weights, weights_with,
}

module _ {W : Type 0} ⦃f : Floats W⦄ where
  keys-normalize_weights : (raw : List (String × W)) → keys (normalize_weights raw) ≡ keys raw
  unfolding normalize_weights
  keys-normalize_weights raw =
      let total = or_else (f.sum (values (map (λ p. (p.0, maximum nought p.1)) raw))) (of_nat 1) in
      keys-map (λ k w. f.div w total) (map (λ p. (p.0, maximum nought p.1)) raw)
      ∙ keys-map (λ k. maximum nought) raw

  keys-merge : (merged selected : List (String × W)) → keys (merge merged selected) ≡ keys merged
  unfolding merge
  keys-merge merged [] = refl
  keys-merge merged ((cid, w) ∷ selected) = elim (Bool-cases (contains (keys merged) cid)) [
    | inl e ↦ rw e (keys-merge (set merged cid w) selected ∙ keys-set merged cid w e)
    | inr e ↦ rw e (keys-merge merged selected)
  ]

  keys-weights_with :
      (selected : List (String × W)) → keys (weights_with selected) ≡ keys (base_weights {W = W})
  unfolding weights_with
  keys-weights_with [] = keys-normalize_weights base_weights
  keys-weights_with (p ∷ ps) =
      keys-normalize_weights (merge base_weights (p ∷ ps)) ∙ keys-merge base_weights (p ∷ ps)

-- Whatever the overrides say, the weights in effect are those of the rubric's competencies, each
-- once and in the rubric's order: an override neither adds a competency nor removes one.
pub keys-effective_weights :
    (W : Type 0) ⦃f : Floats W⦄ (context : Dict) (overrides : Option Overrides)
    → keys (effective_weights {W = W} context overrides)
      ≡ map (λ item. item.id) (base_rubric {W = W})
unfolding effective_weights keys
keys-effective_weights W context none = keys-normalize_weights {W = W} base_weights
keys-effective_weights W context (some o) = keys-weights_with (selected_of context o)

-- ===== src/Processing/Rubric.antt =====
-- processing/scorecard.py: the rubric and the weights that are in effect.
pub mod Laws
use interview_analytics_agen.Common.{
  String, Bool, true, false, Option, none, some, List, [], ◌∷◌, map, if◌then◌else◌, is_empty, strip,
  contains,
}
use interview_analytics_agen.Common.Value.{Value, Dict, get, truthy, str}
use interview_analytics_agen.Common.Assoc.{set, keys, lookup_or}
use interview_analytics_agen.Common.Floats.{Floats, maximum, nought, of_nat, or_else}

pub record Item (W : Type 0) : Type 0 where
  pub id : String
  pub title : String
  pub weight : W
  pub keywords : List String

-- The document of weights that `rubric_tuning` keeps. Entries of `by_position` that are no
-- dictionaries count as empty ones, and so does a falsy `global`; `others` are the keys that the
-- code never reads. A truthy `by_position` that is no dictionary counts as an empty one; where the
-- tuning reads it (`dict(...)`), it raises before anything is saved, which is not modelled.
pub record Overrides : Type 0 where
  pub global : Dict
  pub by_position : List (String × Dict)
  pub others : Dict

-- What `load_weight_overrides` gives: nothing or an empty document, a document whose `global` is a
-- dictionary or falsy, or one with another `global`, whose `.items()` raises AttributeError.
pub data Loaded : Type 0 where
  missing broken : Loaded
  loaded : Overrides → Loaded

-- The first lines of `_effective_weights`: `none` where they raise.
abbrev pub overrides_of : Loaded → Option (Option Overrides)
overrides_of missing = some none
overrides_of (loaded o) = some (some o)
overrides_of broken = none

-- `str(context.get("position") or context.get("role") or "").strip()`
unfoldable pub position_of : Dict → String
unfolding get strip
position_of context =
    if truthy (get context "position")
    then strip (str (get context "position"))
    else if truthy (get context "role")
    then strip (str (get context "role"))
    else ""

module _ {W : Type 0} ⦃f : Floats W⦄ where
  -- `BASE_RUBRIC`
  abbrev pub base_rubric : List (Item W)
  base_rubric =
      record {
        id = "problem_solving";
        title = "Problem Solving";
        weight = f.literal 2 1;
        keywords =
            "почему" ∷ "why" ∷ "tradeoff" ∷ "компромисс" ∷ "подход" ∷ "approach" ∷ "решил" ∷ "solve"
            ∷ "decision" ∷ [];
      }
      ∷ record {
        id = "technical_depth";
        title = "Technical Depth";
        weight = f.literal 2 1;
        keywords =
            "алгоритм" ∷ "сложност" ∷ "latency" ∷ "throughput" ∷ "cache" ∷ "database" ∷ "sql"
            ∷ "python" ∷ "architecture" ∷ [];
      }
      ∷ record {
        id = "system_design";
        title = "System Design";
        weight = f.literal 15 2;
        keywords =
            "масштаб" ∷ "scale" ∷ "service" ∷ "микросервис" ∷ "queue" ∷ "event" ∷ "design"
            ∷ "boundary" ∷ "sla" ∷ [];
      }
      ∷ record {
        id = "communication";
        title = "Communication";
        weight = f.literal 15 2;
        keywords =
            "объясн" ∷ "ясно" ∷ "clear" ∷ "summary" ∷ "пример" ∷ "example" ∷ "уточн" ∷ "question"
            ∷ [];
      }
      ∷ record {
        id = "collaboration";
        title = "Collaboration";
        weight = f.literal 1 1;
        keywords =
            "команда" ∷ "team" ∷ "review" ∷ "feedback" ∷ "mentoring" ∷ "stakeholder" ∷ "conflict"
            ∷ [];
      }
      ∷ record {
        id = "ownership";
        title = "Ownership";
        weight = f.literal 1 1;
        keywords =
            "ответствен" ∷ "ownership" ∷ "инициатив" ∷ "incident" ∷ "postmortem" ∷ "deadline"
            ∷ "delivery" ∷ [];
      }
      ∷ record {
        id = "role_fit";
        title = "Role Fit";
        weight = f.literal 1 1;
        keywords =
            "продукт" ∷ "бизнес" ∷ "value" ∷ "customer" ∷ "roadmap" ∷ "priority" ∷ "senior"
            ∷ "impact" ∷ [];
      }
      ∷ []

  abbrev pub values : List (String × W) → List W
  values = map (λ p. p.1)

  -- `_normalize_weights`
  unfoldable pub normalize_weights : List (String × W) → List (String × W)
  normalize_weights raw =
      let normalized = map (λ p. (p.0, maximum nought p.1)) raw in
      let total = or_else (f.sum (values normalized)) (of_nat 1) in
      map (λ p. (p.0, f.div p.1 total)) normalized

  -- The loops over a dictionary of overrides: what is no number is passed over.
  unfoldable pub select : List (String × W) → Dict → List (String × W)
  unfolding set
  select selected [] = selected
  select selected ((cid, weight) ∷ d) = elim (f.read weight) [
    | none ↦ select selected d
    | some w ↦ select (set selected cid w) d
  ]

  -- `for cid, weight in selected.items(): if cid in merged: merged[cid] = weight`
  unfoldable pub merge : List (String × W) → List (String × W) → List (String × W)
  unfolding set keys contains
  merge merged [] = merged
  merge merged ((cid, weight) ∷ selected) =
      merge (if contains (keys merged) cid then set merged cid weight else merged) selected

  abbrev pub base_weights : List (String × W)
  base_weights = map (λ item. (item.id, item.weight)) base_rubric

  -- The overrides of a position add to the global ones, and win.
  unfoldable pub selected_of : Dict → Overrides → List (String × W)
  unfolding select position_of
  selected_of context o =
      let selected = select [] o.global in
      let position = position_of context in
      if is_empty position then selected else select selected (lookup_or [] o.by_position position)

  -- The weights that nothing selected, or that the selected ones change.
  unfoldable pub weights_with : List (String × W) → List (String × W)
  unfolding normalize_weights merge
  weights_with [] = normalize_weights base_weights
  weights_with (p ∷ ps) = normalize_weights (merge base_weights (p ∷ ps))

  -- `_effective_weights`; `none` where the document is missing or empty.
  unfoldable pub effective_weights : Dict → Option Overrides → List (String × W)
  unfolding normalize_weights weights_with selected_of
  effective_weights context none = normalize_weights base_weights
  effective_weights context (some o) = weights_with (selected_of context o)

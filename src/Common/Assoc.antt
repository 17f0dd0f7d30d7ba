-- ===== src/Common/Assoc.antt =====
-- Python dictionaries with text keys, as association lists in the order of insertion.
use Prim.Native.String.{String}
use mathlib.Core.Path.{◌≡◌, refl, ap, ◌∙◌}
use mathlib.Core.Logic.{inl, inr}
use mathlib.Core.Bool.{Bool, true, false, ◌||◌}
use mathlib.Core.Option.{Option, none, some}
use mathlib.Core.List.{List, [], ◌∷◌, ◌++◌, map}
use native.Mathlib.Omega.{arith}
use text.Mathlib.Text.{◌==◌}
use text.Mathlib.TextEquality.{eq_iff}
use interview_analytics_agen.Common.Tests.{if◌then◌else◌, Bool-cases}
use interview_analytics_agen.Common.Text.{contains}

module _ {A : Type 0} where
  -- `d.get(key)`
  unfoldable pub lookup : List (String × A) → String → Option A
  lookup [] k = none
  lookup ((j, a) ∷ d) k = let rest = lookup d k in if j == k then some a else rest

  -- `d.get(key, default)`
  abbrev pub lookup_or : A → List (String × A) → String → A
  lookup_or a d k = elim (lookup d k) [ none ↦ a | some b ↦ b ]

  -- `d[key] = value`
  unfoldable pub set : List (String × A) → String → A → List (String × A)
  set [] k a = (k, a) ∷ []
  set ((j, b) ∷ d) k a = let rest = set d k a in if j == k then (j, a) ∷ d else (j, b) ∷ rest

  -- `list(d)`
  unfoldable pub keys : List (String × A) → List String
  keys [] = []
  keys ((j, b) ∷ d) = j ∷ keys d

  abbrev is_some : Option A → Bool
  is_some none = false
  is_some (some a) = true

  -- `key in d`
  pub contains-lookup :
      (d : List (String × A)) (k : String) → contains (keys d) k ≡ is_some (lookup d k)
  unfolding keys contains lookup
  contains-lookup [] k = refl
  contains-lookup ((j, a) ∷ d) k = ground (arith, contains-lookup d k)

  pub lookup-set :
      (d : List (String × A)) (k j : String) (a : A)
      → lookup (set d k a) j ≡ (if k == j then some a else lookup d j)
  unfolding lookup set
  lookup-set [] k j a = ground arith
  lookup-set ((i, b) ∷ d) k j a =
      ground (arith, lookup-set d k j a, eq_iff i k, eq_iff i j, eq_iff k j)

  abbrev or_default : A → Option A → A
  or_default a o = elim o [ none ↦ a | some b ↦ b ]

  or_default-if :
      (a b : A) (o : Option A) (c : Bool)
      → or_default a (if c then some b else o) ≡ (if c then b else or_default a o)
  or_default-if a b o true = refl
  or_default-if a b o false = refl

  pub lookup_or-set :
      (a : A) (d : List (String × A)) (k j : String) (b : A)
      → lookup_or a (set d k b) j ≡ (if k == j then b else lookup_or a d j)
  lookup_or-set a d k j b =
      ap (or_default a) (lookup-set d k j b) ∙ or_default-if a b (lookup d j) (k == j)

  -- Setting a key that is there changes no keys.
  pub keys-set :
      (d : List (String × A)) (k : String) (a : A)
      → contains (keys d) k ≡ true
      → keys (set d k a) ≡ keys d
  unfolding keys set contains
  keys-set [] k a h = absurd (ground arith)
  keys-set ((j, b) ∷ d) k a h = ground (arith, keys-set d k a)

-- No key occurs twice.
module _ {A : Type 0} where
  abbrev pub Distinct : List (String × A) → Type 0
  Distinct [] = Unit
  Distinct ((k, a) ∷ d) = (contains (keys d) k ≡ false) × Distinct d

  contains-keys-set :
      (d : List (String × A)) (k j : String) (a : A)
      → contains (keys (set d k a)) j ≡ (k == j || contains (keys d) j)
  unfolding keys set contains
  contains-keys-set [] k j a = refl
  contains-keys-set ((i, b) ∷ d) k j a =
      ground (arith, contains-keys-set d k j a, eq_iff i k, eq_iff i j, eq_iff k j)

  pub set-Distinct :
      (d : List (String × A)) (k : String) (a : A) → Distinct d → Distinct (set d k a)
  unfolding set contains keys
  set-Distinct [] k a h = (refl, tt)
  set-Distinct ((j, b) ∷ d) k a h = elim (Bool-cases (j == k)) [
    | inl e ↦ rw e h
    | inr e ↦ rw e (
      contains-keys-set d k j a ∙ ground (arith, eq_iff j k, eq_iff k j, e, h.0),
      set-Distinct d k a h.1,
    )
  ]

  -- A new key comes last.
  pub set-new :
      (d : List (String × A)) (k : String) (a : A)
      → contains (keys d) k ≡ false
      → set d k a ≡ d ++ ((k, a) ∷ [])
  unfolding set keys contains
  set-new [] k a h = refl
  set-new ((j, b) ∷ d) k a h = ground (arith, set-new d k a)

pub keys-map :
    {A B : Type 0} (g : String → A → B) (d : List (String × A))
    → keys (map (λ p. (p.0, g p.0 p.1)) d) ≡ keys d
unfolding keys
keys-map g [] = refl
keys-map g ((j, b) ∷ d) = ap (λ l. j ∷ l) (keys-map g d)

pub map-Distinct :
    {A B : Type 0} (g : String → A → B) (d : List (String × A))
    → Distinct d
    → Distinct (map (λ p. (p.0, g p.0 p.1)) d)
map-Distinct g [] h = tt
map-Distinct g ((k, a) ∷ d) h = (ap (λ l. contains l k) (keys-map g d) ∙ h.0, map-Distinct g d h.1)

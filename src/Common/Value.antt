-- ===== src/Common/Value.antt =====
-- A value of a JSON document or of a token's claims, as far as the program looks at it. What is no
-- text, list or null is kept as the text that `str()` gives it with its truth value; a list carries
-- its own `str()`.
use Prim.Native.String.{String}
use mathlib.Core.Path.{◌≡◌}
use mathlib.Core.Bool.{Bool, true, false, not}
use mathlib.Core.List.{List, [], ◌∷◌, ◌++◌}
use native.Mathlib.Omega.{arith}
use text.Mathlib.Text.{◌==◌}
use text.Mathlib.TextEquality.{eq_iff}
use interview_analytics_agen.Common.Tests.{if◌then◌else◌}
use interview_analytics_agen.Common.Text.{is_empty, words}

mutual
  pub data Value : Type 0 where
    null : Value
    string : String → Value
    scalar : String → Bool → Value
    sequence : String → Values → Value

  pub data Values : Type 0 where
    nil : Values
    cons : Value → Values → Values

-- `bool(value)`
abbrev pub truthy : Value → Bool
truthy null = false
truthy (string s) = not (is_empty s)
truthy (scalar s b) = b
truthy (sequence s nil) = false
truthy (sequence s (cons v vs)) = true

-- `str(value)`
abbrev pub str : Value → String
str null = "None"
str (string s) = s
str (scalar s b) = s
str (sequence s vs) = s

-- `_claim_values` of common/security.py: a set, as a list.
unfoldable mutual
  unfolding words

  pub claim_values : Value → List String
  claim_values null = []
  claim_values (string s) = words s
  claim_values (scalar s b) = s ∷ []
  claim_values (sequence s vs) = claim_values_of vs

  pub claim_values_of : Values → List String
  claim_values_of nil = []
  claim_values_of (cons v vs) = claim_values v ++ claim_values_of vs

-- `value == text`
abbrev pub is_text : Value → String → Bool
is_text (string s) t = s == t
is_text _ t = false

-- A dictionary with text keys.
abbrev pub Dict : Type 0
Dict = List (String × Value)

-- `d.get(key)`; a value of null is not told from a missing key.
unfoldable pub get : Dict → String → Value
get [] k = null
get ((j, v) ∷ d) k = if j == k then v else get d k

-- `d[key] = value`
unfoldable pub put : Dict → String → Value → Dict
put [] k v = (k, v) ∷ []
put ((j, w) ∷ d) k v = if j == k then (j, v) ∷ d else (j, w) ∷ put d k v

pub get-put :
    (d : Dict) (k j : String) (v : Value) → get (put d k v) j ≡ (if k == j then v else get d j)
unfolding get put
get-put [] k j v = ground arith
get-put ((i, w) ∷ d) k j v = ground (arith, get-put d k j v, eq_iff i k, eq_iff i j, eq_iff k j)

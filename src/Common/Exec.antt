-- ===== src/Common/Exec.antt =====
-- Python code that may raise and that changes a state: what was written before a raise stays
-- written, so the state comes back beside the exception too.
use mathlib.Core.Path.{◌≡◌, refl, sym, ap, ◌∙◌}
use mathlib.Core.Logic.{◌⊎◌, inl, inr}
use mathlib.Core.Bool.{Bool, true, false}
use native.Mathlib.Omega.{arith}
use interview_analytics_agen.Common.Tests.{if◌then◌else◌}

pub data Result {ℓ} (E : Type ℓ) (A : Type ℓ) : Type ℓ where
  ok : A → Result E A
  raised : E → Result E A

abbrev pub Exec {ℓ} : Type ℓ → Type ℓ → Type ℓ → Type ℓ
Exec E S A = S → Result E A × S

module _ {ℓ} {E S A B : Type ℓ} where
  abbrev continue : Result E A → (A → Exec E S B) → Exec E S B
  continue (ok a) f s = f a s
  continue (raised e) f s = (raised e, s)

  infixl 5 ◌>>=◌ ◌>>◌
  abbrev pub ◌>>=◌ : Exec E S A → (A → Exec E S B) → Exec E S B
  ◌>>=◌ m f s = let (r, s') = m s in continue r f s'

  abbrev pub ◌>>◌ : Exec E S A → Exec E S B → Exec E S B
  m >> n = m >>= λ _. n

  -- `try: return m` with a handler for any exception.
  abbrev handle_result : Result E A → (A → B) → (E → S → B × S) → S → B × S
  handle_result (ok a) f g s = (f a, s)
  handle_result (raised e) f g s = g e s

  abbrev pub try_or : Exec E S A → (A → B) → (E → S → B × S) → S → B × S
  try_or m f g s = let (r, s') = m s in handle_result r f g s'

module _ {ℓ} {E S A : Type ℓ} where
  abbrev pub pure : A → Exec E S A
  pure a s = (ok a, s)

  abbrev pub raise : E → Exec E S A
  raise e s = (raised e, s)

  abbrev pub lift : Result E A → Exec E S A
  lift r s = (r, s)

  -- An action that cannot raise.
  abbrev pub total : (S → A × S) → Exec E S A
  total m s = let (a, s') = m s in (ok a, s')

pub Result-cases {ℓ} :
    {E A : Type ℓ} (r : Result E A) → ((a : A) × (r ≡ ok a)) ⊎ ((e : E) × (r ≡ raised e))
Result-cases (ok a) = inl (a, refl)
Result-cases (raised e) = inr (e, refl)

pub ok_injective {ℓ} : {E A : Type ℓ} {a b : A} → Path (Result E A) (ok a) (ok b) → a ≡ b
ok_injective e = ground arith

-- A sequence that returned went through its first part.
pub bind_ok {ℓ} :
    {E S A B : Type ℓ} (m : Exec E S A) (f : A → Exec E S B) (s : S) (b : B)
    → ((m >>= f) s).0 ≡ ok b
    → (a : A) × ((m s).0 ≡ ok a) × ((m >>= f) s ≡ f a (m s).1)
bind_ok m f s b h = elim (Result-cases (m s).0) [
  | inl (a, e) ↦ (a, e, rw e refl)
  | inr (x, e) ↦ absurd (ground arith)
]

-- What holds of every value that an action returns.
abbrev pub Ensures {ℓ κ} : {E S A : Type ℓ} → (A → Type κ) → Exec E S A → Type (ℓ ⊔ κ)
Ensures {A = A} P m = (s : _) (a : A) → (m s).0 ≡ ok a → P a

pub bind-Ensures {ℓ κ} :
    {E S A B : Type ℓ} (Q : A → Type κ) (P : B → Type κ) (m : Exec E S A) (f : A → Exec E S B)
    → Ensures Q m
    → ((a : A) → Q a → Ensures P (f a))
    → Ensures P (m >>= f)
bind-Ensures Q P m f hm hf s b e =
    let (a, got, step) = bind_ok m f s b e in
    hf a (hm s a got) (m s).1 b (ap (λ x. x.0) (sym step) ∙ e)

-- An action of which nothing is said.
pub then-Ensures {ℓ κ} :
    {E S A B : Type ℓ} (P : B → Type κ) (m : Exec E S A) (f : A → Exec E S B)
    → ((a : A) → Ensures P (f a))
    → Ensures P (m >>= f)
then-Ensures P m f hf s b e =
    let (a, got, step) = bind_ok m f s b e in hf a (m s).1 b (ap (λ x. x.0) (sym step) ∙ e)

pub pure-Ensures {ℓ κ} :
    {E S A : Type ℓ} (P : A → Type κ) (a : A) → P a → Ensures P (pure {E = E} {S = S} a)
pure-Ensures P a h s b e = rw (← ok_injective e) h

pub if-Ensures {ℓ κ} :
    {E S A : Type ℓ} (P : A → Type κ) (b : Bool) (m n : Exec E S A)
    → Ensures P m
    → Ensures P n
    → Ensures P (if b then m else n)
if-Ensures P true m n hm hn = hm
if-Ensures P false m n hm hn = hn

-- ===== src/Pipeline/Leaves.antt =====
-- What holds of the database after code that returned, and code that does not touch it.
use interview_analytics_agen.Common.{◌⊎◌, inl, inr, ◌≡◌, refl, sym, ap, ◌∙◌, arith}
use interview_analytics_agen.Common.Exec.{Result, ok, raised, ◌>>=◌, bind_ok, Result-cases}
use interview_analytics_agen.Pipeline.Store.{Db}
use interview_analytics_agen.Pipeline.Io.{
  Exc, Io, State, M, call, settled, after_body, with_session,
}

ok-ne-raised : {A : Type 0} {a : A} {x : Exc} → Path (Result Exc A) (ok a) (raised x) → ⊥
ok-ne-raised h = ground arith

module _ {W : Type 0} (io : Io W) where
  -- Where the code returned, the predicate holds of the database that it left.
  abbrev pub Leaves : {A : Type 0} → (Db W → Type 0) → M io A → Type 0
  Leaves {A} P m = (s : State io) (a : A) → (m s).0 ≡ ok a → P (m s).1.db

  -- Whether it returns or raises, the database is what it was.
  abbrev pub Keeps : {A : Type 0} → M io A → Type 0
  Keeps m = (s : State io) → (m s).1.db ≡ s.db

  pub call-Keeps : {A : Type 0} (g : io.World → Result Exc A × io.World) → Keeps (call io g)
  call-Keeps g s = refl

  pub bind-Leaves :
      {A B : Type 0} (P : Db W → Type 0) (m : M io A) (g : A → M io B)
      → ((a : A) → Leaves P (g a))
      → Leaves P (m >>= g)
  bind-Leaves P m g h s b e =
      let (a, _, ran) = bind_ok m g s b e in rw ran (h a (m s).1 b (ap (λ x. x.0) (sym ran) ∙ e))

  pub Leaves-bind :
      {A B : Type 0} (P : Db W → Type 0) (m : M io A) (g : A → M io B)
      → Leaves P m
      → ((a : A) → Keeps (g a))
      → Leaves P (m >>= g)
  Leaves-bind P m g hm hg s b e =
      let (a, got, ran) = bind_ok m g s b e in rw ran (rw (hg a (m s).1) (hm s a got))

  pub bind-Keeps :
      {A B : Type 0} (m : M io A) (g : A → M io B)
      → Keeps m
      → ((a : A) → Keeps (g a))
      → Keeps (m >>= g)
  bind-Keeps m g hm hg s = elim (Result-cases (m s).0) [
    | inl (a, e) ↦ rw e (hg a (m s).1 ∙ hm s)
    | inr (x, e) ↦ rw e (hm s)
  ]

  -- What a session comes to: the body's result and the body's database, or an exception and the
  -- database as it was.
  abbrev pub IsSettled :
      {A : Type 0} → Db W → Result Exc A × State io → Result Exc A × State io → Type 0
  IsSettled {A} old body out =
      ((a : A) × (out.0 ≡ ok a) × (body.0 ≡ ok a) × (out.1.db ≡ body.1.db))
      ⊎ ((x : Exc) × (out.0 ≡ raised x) × (out.1.db ≡ old))

  settled-IsSettled :
      {A : Type 0} (old : Db W) (a : A) (s : State io)
      → IsSettled old (ok a, s) (settled io old a (call io io.commit s))
  settled-IsSettled old a s = elim (Result-cases (io.commit s.world).0) [
    | inl (_, e) ↦ rw e (inl (a, refl, refl, refl))
    | inr (x, e) ↦ rw e (inr (x, refl, refl))
  ]

  after_body-IsSettled :
      {A : Type 0} (old : Db W) (r : Result Exc A × State io)
      → IsSettled old r (after_body io old r)
  after_body-IsSettled old (ok a, s) = settled-IsSettled old a s
  after_body-IsSettled old (raised x, s) = inr (x, refl, refl)

  pub with_session-IsSettled :
      {A : Type 0} (body : M io A) (s : State io) → IsSettled s.db (body s) (with_session io body s)
  unfolding with_session
  with_session-IsSettled body s = after_body-IsSettled s.db (body s)

  pub with_session-Leaves :
      {A : Type 0} (P : Db W → Type 0) (body : M io A)
      → Leaves P body
      → Leaves P (with_session io body)
  with_session-Leaves P body h s a e = elim (with_session-IsSettled body s) [
    | inl (b, _, got, same) ↦ rw same (h s b got)
    | inr (x, got, _) ↦ absurd (ok-ne-raised (sym e ∙ got))
  ]

  -- From a database with P, code that returns leads to one with Q.
  abbrev pub Leads : {A : Type 0} → (Db W → Type 0) → M io A → (Db W → Type 0) → Type 0
  Leads {A} P m Q = (s : State io) (a : A) → P s.db → (m s).0 ≡ ok a → Q (m s).1.db

  pub bind-Leads :
      {A B : Type 0} (P R Q : Db W → Type 0) (m : M io A) (g : A → M io B)
      → Leads P m R
      → ((a : A) → Leads R (g a) Q)
      → Leads P (m >>= g) Q
  bind-Leads P R Q m g hm hg s b p e =
      let (a, got, ran) = bind_ok m g s b e in
      rw ran (hg a (m s).1 b (hm s a p got) (ap (λ x. x.0) (sym ran) ∙ e))

  pub with_session-Leads :
      {A : Type 0} (P Q : Db W → Type 0) (body : M io A)
      → Leads P body Q
      → Leads P (with_session io body) Q
  with_session-Leads P Q body h s a p e = elim (with_session-IsSettled body s) [
    | inl (b, _, got, same) ↦ rw same (h s b p got)
    | inr (x, got, _) ↦ absurd (ok-ne-raised (sym e ∙ got))
  ]

  pub Keeps-Leads : {A : Type 0} (P : Db W → Type 0) (m : M io A) → Keeps m → Leads P m P
  Keeps-Leads P m keeps s a p e = rw (keeps s) p

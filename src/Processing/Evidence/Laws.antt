-- ===== src/Processing/Evidence/Laws.antt =====
-- The evidence of processing/scorecard.py, against all the rows in which a keyword occurs.
use interview_analytics_agen.Common.{
  ℕ, zero, suc, ◌+◌, ◌-◌, ◌≤◌, String, false, List, [], ◌∷◌, ◌++◌, ltb, length, take, rstrip,
  take_prefix, length-take, length-append, append_assoc, append-nil, ◌≡◌, refl, sym, ap, ◌∙◌, arith,
  Bool-cases, inl, inr, ◌↔◌,
}
use interview_analytics_agen.Processing.Transcript.{Regex, text_length, mask_pii, join, split}
use interview_analytics_agen.Processing.Transcript.Laws.{
  length-append_text, length-rstrip, length-take_prefix,
}
use interview_analytics_agen.Processing.Evidence.{
  Row, Evidence, matches_of, norm_keywords, evidence_of, safe_quote, with_row, collect,
  collect_evidence,
}

-- The number of the keywords that occur, row by row.
unfoldable pub all_hits : List String → List Row → ℕ
all_hits keys [] = 0
all_hits keys (row ∷ rows) = length (matches_of keys row) + all_hits keys rows

module _ (re : Regex) where
  collect-all_hits :
      (max_items : ℕ) (keys : List String) (rows : List Row) (evidence : List Evidence) (hits : ℕ)
      → (collect re max_items keys rows evidence hits).1 ≡ hits + all_hits keys rows
  unfolding collect all_hits
  collect-all_hits max_items keys [] evidence hits = omega arith
  collect-all_hits max_items keys (row ∷ rows) evidence hits =
      collect-all_hits max_items keys rows
        (with_row re max_items row (matches_of keys row) evidence)
        (hits + length (matches_of keys row))
      ∙ omega arith

  abbrev pub evidence_if : Row → List String → List Evidence
  evidence_if row [] = []
  evidence_if row (kw ∷ kws) = evidence_of re row (kw ∷ kws) ∷ []

  -- The evidence of every row in which a keyword occurs, with no limit.
  unfoldable pub all_evidence : List String → List Row → List Evidence
  all_evidence keys [] = []
  all_evidence keys (row ∷ rows) = evidence_if row (matches_of keys row) ++ all_evidence keys rows

  take-nil : (n : ℕ) → take {A = Evidence} n [] ≡ []
  take-nil zero = refl
  take-nil (suc n) = refl

  take-cons :
      (n m : ℕ) (x : Evidence) (xs : List Evidence) → n ≡ suc m → take n (x ∷ xs) ≡ x ∷ take m xs
  take-cons n m x xs h = rw h refl

  -- Taking a row in uses one of the places that are left.
  room-with_row :
      (max_items : ℕ) (row : Row) (matches : List String) (evidence more : List Evidence)
      → with_row re max_items row matches evidence
          ++ take (max_items - length (with_row re max_items row matches evidence)) more
        ≡ evidence ++ take (max_items - length evidence) (evidence_if row matches ++ more)
  unfolding with_row
  room-with_row max_items row [] evidence more = refl
  room-with_row max_items row (kw ∷ kws) evidence more =
      let e = evidence_of re row (kw ∷ kws) in
      let left = max_items - length (evidence ++ (e ∷ [])) in
      elim (Bool-cases (ltb (length evidence) max_items)) [
        | inl h ↦ rw h (
            append_assoc evidence (e ∷ []) (take left more)
            ∙ ap (λ l. evidence ++ l)
                (sym (
                  take-cons (max_items - length evidence) left e more
                    (ground (arith, length-append evidence (e ∷ []))))))
        | inr h ↦ rw h (
            ap (λ n. evidence ++ take n more) (full h)
            ∙ ap (λ n. evidence ++ take n (e ∷ more)) (sym (full h)))
      ]
    where
      full : ltb (length evidence) max_items ≡ false → max_items - length evidence ≡ 0
      full h = ground arith

  collect-all_evidence :
      (max_items : ℕ) (keys : List String) (rows : List Row) (evidence : List Evidence) (hits : ℕ)
      → (collect re max_items keys rows evidence hits).0
        ≡ evidence ++ take (max_items - length evidence) (all_evidence keys rows)
  unfolding collect all_evidence
  collect-all_evidence max_items keys [] evidence hits =
      sym (ap (λ l. evidence ++ l) (take-nil (max_items - length evidence)) ∙ append-nil evidence)
  collect-all_evidence max_items keys (row ∷ rows) evidence hits =
      collect-all_evidence max_items keys rows
        (with_row re max_items row (matches_of keys row) evidence)
        (hits + length (matches_of keys row))
      ∙ room-with_row max_items row (matches_of keys row) evidence (all_evidence keys rows)

  -- The loop that collects the evidence gives the first `max_items` of the pieces of evidence that all
  -- the rows give, in the order of the rows, and counts every keyword of every row, also of those
  -- past the limit.
  pub collect_evidence-all :
      (rows : List Row) (keywords : List String) (max_items : ℕ)
      → collect_evidence re rows keywords max_items ≡ (
        take max_items (all_evidence (norm_keywords keywords) rows),
        all_hits (norm_keywords keywords) rows,
      )
  unfolding collect_evidence
  collect_evidence-all rows keywords max_items i =
      let keys = norm_keywords keywords in
      let room : max_items - 0 ≡ max_items = omega arith in
      let start : 0 + all_hits keys rows ≡ all_hits keys rows = omega arith in
      (
        (collect-all_evidence max_items keys rows [] 0
              ∙ ap (λ n. take n (all_evidence keys rows)) room)
            i,
        (collect-all_hits max_items keys rows [] 0 ∙ start) i,
      )

  -- No evidence means no keyword in any row, and the other way round.
  pub evidence_iff_hits :
      (keys : List String) (rows : List Row)
      → (length (all_evidence keys rows) ≡ 0) ↔ (all_hits keys rows ≡ 0)
  unfolding all_evidence all_hits
  evidence_iff_hits keys [] = (λ _. refl, λ _. refl)
  evidence_iff_hits keys (row ∷ rows) =
      by_matches (matches_of keys row) (evidence_iff_hits keys rows)
    where
      by_matches :
          (matches : List String)
          → (length (all_evidence keys rows) ≡ 0) ↔ (all_hits keys rows ≡ 0)
          → (length (evidence_if row matches ++ all_evidence keys rows) ≡ 0)
            ↔ (length matches + all_hits keys rows ≡ 0)
      by_matches [] ih = (λ h. omega (arith, ih.0 h), λ h. ih.1 (omega (arith, h)))
      by_matches (kw ∷ kws) ih = (λ h. absurd (omega (arith, h)), λ h. absurd (omega (arith, h)))

  pub length-collect_evidence :
      (rows : List Row) (keywords : List String) (max_items : ℕ)
      → length (collect_evidence re rows keywords max_items).0 ≤ max_items
  length-collect_evidence rows keywords max_items =
      let all = all_evidence (norm_keywords keywords) rows in
      rw (collect_evidence-all rows keywords max_items) (omega (arith, length-take max_items all))

  pub collect_evidence_iff :
      (rows : List Row) (keywords : List String) (max_items : ℕ)
      → 1 ≤ max_items
      → (length (collect_evidence re rows keywords max_items).0 ≡ 0)
        ↔ ((collect_evidence re rows keywords max_items).1 ≡ 0)
  collect_evidence_iff rows keywords max_items h =
      let keys = norm_keywords keywords in
      let (to, from) = evidence_iff_hits keys rows in
      let shorter = length-take max_items (all_evidence keys rows) in
      rw (collect_evidence-all rows keywords max_items)
        ((λ e. to (omega (arith, h, e, shorter))), (λ e. omega (arith, shorter, from e)))

  -- A quote has at most three characters more than its limit.
  pub length-safe_quote :
      (limit : ℕ) (text : String) → text_length (safe_quote re limit text) ≤ limit + 3
  unfolding safe_quote text_length
  length-safe_quote limit text =
      let cleaned = mask_pii re (join " " (split text)) in
      let cut = take_prefix limit cleaned in
      elim (Bool-cases (ltb limit (text_length cleaned))) [
        | inl e ↦ rw e (
            rw (length-append_text (rstrip cut) "...")
              (omega (arith, length-rstrip cut, length-take_prefix limit cleaned)))
        | inr e ↦ rw e (ground arith)
      ]

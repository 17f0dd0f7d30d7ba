-- ===== src/Processing/Transcript/Laws.antt =====
-- The steps of processing/enhancer.py, and lengths of texts.
use Prim.Native.String.append
use interview_analytics_agen.Common.{
  ℕ, zero, suc, ◌+◌, ◌≤◌, String, true, false, List, [], is_empty, is_space, rstrip, take_prefix,
  ◌&&◌, ◌≡◌, refl, ap, ◌∙◌, arith, eq_iff, Bool-cases, inl, inr,
}
use interview_analytics_agen.Processing.Transcript.{
  Regex, text_length, mask_pii, mask_step, enhance_text, filler_step, space_step, punct_step,
}

pub length-append_text :
    (s t : String) → text_length (Prim.Native.String.◌++◌ s t) ≡ text_length s + text_length t
unfolding text_length
length-append_text String.[] t = ap text_length (append.nil t) ∙ omega arith
length-append_text (String.◌∷◌ c s) t =
    ap text_length (append.cons c s t) ∙ omega (arith, length-append_text s t)

pub length-take_prefix : (n : ℕ) (s : String) → text_length (take_prefix n s) ≤ n
unfolding text_length
length-take_prefix zero s = omega arith
length-take_prefix (suc n) String.[] = omega arith
length-take_prefix (suc n) (String.◌∷◌ c s) = omega (arith, length-take_prefix n s)

pub length-rstrip : (s : String) → text_length (rstrip s) ≤ text_length s
unfolding text_length rstrip
length-rstrip String.[] = omega arith
length-rstrip (String.◌∷◌ c s) = elim (Bool-cases (is_empty (rstrip s) && is_space c)) [
  | inl e ↦ rw e (omega arith)
  | inr e ↦ rw e (omega (arith, length-rstrip s))
]

module _ (re : Regex) where
  mask_step_lem : (p : String × List String) → (mask_step re true p).0 ≡ mask_pii re p.0
  unfolding mask_step
  mask_step_lem (text, applied) = ground (arith, eq_iff (mask_pii re text) text)

  -- With `pii_masking` on, the enhanced text is the masked form of what it would be with it off: the
  -- mask goes over the finished text, and nothing is added after it.
  pub enhance_text-masked :
      (raw : String) → (enhance_text re true raw).0 ≡ mask_pii re (enhance_text re false raw).0
  unfolding enhance_text mask_pii mask_step
  enhance_text-masked raw = elim (Bool-cases (is_empty raw)) [
    | inl e ↦ rw e (rw e refl)
    | inr e ↦ rw e (mask_step_lem (punct_step re (space_step re (filler_step re (raw, [])))))
  ]

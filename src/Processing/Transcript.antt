-- ===== src/Processing/Transcript.antt =====
-- processing/pii.py, enhancer.py and aggregation.py. Python's `re` is a parameter: what a pattern's
-- `sub` makes of a text.
pub mod Laws
use interview_analytics_agen.Common.{
  ℕ, zero, suc, String, Bool, true, false, ◌&&◌, not, List, [], ◌∷◌, ◌++◌, ◌==◌, if◌then◌else◌,
  is_empty, is_space, strip, split_where, nonempty_parts, format, contains,
}
use Prim.Native.Char.{Char}
use interview_analytics_agen.Common.Value.{Value, truthy, str}

-- `re.compile(pattern).sub(replacement, text)`
pub record Regex : Type 0 where
  pub sub : String → String → String → String

-- `len(text)`
unfoldable pub text_length : String → ℕ
text_length String.[] = 0
text_length (String.◌∷◌ c s) = suc (text_length s)

-- `separator.join(parts)`
unfoldable pub join : String → List String → String
join sep [] = ""
join sep (part ∷ []) = part
join sep (part ∷ next ∷ parts) =
    Prim.Native.String.◌++◌ part (Prim.Native.String.◌++◌ sep (join sep (next ∷ parts)))

-- `text.split()`
unfoldable pub split : String → List String
unfolding split_where nonempty_parts
split s = nonempty_parts (split_where is_space s)

-- `re.sub(r"\s+", " ", text)`; the Bool tells that the character before was white space.
squeeze : Bool → String → String
squeeze after String.[] = String.[]
squeeze after (String.◌∷◌ c s) =
    let more = squeeze true s in
    let rest = squeeze false s in
    if is_space c then (if after then more else String.◌∷◌ " " more) else String.◌∷◌ c rest

-- `text[-1:]`
unfoldable pub last_char : String → String
last_char String.[] = ""
last_char (String.◌∷◌ c s) =
    let rest = last_char s in if is_empty s then String.◌∷◌ c String.[] else rest

-- `text[-1] in ".!?"` for a text that is not empty.
unfoldable pub ends_sentence : String → Bool
unfolding last_char contains
ends_sentence s = contains ("." ∷ "!" ∷ "?" ∷ []) (last_char s)

abbrev pub email_pattern : String
email_pattern = "\\b[A-Za-z0-9._%+-]+@[A-Za-z0-9.-]+\\.[A-Za-z]{2,}\\b"

abbrev pub phone_pattern : String
phone_pattern = "\\b(\\+?\\d[\\d\\-\\s]{7,}\\d)\\b"

abbrev pub card_pattern : String
card_pattern = "\\b(?:\\d[ -]*?){13,19}\\b"

-- It is compiled with `re.IGNORECASE`.
abbrev filler_pattern : String
filler_pattern = "(?i)\\b(ээ+|мм+|ну+|типа|как бы|в общем|короче)\\b"

module _ (re : Regex) where
  unfoldable pub mask_pii : String → String
  mask_pii text =
      if is_empty text
      then text
      else re.sub card_pattern "[CARD]"
          (re.sub phone_pattern "[PHONE]" (re.sub email_pattern "[EMAIL]" text))

  -- One step: the text that it makes, and its name when that is another text.
  abbrev apply_step : String → String → String × List String → String × List String
  apply_step name text2 (text, applied) =
      if text2 == text then (text, applied) else (text2, applied ++ (name ∷ []))

  unfoldable pub filler_step : String × List String → String × List String
  filler_step (text, applied) =
      apply_step "filler_cleanup" (re.sub filler_pattern "" text) (text, applied)

  unfoldable pub space_step : String × List String → String × List String
  unfolding squeeze strip
  space_step (text, applied) =
      apply_step "whitespace_normalize" (strip (squeeze false text)) (text, applied)

  unfoldable pub punct_step : String × List String → String × List String
  unfolding ends_sentence
  punct_step (text, applied) =
      if not (is_empty text) && not (ends_sentence text)
      then (Prim.Native.String.◌++◌ text ".", applied ++ ("final_punct" ∷ []))
      else (text, applied)

  unfoldable pub mask_step : Bool → String × List String → String × List String
  mask_step false (text, applied) = (text, applied)
  mask_step true (text, applied) = apply_step "pii_mask" (mask_pii text) (text, applied)

  -- The text, and what was applied to it; the argument is the setting `pii_masking`.
  unfoldable pub enhance_text : Bool → String → String × List String
  enhance_text masking raw_text =
      if is_empty raw_text
      then (raw_text, [])
      else mask_step masking (punct_step (space_step (filler_step (raw_text, []))))

-- storage/models.py. A text that is null is "", and chunks are numbered from 0.
pub record TranscriptSegment : Type 0 where
  pub meeting_id : String
  pub seq : ℕ
  pub speaker : Value
  pub start_ms : Value
  pub end_ms : Value
  pub raw_text : String
  pub enhanced_text : String
  pub confidence : Value

-- The loop that both builders share, over the text that each takes of a segment.
unfoldable pub transcript_lines :
    (TranscriptSegment → String) → List TranscriptSegment → List String
unfolding strip
transcript_lines text_of [] = []
transcript_lines text_of (s ∷ segments) =
    let rest = transcript_lines text_of segments in
    if is_empty (strip (text_of s))
    then rest
    else Prim.Native.String.◌++◌ (if truthy s.speaker then str s.speaker else "UNKNOWN")
        (Prim.Native.String.◌++◌ ": " (strip (text_of s)))
      ∷ rest

unfoldable pub build_raw_transcript : List TranscriptSegment → String
unfolding transcript_lines join strip
build_raw_transcript segments = strip (join "\n" (transcript_lines (λ s. s.raw_text) segments))

unfoldable pub build_enhanced_transcript : List TranscriptSegment → String
unfolding transcript_lines join strip
build_enhanced_transcript segments =
    strip (join "\n" (transcript_lines (λ s. s.enhanced_text) segments))

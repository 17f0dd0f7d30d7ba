-- ===== src/Processing/Evidence.antt =====
-- processing/scorecard.py: the rows of a transcript and the evidence that its keywords give.
pub mod Laws
use interview_analytics_agen.Common.{
  ℕ, zero, suc, ◌+◌, String, Bool, true, false, ◌||◌, Option, none, some, List, [], ◌∷◌, ◌++◌, ltb,
  nat_eq, length, if◌then◌else◌, is_empty, is_space, strip, rstrip, normalize, split_where,
  starts_with, take_prefix,
}
use Prim.Native.Char.{Char, code}
use interview_analytics_agen.Common.Value.{Value, null, string, truthy, str}
use interview_analytics_agen.Processing.Transcript.{Regex, mask_pii, text_length, join, split}

-- A segment of the request: what it may lack is null.
pub record Segment : Type 0 where
  pub seq : ℕ
  pub speaker : Value
  pub start_ms : Value
  pub end_ms : Value
  pub raw_text : Value
  pub enhanced_text : Value

pub record Row : Type 0 where
  pub seq : ℕ
  pub speaker : Value
  pub start_ms : Value
  pub end_ms : Value
  pub text : String

pub record Evidence : Type 0 where
  pub seq : ℕ
  pub speaker : Value
  pub start_ms : Value
  pub end_ms : Value
  pub quote : String
  pub matched_keywords : List String

-- `word in text`
unfoldable pub occurs : String → String → Bool
occurs word String.[] = is_empty word
occurs word (String.◌∷◌ c s) = starts_with (String.◌∷◌ c s) word || occurs word s

-- The characters at which `str.splitlines()` breaks.
abbrev is_line_break : Char → Bool
is_line_break ch =
    let c = code ch in
    nat_eq c 10
    || nat_eq c 11
    || nat_eq c 12
    || nat_eq c 13
    || nat_eq c 28
    || nat_eq c 29
    || nat_eq c 30
    || nat_eq c 133
    || nat_eq c 8232
    || nat_eq c 8233

add_to_first : Char → List String → List String
add_to_first c [] = String.◌∷◌ c String.[] ∷ []
add_to_first c (line ∷ lines) = String.◌∷◌ c line ∷ lines

-- The lines, the last one even if it is empty; the Bool tells that a carriage return was just read,
-- with which a line feed makes one break.
break_lines : Bool → String → List String
unfolding add_to_first
break_lines after String.[] = "" ∷ []
break_lines after (String.◌∷◌ c s) =
    let rest = break_lines false s in
    let rest_after = break_lines true s in
    if after
    then (if nat_eq (code c) 10
        then rest
        else if nat_eq (code c) 13
        then "" ∷ rest_after
        else if is_line_break c
        then "" ∷ rest
        else add_to_first c rest)
    else if nat_eq (code c) 13
    then "" ∷ rest_after
    else if is_line_break c
    then "" ∷ rest
    else add_to_first c rest

drop_last_empty : List String → List String
drop_last_empty [] = []
drop_last_empty (line ∷ []) = if is_empty line then [] else line ∷ []
drop_last_empty (line ∷ next ∷ lines) = line ∷ drop_last_empty (next ∷ lines)

-- `text.splitlines()`
unfoldable pub splitlines : String → List String
unfolding break_lines drop_last_empty
splitlines s = drop_last_empty (break_lines false s)

-- `str(a or b or "").strip()`
abbrev text_of_segment : Segment → String
text_of_segment seg =
    if truthy seg.enhanced_text
    then str seg.enhanced_text
    else if truthy seg.raw_text
    then str seg.raw_text
    else ""

unfoldable pub rows_of_segments : List Segment → List Row
unfolding strip
rows_of_segments [] = []
rows_of_segments (seg ∷ segs) =
    let text = strip (text_of_segment seg) in
    let rest = rows_of_segments segs in
    if is_empty text
    then rest
    else record {
      seq = seg.seq;
      speaker = seg.speaker;
      start_ms = seg.start_ms;
      end_ms = seg.end_ms;
      text = text;
    }
      ∷ rest

unfoldable pub rows_of_lines : ℕ → List String → List Row
unfolding strip
rows_of_lines idx [] = []
rows_of_lines idx (raw ∷ lines) =
    let text = strip raw in
    let rest = rows_of_lines (suc idx) lines in
    if is_empty text
    then rest
    else record { seq = idx; speaker = null; start_ms = null; end_ms = null; text = text } ∷ rest

-- `_segment_rows`; no segments are an empty list.
unfoldable pub segment_rows : String → List Segment → List Row
segment_rows enhanced_transcript segments = elim (rows_of_segments segments) [
  | [] ↦ rows_of_lines 1 (splitlines enhanced_transcript)
  | row ∷ rows ↦ row ∷ rows
]

-- `[kw for kw in key_norm if kw in text_norm]`
unfoldable pub matches_in : String → List String → List String
matches_in text_norm [] = []
matches_in text_norm (kw ∷ kws) =
    let rest = matches_in text_norm kws in if occurs kw text_norm then kw ∷ rest else rest

-- `tuple(_norm(k) for k in keywords if _norm(k))`
unfoldable pub norm_keywords : List String → List String
unfolding normalize
norm_keywords [] = []
norm_keywords (k ∷ ks) =
    let rest = norm_keywords ks in if is_empty (normalize k) then rest else normalize k ∷ rest

-- `matches`, none where the row's text is empty.
unfoldable pub matches_of : List String → Row → List String
unfolding normalize matches_in
matches_of keys row =
    if is_empty (normalize row.text) then [] else matches_in (normalize row.text) keys

module _ (re : Regex) where
  -- `_safe_quote`, whose limit is 220.
  unfoldable pub safe_quote : ℕ → String → String
  unfolding rstrip
  safe_quote limit text =
      let cleaned = mask_pii re (join " " (split text)) in
      if ltb limit (text_length cleaned)
      then Prim.Native.String.◌++◌ (rstrip (take_prefix limit cleaned)) "..."
      else cleaned

  abbrev pub evidence_of : Row → List String → Evidence
  evidence_of row matches = record {
    seq = row.seq;
    speaker = row.speaker;
    start_ms = row.start_ms;
    end_ms = row.end_ms;
    quote = safe_quote 220 row.text;
    matched_keywords = matches;
  }

  -- A row without matches is passed over.
  unfoldable pub with_row : ℕ → Row → List String → List Evidence → List Evidence
  with_row max_items row [] evidence = evidence
  with_row max_items row (kw ∷ kws) evidence =
      if ltb (length evidence) max_items
      then evidence ++ (evidence_of row (kw ∷ kws) ∷ [])
      else evidence

  -- The loop, on `evidence` and `total_hits`.
  unfoldable pub collect : ℕ → List String → List Row → List Evidence → ℕ → List Evidence × ℕ
  unfolding matches_of with_row
  collect max_items keys [] evidence total_hits = (evidence, total_hits)
  collect max_items keys (row ∷ rows) evidence total_hits =
      collect max_items keys rows (with_row max_items row (matches_of keys row) evidence)
        (total_hits + length (matches_of keys row))

  unfoldable pub collect_evidence : List Row → List String → ℕ → List Evidence × ℕ
  unfolding collect norm_keywords
  collect_evidence rows keywords max_items = collect max_items (norm_keywords keywords) rows [] 0

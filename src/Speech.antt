-- ===== src/Speech.antt =====
-- src/interview_analytics_agent/stt/diarization.py: who speaks in a chunk. The decoding of the audio to
-- an embedding and the square root are arguments.
pub mod Laws
mod Checks
use interview_analytics_agen.Common.{
  ℕ, zero, suc, ◌+◌, String, Bool, true, false, ◌||◌, not, Option, none, some, List, [], ◌∷◌, ◌++◌,
  map, length, ltb, nat_eq, is_empty, strip, normalize, starts_with, format, if◌then◌else◌,
}
use Prim.Native.String.{char_at}
use Prim.Native.Nat.{◌%◌}
use interview_analytics_agen.Common.Int.{ℤ, pos, negsuc}
use interview_analytics_agen.Common.Assoc.{lookup_or, lookup, set}
use interview_analytics_agen.Common.Floats.{Floats, lt, nought, of_nat}
use interview_analytics_agen.Processing.Evidence.{occurs}

-- `_SpeakerProto`
pub record SpeakerProto (W : Type 0) : Type 0 where
  pub label : String
  pub centroid : List W
  pub count : ℕ

-- `_STATE`: the speakers of each meeting.
abbrev pub Registry : Type 0 → Type 0
Registry W = List (String × List (SpeakerProto W))

-- `f"Speaker-{chr(ord('A') + n)}"`, up to Z; the code stays below E.
abbrev pub speaker_label : ℕ → String
speaker_label n =
    format ("Speaker-" ∷ String.◌∷◌ (char_at "ABCDEFGHIJKLMNOPQRSTUVWXYZ" n) String.[] ∷ [])

-- `text.endswith("?")`
unfoldable pub ends_with_question : String → Bool
ends_with_question String.[] = false
ends_with_question (String.◌∷◌ c s) =
    let rest = ends_with_question s in if is_empty s then starts_with (String.◌∷◌ c s) "?" else rest

-- What the text and the number of the chunk tell, where the audio tells nothing.
unfoldable pub speaker_of_seq : ℤ → Option String
speaker_of_seq (pos zero) = none
speaker_of_seq (pos (suc n)) = some (if nat_eq (suc n % 2) 1 then "Speaker-A" else "Speaker-B")
speaker_of_seq (negsuc n) = none

unfoldable pub speaker_of_text : String → ℤ → Option String
unfolding normalize occurs ends_with_question speaker_of_seq
speaker_of_text raw_text seq =
    let text = normalize raw_text in
    if starts_with text "интервьюер:" || starts_with text "interviewer:"
    then some "Interviewer"
    else if starts_with text "кандидат:" || starts_with text "candidate:"
    then some "Candidate"
    else if ends_with_question text || (occurs "почему" text || occurs "why" text)
    then some "Interviewer"
    else speaker_of_seq seq

module _ {W : Type 0} where
  -- `protos[k].label`
  unfoldable pub label_at : ℕ → List (SpeakerProto W) → String
  label_at k [] = ""
  label_at zero (p ∷ ps) = p.label
  label_at (suc k) (p ∷ ps) = label_at k ps

module _ {W : Type 0} ⦃f : Floats W⦄ where
  -- `zip` with an operation; it ends with the shorter list.
  unfoldable pub zip_with : (W → W → W) → List W → List W → List W
  zip_with g [] ys = []
  zip_with g (x ∷ xs) [] = []
  zip_with g (x ∷ xs) (y ∷ ys) = g x y ∷ zip_with g xs ys

  unfoldable pub dot : List W → List W → W
  unfolding zip_with
  dot a b = f.sum (zip_with f.mul a b)

  abbrev pub proto_of : String → List W → SpeakerProto W
  proto_of name embedding = record { label = name; centroid = embedding; count = 1 }

  -- The mean of a centroid of `count` chunks and one more.
  unfoldable pub moved : List W → SpeakerProto W → SpeakerProto W
  unfolding zip_with
  moved embedding p = record p {
    centroid =
        zip_with (λ c e. f.div (f.add (f.mul c (of_nat p.count)) e) (of_nat (p.count + 1)))
          p.centroid embedding;
    count = p.count + 1;
  }

  -- `protos[k]`, moved to the embedding.
  unfoldable pub move_at : ℕ → List W → List (SpeakerProto W) → List (SpeakerProto W)
  move_at k embedding [] = []
  move_at zero embedding (p ∷ ps) = moved embedding p ∷ ps
  move_at (suc k) embedding (p ∷ ps) = p ∷ move_at k embedding ps

  -- One more speaker.
  abbrev pub joined : List W → List (SpeakerProto W) → String × List (SpeakerProto W)
  joined embedding protos = (
    speaker_label (length protos),
    protos ++ (proto_of (speaker_label (length protos)) embedding ∷ []),
  )

  -- What follows the search: the index of the best speaker, none for -1, and the similarity.
  unfoldable pub chosen :
      List W → List (SpeakerProto W) → Option ℕ × W → String × List (SpeakerProto W)
  unfolding move_at label_at
  chosen embedding protos (some k, sim) =
      if f.le (f.literal 86 2) sim
      then (label_at k protos, move_at k embedding protos)
      else if ltb (length protos) 4
      then joined embedding protos
      else (label_at k protos, protos)
  chosen embedding protos (none, sim) =
      if ltb (length protos) 4 then joined embedding protos else ("Speaker-A", protos)

module _ {W : Type 0} ⦃f : Floats W⦄ (sqrt : W → W) where
  unfoldable pub norm_l2 : List W → W
  norm_l2 v = sqrt (f.sum (map (λ x. f.mul x x) v))

  unfoldable pub cosine : List W → List W → W
  unfolding norm_l2 dot
  cosine a b =
      let denom = f.mul (norm_l2 a) (norm_l2 b) in
      if f.le denom (f.literal 1 9) then nought else f.div (dot a b) denom

  -- The loop over the speakers from number idx on.
  unfoldable pub best : List W → ℕ → Option ℕ × W → List (SpeakerProto W) → Option ℕ × W
  unfolding cosine
  best embedding idx b [] = b
  best embedding idx b (p ∷ ps) =
      let sim = cosine embedding p.centroid in
      best embedding (suc idx) (if lt b.1 sim then (some idx, sim) else b) ps

  -- `_assign_by_embedding`, on the speakers of the meeting.
  unfoldable pub assign : List W → List (SpeakerProto W) → String × List (SpeakerProto W)
  unfolding best chosen
  assign embedding [] = ("Speaker-A", proto_of "Speaker-A" embedding ∷ [])
  assign embedding (p ∷ ps) =
      chosen embedding (p ∷ ps) (best embedding 0 (none, f.minus_one) (p ∷ ps))

  abbrev pub assign_by_embedding : String → List W → Registry W → Option String × Registry W
  assign_by_embedding meeting_id embedding reg =
      let (name, protos) = assign embedding (lookup_or [] reg meeting_id) in
      (some name, set reg meeting_id protos)

  -- What the audio tells, else the text. `embedding` is what is decoded from the audio.
  abbrev pub by_audio :
      String → ℤ → String → Option (List W) → Registry W → Option String × Registry W
  by_audio raw_text seq meeting_id none reg = (speaker_of_text raw_text seq, reg)
  by_audio raw_text seq meeting_id (some embedding) reg =
      if is_empty meeting_id
      then (speaker_of_text raw_text seq, reg)
      else assign_by_embedding meeting_id embedding reg

  -- `resolve_speaker`; absent texts are "".
  unfoldable pub resolve_speaker :
      String → String → ℤ → String → Option (List W) → Registry W → Option String × Registry W
  unfolding normalize strip speaker_of_text assign lookup set
  resolve_speaker hint raw_text seq meeting_id embedding reg =
      if is_empty (normalize hint)
      then by_audio raw_text seq meeting_id embedding reg
      else (some (strip hint), reg)

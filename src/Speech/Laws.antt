-- ===== src/Speech/Laws.antt =====
-- The speakers that stt/diarization.py keeps of the meetings.
use interview_analytics_agen.Common.{
  ℕ, zero, suc, ◌+◌, ◌<◌, ◌≤◌, String, Bool, true, false, Option, none, some, List, [], ◌∷◌, ◌++◌,
  length, ltb, is_empty, normalize, if◌then◌else◌, ◌==◌, eq_iff, eq_refl, format, ◌≡◌, ◌≢◌, refl,
  ap, ◌∙◌, arith, Bool-cases, inl, inr, length-append,
}
use interview_analytics_agen.Common.Int.{ℤ}
use interview_analytics_agen.Common.Assoc.{lookup_or, set, lookup_or-set}
use interview_analytics_agen.Common.Floats.{Floats, lt}
use interview_analytics_agen.Speech.{
  SpeakerProto, Registry, speaker_label, moved, move_at, label_at, joined, chosen, cosine, best,
  assign, proto_of, by_audio, assign_by_embedding, resolve_speaker,
}

-- The index of the search is -1 or one of the speakers'.
abbrev IsIndexOf : ℕ → Option ℕ → Type 0
IsIndexOf n none = Unit
IsIndexOf n (some k) = k < n

IsIndexOf-if :
    {W : Type 0} (n : ℕ) (c : Bool) (x y : Option ℕ × W)
    → IsIndexOf n x.0
    → IsIndexOf n y.0
    → IsIndexOf n (if c then x else y).0
IsIndexOf-if n true x y hx hy = hx
IsIndexOf-if n false x y hx hy = hy

first_label : "Speaker-A" ≡ speaker_label 0
unfolding format
first_label = refl

module _ {W : Type 0} where
  -- The labels are those of the numbers from n on.
  abbrev pub IsLabelled : ℕ → List (SpeakerProto W) → Type 0
  IsLabelled n [] = Unit
  IsLabelled n (p ∷ ps) = (p.label ≡ speaker_label n) × IsLabelled (suc n) ps

  -- At most four speakers, Speaker-A, Speaker-B and so on.
  abbrev pub AreSpeakers : List (SpeakerProto W) → Type 0
  AreSpeakers ps = IsLabelled 0 ps × (length ps ≤ 4)

  -- The label is that of one of the speakers.
  abbrev pub IsLabelOf : List (SpeakerProto W) → String → Type 0
  IsLabelOf ps label = (k : ℕ) × (k < length ps) × (label ≡ speaker_label k)

  -- Every meeting has its speakers.
  abbrev pub IsSound : Registry W → Type 0
  IsSound reg = (id : String) → AreSpeakers (lookup_or [] reg id)

  -- The answer is a label of one of the meeting's speakers, and another meeting has its old ones.
  abbrev pub IsTold : String → String → Registry W → Option String × Registry W → Type 0
  IsTold id other reg r =
      ((name : String) × (r.0 ≡ some name) × IsLabelOf (lookup_or [] r.1 id) name)
      × (lookup_or [] r.1 other ≡ lookup_or [] reg other)

  label_at-speaker_label :
      (n k : ℕ) (ps : List (SpeakerProto W))
      → IsLabelled n ps
      → k < length ps
      → label_at k ps ≡ speaker_label (n + k)
  unfolding label_at
  label_at-speaker_label n k [] h below = absurd (omega (arith, below))
  label_at-speaker_label n zero (p ∷ ps) h below =
      let same : n ≡ n + 0 = omega arith in h.0 ∙ ap speaker_label same
  label_at-speaker_label n (suc k) (p ∷ ps) h below =
      let rest : k < length ps = omega (arith, below) in
      let same : suc n + k ≡ n + suc k = omega arith in
      label_at-speaker_label (suc n) k ps h.1 rest ∙ ap speaker_label same

  IsLabelled-append :
      (n : ℕ) (ps : List (SpeakerProto W)) (p : SpeakerProto W)
      → IsLabelled n ps
      → p.label ≡ speaker_label (n + length ps)
      → IsLabelled n (ps ++ (p ∷ []))
  IsLabelled-append n [] p h e =
      let same : n + 0 ≡ n = omega arith in (e ∙ ap speaker_label same, tt)
  IsLabelled-append n (q ∷ ps) p h e =
      let same : n + suc (length ps) ≡ suc n + length ps = omega arith in
      (h.0, IsLabelled-append (suc n) ps p h.1 (e ∙ ap speaker_label same))

module _ {W : Type 0} ⦃f : Floats W⦄ where
  IsLabelled-move_at :
      (n k : ℕ) (embedding : List W) (ps : List (SpeakerProto W))
      → IsLabelled n ps
      → IsLabelled n (move_at k embedding ps)
  unfolding move_at moved
  IsLabelled-move_at n k embedding [] h = tt
  IsLabelled-move_at n zero embedding (p ∷ ps) h = h
  IsLabelled-move_at n (suc k) embedding (p ∷ ps) h =
      (h.0, IsLabelled-move_at (suc n) k embedding ps h.1)

  length-move_at :
      (k : ℕ) (embedding : List W) (ps : List (SpeakerProto W))
      → length (move_at k embedding ps) ≡ length ps
  unfolding move_at
  length-move_at k embedding [] = refl
  length-move_at zero embedding (p ∷ ps) = refl
  length-move_at (suc k) embedding (p ∷ ps) = ap suc (length-move_at k embedding ps)

  -- A speaker is told, and the speakers are as they should be.
  abbrev pub IsAssigned : String × List (SpeakerProto W) → Type 0
  IsAssigned r = AreSpeakers r.1 × IsLabelOf r.1 r.0

  joined-IsAssigned :
      (embedding : List W) (ps : List (SpeakerProto W))
      → AreSpeakers ps
      → ltb (length ps) 4 ≡ true
      → IsAssigned (joined embedding ps)
  joined-IsAssigned embedding ps h room =
      let p = proto_of (speaker_label (length ps)) embedding in
      let more = length-append ps (p ∷ []) in
      let same : length ps ≡ 0 + length ps = omega arith in
      (
        (IsLabelled-append 0 ps p h.0 (ap speaker_label same), ground (arith, more, room)),
        (length ps, ground (arith, more), refl),
      )

  chosen-IsAssigned :
      (embedding : List W) (p : SpeakerProto W) (ps : List (SpeakerProto W)) (b : Option ℕ × W)
      → AreSpeakers (p ∷ ps)
      → IsIndexOf (length (p ∷ ps)) b.0
      → IsAssigned (chosen embedding (p ∷ ps) b)
  unfolding chosen
  chosen-IsAssigned embedding p ps (none, sim) h below =
      elim (Bool-cases (ltb (length (p ∷ ps)) 4)) [
        | inl room ↦ rw room (joined-IsAssigned embedding (p ∷ ps) h room)
        | inr full ↦ rw full (h, (0, ground arith, first_label))
      ]
  chosen-IsAssigned embedding p ps (some k, sim) h below =
      let same_number : 0 + k ≡ k = omega arith in
      let label = label_at-speaker_label 0 k (p ∷ ps) h.0 below ∙ ap speaker_label same_number in
      elim (Bool-cases (f.le (f.literal 86 2) sim)) [
        | inl near ↦
            let same = length-move_at k embedding (p ∷ ps) in
            rw near (
              (IsLabelled-move_at 0 k embedding (p ∷ ps) h.0, rw same h.1),
              (k, rw same below, label),
            )
        | inr far ↦ elim (Bool-cases (ltb (length (p ∷ ps)) 4)) [
          | inl room ↦ rw far (rw room (joined-IsAssigned embedding (p ∷ ps) h room))
          | inr full ↦ rw far (rw full (h, (k, below, label)))
        ]
      ]

  module _ (sqrt : W → W) where
    best-IsIndexOf :
        (embedding : List W) (idx : ℕ) (b : Option ℕ × W) (ps : List (SpeakerProto W))
        → IsIndexOf (idx + length ps) b.0
        → IsIndexOf (idx + length ps) (best sqrt embedding idx b ps).0
    unfolding best
    best-IsIndexOf embedding idx b [] h = h
    best-IsIndexOf embedding idx b (p ∷ ps) h =
        let sim = cosine sqrt embedding p.centroid in
        let same : suc idx + length ps ≡ idx + suc (length ps) = omega arith in
        let here : idx < idx + suc (length ps) = omega arith in
        rw (← same) (
          best-IsIndexOf embedding (suc idx) (if lt b.1 sim then (some idx, sim) else b) ps (
            IsIndexOf-if (suc idx + length ps) (lt b.1 sim) (some idx, sim) b (rw same here)
              (rw same h)))

    assign-IsAssigned :
        (embedding : List W) (ps : List (SpeakerProto W))
        → AreSpeakers ps
        → IsAssigned (assign sqrt embedding ps)
    unfolding assign
    assign-IsAssigned embedding [] h =
        (((first_label, tt), ground arith), (0, ground arith, first_label))
    assign-IsAssigned embedding (p ∷ ps) h =
        let found = best sqrt embedding 0 (none, f.minus_one) (p ∷ ps) in
        let same : 0 + length (p ∷ ps) ≡ length (p ∷ ps) = omega arith in
        chosen-IsAssigned embedding p ps found h
          (rw (← same) (best-IsIndexOf embedding 0 (none, f.minus_one) (p ∷ ps) tt))

    set-IsSound :
        (reg : Registry W) (id : String) (ps : List (SpeakerProto W))
        → IsSound reg
        → AreSpeakers ps
        → IsSound (set reg id ps)
    set-IsSound reg id ps h hs other = elim (Bool-cases (id == other)) [
      | inl e ↦ rw (lookup_or-set [] reg id other ps) (rw e hs)
      | inr e ↦ rw (lookup_or-set [] reg id other ps) (rw e (h other))
    ]

    by_audio-IsSound :
        (raw_text : String) (seq : ℤ) (id : String) (embedding : Option (List W)) (reg : Registry W)
        → IsSound reg
        → IsSound (by_audio sqrt raw_text seq id embedding reg).1
    by_audio-IsSound raw_text seq id none reg h = h
    by_audio-IsSound raw_text seq id (some embedding) reg h = elim (Bool-cases (is_empty id)) [
      | inl e ↦ rw e h
      | inr e ↦ rw e (
          set-IsSound reg id (assign sqrt embedding (lookup_or [] reg id)).1 h
            (assign-IsAssigned embedding (lookup_or [] reg id) (h id)).0)
    ]

    -- Where every meeting has at most four speakers with the labels Speaker-A to Speaker-D in this
    -- order, so it has after the speaker of one more chunk was resolved.
    pub resolve_speaker-IsSound :
        (hint raw_text : String) (seq : ℤ) (id : String) (embedding : Option (List W))
        (reg : Registry W)
        → IsSound reg
        → IsSound (resolve_speaker sqrt hint raw_text seq id embedding reg).1
    unfolding resolve_speaker
    resolve_speaker-IsSound hint raw_text seq id embedding reg h =
        elim (Bool-cases (is_empty (normalize hint))) [
          | inl e ↦ rw e (by_audio-IsSound raw_text seq id embedding reg h)
          | inr e ↦ rw e h
        ]

    assigned-IsTold :
        (id other : String) (embedding : List W) (reg : Registry W)
        → IsSound reg
        → other ≢ id
        → IsTold id other reg (assign_by_embedding sqrt id embedding reg)
    assigned-IsTold id other embedding reg h differ =
        let (name, ps) = assign sqrt embedding (lookup_or [] reg id) in
        let told = (assign-IsAssigned embedding (lookup_or [] reg id) (h id)).1 in
        let elsewhere : (id == other) ≡ false = ground (arith, eq_iff id other, differ) in
        (
          (name, refl, rw (lookup_or-set [] reg id id ps) (rw (eq_refl id) told)),
          rw (lookup_or-set [] reg id other ps) (rw elsewhere refl),
        )

    -- Where every meeting has its speakers, the hint is blank, the meeting has a name and the audio an
    -- embedding, the answer is the label of one of the meeting's speakers, and the speakers of another
    -- meeting are what they were.
    pub resolve_speaker-IsTold :
        (hint raw_text : String) (seq : ℤ) (id other : String) (embedding : List W)
        (reg : Registry W)
        → IsSound reg
        → is_empty (normalize hint) ≡ true
        → is_empty id ≡ false
        → other ≢ id
        → IsTold id other reg (resolve_speaker sqrt hint raw_text seq id (some embedding) reg)
    unfolding resolve_speaker
    resolve_speaker-IsTold hint raw_text seq id other embedding reg h blank named differ =
        rw blank (rw named (assigned-IsTold id other embedding reg h differ))

-- ===== src/Speech/Checks.antt =====
-- Tests of the speakers, and instances of their theorems.
use interview_analytics_agen.Common.{
  String, none, some, List, [], ◌∷◌, ◌≡◌, ◌≢◌, refl, arith, normalize, eq_iff,
}
use interview_analytics_agen.Common.Assoc.{lookup}
use interview_analytics_agen.Common.Int.{pos}
use interview_analytics_agen.Processing.Millionths.{Millionths, millionths_floats}
use interview_analytics_agen.Speech.{Registry, speaker_of_text, resolve_speaker}
use interview_analytics_agen.Speech.Laws.{
  IsSound, IsTold, resolve_speaker-IsSound, resolve_speaker-IsTold,
}

abbrev nobody : Registry Millionths
nobody = []

nobody-IsSound : IsSound nobody
unfolding lookup
nobody-IsSound id = (tt, ground arith)

by_text :
    (speaker_of_text " Кандидат: да" (pos 3) ≡ some "Candidate")
    × (speaker_of_text "Так?" (pos 3) ≡ some "Interviewer")
    × (speaker_of_text "да" (pos 4) ≡ some "Speaker-B")
    × (speaker_of_text "да" (pos 0) ≡ none)
unfolding speaker_of_text
by_text = (refl, refl, refl, refl)

abbrev voice : List Millionths
voice = some 1000000 ∷ []

resolve_speaker-IsSound_example :
    IsSound (resolve_speaker {W = Millionths} (λ x. x) "" "да" (pos 1) "m1" (some voice) nobody).1
resolve_speaker-IsSound_example =
    resolve_speaker-IsSound {W = Millionths} (λ x. x) "" "да" (pos 1) "m1" (some voice) nobody
      nobody-IsSound

other_meeting : ◌≢◌ {A = String} "m2" "m1"
other_meeting e = ground (arith, eq_iff "m2" "m1")

resolve_speaker-IsTold_example :
    IsTold "m1" "m2" nobody
      (resolve_speaker {W = Millionths} (λ x. x) "" "да" (pos 1) "m1" (some voice) nobody)
unfolding normalize
resolve_speaker-IsTold_example =
    resolve_speaker-IsTold {W = Millionths} (λ x. x) "" "да" (pos 1) "m1" "m2" voice nobody
      nobody-IsSound refl refl other_meeting

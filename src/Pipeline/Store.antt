-- ===== src/Pipeline/Store.antt =====
-- src/interview_analytics_agent/storage/models.py and repositories.py: meetings and the segments of
-- their transcripts. The column finished_at, which no modelled code reads, is left out.
pub mod Laws
pub mod Seen
use interview_analytics_agen.Common.{
  ℕ, String, Bool, true, false, ◌&&◌, Option, none, some, List, [], ◌∷◌, ◌++◌, ltb, nat_eq, ◌==◌,
  if◌then◌else◌, any,
}
use interview_analytics_agen.Common.Value.{Value, Dict}
use interview_analytics_agen.Common.Sort.{sort}
use interview_analytics_agen.Domain.{PipelineStatus, queued}
use interview_analytics_agen.Processing.Transcript.{TranscriptSegment}
use interview_analytics_agen.Processing.Report.{JudgedReport}

-- domain/enums.py
pub data ConsentStatus : Type 0 where
  unknown granted denied : ConsentStatus

pub record Meeting (W : Type 0) : Type 0 where
  pub id : String
  -- Microseconds since the first day of the year 1.
  pub created_at : ℕ
  pub status : PipelineStatus
  pub consent : ConsentStatus
  pub context : Dict
  pub raw_transcript : String
  pub enhanced_transcript : String
  pub report : Option (JudgedReport W)

pub record Db (W : Type 0) : Type 0 where
  pub meetings : List (Meeting W)
  pub segments : List TranscriptSegment

-- `_default_status` and `_default_consent`: no status has one of the names that are looked for, so
-- the first one is taken; `unknown` is a consent.
abbrev pub default_status : PipelineStatus
default_status = queued

abbrev pub default_consent : ConsentStatus
default_consent = unknown

-- The unique key of a segment.
abbrev pub same_key : TranscriptSegment → TranscriptSegment → Bool
same_key a b = a.meeting_id == b.meeting_id && nat_eq a.seq b.seq

-- `upsert_by_meeting_seq`; all the columns but the key are taken over.
unfoldable pub upsert_segment : TranscriptSegment → List TranscriptSegment → List TranscriptSegment
upsert_segment seg [] = seg ∷ []
upsert_segment seg (row ∷ rows) =
    let rest = upsert_segment seg rows in if same_key row seg then seg ∷ rows else row ∷ rest

unfoldable pub of_meeting : String → List TranscriptSegment → List TranscriptSegment
of_meeting meeting_id [] = []
of_meeting meeting_id (row ∷ rows) =
    let rest = of_meeting meeting_id rows in
    if row.meeting_id == meeting_id then row ∷ rest else rest

-- `list_by_meeting`
unfoldable pub list_by_meeting : String → List TranscriptSegment → List TranscriptSegment
unfolding of_meeting sort
list_by_meeting meeting_id rows = sort (λ a b. ltb a.seq b.seq) (of_meeting meeting_id rows)

-- What a query finds of the rows while the session goes on: `autoflush` is off (storage/db.py), so
-- rows that the session added, whose keys were not there when it began, come with its commit only.
unfoldable pub visible : List TranscriptSegment → List TranscriptSegment → List TranscriptSegment
visible at_start [] = []
visible at_start (row ∷ rows) =
    let rest = visible at_start rows in if any (same_key row) at_start then row ∷ rest else rest

module _ {W : Type 0} where
  -- `MeetingRepository.get`
  unfoldable pub get_meeting : String → List (Meeting W) → Option (Meeting W)
  get_meeting meeting_id [] = none
  get_meeting meeting_id (m ∷ ms) =
      let rest = get_meeting meeting_id ms in if m.id == meeting_id then some m else rest

  -- `MeetingRepository.save`, of a meeting that is there or a new one.
  unfoldable pub save_meeting : Meeting W → List (Meeting W) → List (Meeting W)
  save_meeting m [] = m ∷ []
  save_meeting m (m' ∷ ms) =
      let rest = save_meeting m ms in if m'.id == m.id then m ∷ ms else m' ∷ rest

  -- The default of `created_at` is the clock of the session.
  abbrev pub new_meeting : ℕ → String → Dict → Meeting W
  new_meeting created_at meeting_id context = record {
    id = meeting_id;
    created_at = created_at;
    status = default_status;
    consent = default_consent;
    context = context;
    raw_transcript = "";
    enhanced_transcript = "";
    report = none;
  }

  -- `MeetingRepository.ensure`: the meeting and the meetings with it.
  abbrev found_or_new :
      ℕ → String → Dict → List (Meeting W) → Option (Meeting W) → Meeting W × List (Meeting W)
  found_or_new time meeting_id context ms (some m) = (m, ms)
  found_or_new time meeting_id context ms none =
      let m = new_meeting time meeting_id context in (m, save_meeting m ms)

  unfoldable pub ensure_meeting :
      ℕ → String → Dict → List (Meeting W) → Meeting W × List (Meeting W)
  unfolding get_meeting save_meeting
  ensure_meeting time meeting_id context ms =
      found_or_new time meeting_id context ms (get_meeting meeting_id ms)

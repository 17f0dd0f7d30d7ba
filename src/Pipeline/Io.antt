-- ===== src/Pipeline/Io.antt =====
-- What lies outside of the pipeline, and the state that its code changes: the file store, the
-- speech recognition, Redis, the language model, the files of the reports and the mail are
-- parameters, which answer or raise and move their world on. The database is the program's own.
use interview_analytics_agen.Common.{ℕ, String, Bool, Option, List}
use interview_analytics_agen.Common.Exec.{Result, ok, raised, Exec}
use interview_analytics_agen.Common.Int.{ℤ}
use interview_analytics_agen.Common.Value.{Value, Dict}
use interview_analytics_agen.Processing.Transcript.{Regex}
use interview_analytics_agen.Processing.Rubric.{Loaded}
use interview_analytics_agen.Processing.Decision.{Thresholds}
use interview_analytics_agen.Processing.Report.{Provider, Answer, JudgedReport}
use interview_analytics_agen.Pipeline.Store.{Db}

pub data Exc : Type 0 where
  value_error : String → Exc
  report_failed : Exc
  other_error : String → Exc

-- `STTResult` of stt/base.py; a text of null is "".
pub record SttResult : Type 0 where
  pub text : String
  pub speaker : Value
  pub confidence : Value

-- The event `transcript.update`; the quality and the steps applied are none where it has none.
pub record Update (W : Type 0) : Type 0 where
  pub meeting_id : String
  pub seq : ℕ
  pub speaker : Value
  pub raw_text : String
  pub enhanced_text : String
  pub confidence : Value
  pub quality : Option W
  pub applied : Option (List String)

-- The payload of a task, without what tracing adds.
pub data Task : Type 0 where
  meeting_task : String → String → Task
  entity_task : String → String → String → String → Task

pub record Mail : Type 0 where
  pub meeting_id : String
  pub recipients : Value
  pub html_body : String
  pub text_body : String
  pub attachments : List (String × String)

-- common/config.py
pub record PipelineSettings (W : Type 0) : Type 0 where
  pub pii_masking : Bool
  pub llm_enabled : Bool
  pub openai_api_key : String
  pub delivery_manual_mode_only : Bool
  pub delivery_provider : String
  pub thresholds : Thresholds W
  pub retention_days_text : ℤ

pub record Io (W : Type 0) : Type 1 where
  pub World : Type 0
  pub Bytes : Type 0
  -- `datetime.utcnow()`, in microseconds since the first day of the year 1.
  pub utcnow : World → ℕ
  pub regex : Regex
  pub get_bytes : String → World → Result Exc Bytes × World
  pub transcribe : Bytes → World → Result Exc SttResult × World
  pub resolve_speaker : SttResult → ℕ → String → Bytes → World → Result Exc Value × World
  pub overrides : World → Loaded
  pub complete : World → Provider → Dict → String → Option Answer
  pub new_event_id : String → World → String × World
  pub publish : String → Update W → World → Result Exc (Unit {0}) × World
  pub enqueue : String → Task → World → Result Exc (Unit {0}) × World
  pub write_report_artifacts :
      String → String → String → JudgedReport W → World → Result Exc (Unit {0}) × World
  -- The two templates, on the report and on whether there are a raw and an enhanced transcript.
  pub render :
      String → Option (JudgedReport W) → Bool → Bool → World → Result Exc (String × String) × World
  pub send_report : Mail → World → Result Exc (Unit {0}) × World
  pub commit : World → Result Exc (Unit {0}) × World

module _ {W : Type 0} (io : Io W) where
  pub record State : Type 0 where
    pub world : io.World
    pub db : Db W

  abbrev pub M : Type 0 → Type 0
  M = Exec Exc State

  abbrev pub call : {A : Type 0} → (io.World → Result Exc A × io.World) → M A
  call g s = let (r, w) = g s.world in (r, record s { world = w })

  abbrev pub read_db : M (Db W)
  read_db s = (ok s.db, s)

  abbrev pub change_db : (Db W → Db W) → M (Unit {0})
  change_db g s = (ok tt, record s { db = g s.db })

  -- `db_session`: the body, then the commit; where either raises, the database is what it was.
  abbrev pub settled :
      {A : Type 0} → Db W → A → Result Exc (Unit {0}) × State → Result Exc A × State
  settled old a (ok _, s) = (ok a, s)
  settled old a (raised e, s) = (raised e, record s { db = old })

  abbrev pub after_body : {A : Type 0} → Db W → Result Exc A × State → Result Exc A × State
  after_body old (ok a, s) = settled old a (call io.commit s)
  after_body old (raised e, s) = (raised e, record s { db = old })

  unfoldable pub with_session : {A : Type 0} → M A → M A
  with_session body s = after_body s.db (body s)

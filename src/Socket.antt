-- ===== src/Socket.antt =====
-- apps/api_gateway/ws.py: `_websocket_endpoint_impl`, the messages of a connection that was accepted.
-- Security/Gate has the authorisation before it, Ingest/Chunks what it hands a chunk to. Logs and
-- tracing are left out, and of the forwarding of updates there is only which meeting it is for.
pub mod Kept
pub mod Access
pub mod Forgotten
mod Checks
use interview_analytics_agen.Common.{
  String, Bool, true, false, ◌&&◌, not, Option, none, some, List, [], ◌∷◌, ◌++◌, ◌==◌, is_empty,
  normalize, if◌then◌else◌,
}
use interview_analytics_agen.Common.Exec.{Result, ok, raised, Exec, ◌>>=◌, ◌>>◌, pure, raise}
use interview_analytics_agen.Common.Value.{Value, string, Dict}
use interview_analytics_agen.Common.Int.{ℤ}
use interview_analytics_agen.Settings.{Settings}
use interview_analytics_agen.Security.Auth.{AuthContext}
use interview_analytics_agen.Security.Tenancy.{Forbidden, enforce_meeting_access}
use interview_analytics_agen.Ingest.Blob.{Exc}
use interview_analytics_agen.Ingest.Chunks.{Io, Process, ChunkIngestResult, is_inline, ingest_bytes}

-- An event of a client. A missing text is ""; `seq` is what `int(event.get("seq", 0))` gives, none
-- where it raises; a missing content is none.
pub record Event : Type 0 where
  pub event_type : String
  pub meeting_id : String
  pub seq : Option ℤ
  pub content_b64 : Option Value
  pub idempotency_key : String

-- A text that the connection receives: no JSON, JSON that is no object, or an event.
pub data Frame : Type 0 where
  no_json no_object : Frame
  event : Event → Frame

pub data Denial : Type 0 where
  not_found : Denial
  denied : Forbidden → Denial

pub data ErrorCode : Type 0 where
  bad_json bad_event no_meeting_id bad_audio storage_error : ErrorCode
  forbidden : Denial → ErrorCode

pub data Reply (Update : Type 0) : Type 0 where
  error : ErrorCode → Reply Update
  update : Update → Reply Update
  closed : Denial → Reply Update

-- What ends a connection: an exception of Python's own, or one of a call.
pub data Fatal : Type 0 where
  not_an_object not_an_int : Fatal
  call_failed : Exc → Fatal

-- The ingest with its outside, the meetings of the database, and the sending to the client.
pub record Outside : Type 1 where
  pub ingest : Io
  pub find_meeting : String → ingest.World → Result Exc (Option Dict) × ingest.World
  pub send : Reply ingest.Update → ingest.World → Result Exc (Unit {0}) × ingest.World

module _ (out : Outside) where
  -- The process, `meeting_checked`, the meeting that `forward_task` is for, and, for the theorems, the
  -- meetings of the chunks that were handed to the ingest.
  pub record Connection : Type 0 where
    pub process : Process out.ingest
    pub meeting_checked : Bool
    pub forwarding : Option String
    pub taken : List String

  abbrev pub M : Type 0 → Type 0
  M = Exec Fatal Connection

  abbrev pub fatal_of : {A : Type 0} → Result Exc A → Result Fatal A
  fatal_of (ok a) = ok a
  fatal_of (raised e) = raised (call_failed e)

  abbrev pub with_world : out.ingest.World → Connection → Connection
  with_world w c = record c { process = record c.process { world = w } }

  abbrev pub call : {A : Type 0} → (out.ingest.World → Result Exc A × out.ingest.World) → M A
  call g c = let (r, w) = g c.process.world in (fatal_of r, with_world w c)

module _ (out : Outside) (cfg : Settings) where
  abbrev pub send_text : Reply out.ingest.Update → M out (Unit {0})
  send_text reply = call out (out.send reply)

  -- An error that the loop goes on after.
  abbrev pub complain : ErrorCode → M out Bool
  complain code = send_text (error code) >> pure true

  abbrev pub send_updates : List out.ingest.Update → M out Bool
  send_updates [] = pure true
  send_updates (u ∷ us) = send_text (update u) >> send_updates us

  -- What the client is told of a chunk; a duplicate is passed over.
  abbrev pub answer : Result Exc (ChunkIngestResult out.ingest) → M out Bool
  answer (raised e) = complain storage_error
  answer (ok result) =
      if result.is_duplicate
      then pure true
      else if is_inline cfg
      then send_updates result.inline_updates
      else pure true

  -- The ingest of a chunk, whose exceptions are caught.
  unfoldable pub take_chunk : String → ℤ → out.ingest.Bytes → String → M out Bool
  unfolding ingest_bytes is_inline
  take_chunk meeting_id seq audio_bytes idem_key c =
      let (r, p) =
        ingest_bytes out.ingest cfg meeting_id seq audio_bytes idem_key "audio_chunk_ws" "ws"
          c.process in
      answer r (record c { process = p; taken = c.taken ++ (meeting_id ∷ []) })

  -- `b64_decode(event.get("content_b64", ""))`: what is no text raises.
  abbrev pub decode_content : Option Value → Option out.ingest.Bytes
  decode_content none = out.ingest.b64_decode ""
  decode_content (some (string t)) = out.ingest.b64_decode t
  decode_content (some other) = none

  abbrev pub with_audio : Event → ℤ → Option out.ingest.Bytes → M out Bool
  with_audio e seq none = complain bad_audio
  with_audio e seq (some audio_bytes) = take_chunk e.meeting_id seq audio_bytes e.idempotency_key

  abbrev pub with_seq : Event → Option ℤ → M out Bool
  with_seq e none = raise not_an_int
  with_seq e (some seq) = with_audio e seq (decode_content e.content_b64)

  -- The forwarding is started once, for the meeting of that event.
  abbrev pub forwarding_after : Option String → String → Option String
  forwarding_after (some id) meeting_id = some id
  forwarding_after none meeting_id = if is_inline cfg then none else some meeting_id

  -- What follows the check of the meeting.
  unfoldable pub take_event : Event → M out Bool
  unfolding take_chunk is_inline
  take_event e c =
      with_seq e e.seq (record c { forwarding = forwarding_after c.forwarding e.meeting_id })

  -- What follows a turn of the loop.
  abbrev pub go_on :
      Result Fatal Bool → (Connection out → Connection out) → Connection out → Connection out
  go_on (ok true) rest c = rest c
  go_on (ok false) rest c = c
  go_on (raised e) rest c = c

  abbrev pub denial_of : Result Forbidden (Unit {0}) → Option Denial
  denial_of (ok _) = none
  denial_of (raised e) = some (denied e)

  module _ (ctx : AuthContext) (service_only : Bool) where
    -- `_check_meeting`
    abbrev pub check_meeting : Option Dict → Option Denial
    check_meeting none = some not_found
    check_meeting (some context) = denial_of (enforce_meeting_access cfg ctx context)

    abbrev pub take_checked : Event → M out Bool
    take_checked e c = take_event e (record c { meeting_checked = true })

    abbrev pub after_check : Event → Option Denial → M out Bool
    after_check e (some d) = send_text (error (forbidden d)) >> (send_text (closed d) >> pure false)
    after_check e none = take_checked e

    unfoldable pub check_and_take : Event → M out Bool
    unfolding take_event enforce_meeting_access
    check_and_take e = do
      found ← call out (out.find_meeting e.meeting_id)
      after_check e (check_meeting found)

    -- `not meeting_checked and tenant_enforcement_enabled() and not service_only`
    abbrev pub needs_check : Connection out → Bool
    needs_check c = not c.meeting_checked && (cfg.tenant_enforcement_enabled && not service_only)

    unfoldable pub handle_chunk : Event → M out Bool
    unfolding check_and_take take_event
    handle_chunk e c = if needs_check c then check_and_take e c else take_event e c

    -- One turn of the loop; false is its end.
    unfoldable pub handle_frame : Frame → M out Bool
    unfolding handle_chunk
    handle_frame no_json = complain bad_json
    handle_frame no_object = raise not_an_object
    handle_frame (event e) =
        if not (e.event_type == "audio.chunk")
        then complain bad_event
        else if is_empty e.meeting_id
        then complain no_meeting_id
        else handle_chunk e

    -- The loop over the frames that come before the client leaves. An exception ends it.
    unfoldable pub serve_frames : List Frame → Connection out → Connection out
    unfolding handle_frame
    serve_frames [] c = c
    serve_frames (frame ∷ frames) c =
        let (r, c') = handle_frame frame c in go_on r (serve_frames frames) c'

-- ===== src/Ingest/Chunks.antt =====
-- `ingest_audio_chunk_bytes` and `ingest_audio_chunk_b64` of
-- src/interview_analytics_agent/services/chunk_ingest_service.py, `check_and_set` of
-- queue/idempotency.py, `put_bytes` of storage/blob.py and `enqueue_stt` of queue/dispatcher.py.
-- Redis, the file system, base64 and the inline pipeline are parameters.
pub mod Laws
pub mod TakenIn
use interview_analytics_agen.Common.{
  ℕ, suc, String, Bool, true, false, not, Option, none, some, List, [], ◌∷◌, ◌==◌, normalize,
  is_empty, decimal, format, if◌then◌else◌,
}
use interview_analytics_agen.Common.Exec.{Result, ok, raised, Exec, ◌>>=◌, ◌>>◌, pure, raise, lift}
use interview_analytics_agen.Common.Int.{ℤ, pos, negsuc}
use interview_analytics_agen.Settings.{Settings}
use interview_analytics_agen.Ingest.Idempotency.{Keys, local_check, key_of}
use interview_analytics_agen.Ingest.Blob.{Exc, decode_failed, key_to_path}

-- The task for the queue `q:stt`; what tracing adds is left out.
pub record SttTask : Type 0 where
  pub schema_version : String
  pub event_id : String
  pub meeting_id : String
  pub chunk_seq : ℤ
  pub blob_key : String
  pub timestamp : ℕ

abbrev pub stt_task : String → String → ℤ → String → ℕ → SttTask
stt_task event_id meeting_id chunk_seq blob_key t = record {
  schema_version = "v1";
  event_id = event_id;
  meeting_id = meeting_id;
  chunk_seq = chunk_seq;
  blob_key = blob_key;
  timestamp = t;
}

pub record Io : Type 1 where
  pub World : Type 0
  pub Bytes : Type 0
  pub Update : Type 0
  pub chunks_dir_env : String
  pub b64_decode : String → Option Bytes
  pub monotonic : World → ℕ × World
  pub utc_now : World → ℕ × World
  pub token : String → World → String × World
  pub set_nx : String → ℤ → World → Result Exc Bool × World
  pub write_file : String × String → Bytes → World → Result Exc (Unit {0}) × World
  pub enqueue : String → SttTask → World → Result Exc (Unit {0}) × World
  pub process_stored : String → ℤ → String → World → Result Exc (Unit {0}) × World
  pub process_inline : String → ℤ → Bytes → String → World → Result Exc (List Update) × World

-- `str(n)`
unfoldable pub int_text : ℤ → String
unfolding decimal format
int_text (pos n) = decimal n
int_text (negsuc n) = format ("-" ∷ decimal (suc n) ∷ [])

unfoldable pub is_inline : Settings → Bool
unfolding normalize
is_inline s = normalize s.queue_mode == "inline"

-- `f"meetings/{meeting_id}/chunks/{seq}.bin"`
unfoldable pub blob_key_of : String → ℤ → String
unfolding int_text format
blob_key_of meeting_id seq =
    format ("meetings/" ∷ meeting_id ∷ "/chunks/" ∷ int_text seq ∷ ".bin" ∷ [])

abbrev pub default_ttl_sec : ℤ
default_ttl_sec = pos 86400

module _ (io : Io) where
  pub record Process : Type 0 where
    pub world : io.World
    pub keys : Keys

  abbrev pub M : Type 0 → Type 0
  M = Exec Exc Process

  abbrev pub call : {A : Type 0} → (io.World → Result Exc A × io.World) → M A
  call f s = let (r, w) = f s.world in (r, record s { world = w })

  pub record ChunkIngestResult : Type 0 where
    pub accepted : Bool
    pub meeting_id : String
    pub seq : ℤ
    pub idempotency_key : String
    pub blob_key : String
    pub is_duplicate : Bool
    pub inline_updates : List io.Update

module _ (io : Io) (cfg : Settings) where
  check_local : String → M io Bool
  unfolding local_check
  check_local key s =
      let (now, w) = io.monotonic s.world in
      let (fresh, keys) = local_check now key default_ttl_sec s.keys in
      (ok fresh, record { world = w; keys = keys })

  -- `check_and_set`, with the default time to live.
  unfoldable pub check_and_set : String → String → String → M io Bool
  unfolding check_local key_of is_inline
  check_and_set scope meeting_id idem_key =
      if is_inline cfg
      then check_local (key_of scope meeting_id idem_key)
      else call io (io.set_nx (key_of scope meeting_id idem_key) default_ttl_sec)

  -- `put_bytes`: the temporary file and its renaming are one operation of the file system.
  unfoldable pub put_bytes : String → io.Bytes → M io (Unit {0})
  unfolding key_to_path
  put_bytes key content = do
    place ← lift (key_to_path cfg io.chunks_dir_env key)
    call io (io.write_file place content)

  -- The task goes to its queue; in the inline mode the stored chunk is processed at once.
  pub send_stt : SttTask → M io (Unit {0})
  unfolding is_inline
  send_stt task =
      if is_inline cfg
      then call io (io.process_stored task.meeting_id task.chunk_seq task.blob_key)
      else call io (io.enqueue "q:stt" task)

  -- `enqueue_stt`, which returns the identifier of its event.
  unfoldable pub enqueue_stt : String → ℤ → String → M io String
  unfolding send_stt
  enqueue_stt meeting_id chunk_seq blob_key s =
      let (event_id, w₁) = io.token "stt" s.world in
      let (t, w₂) = io.utc_now w₁ in
      (send_stt (stt_task event_id meeting_id chunk_seq blob_key t) >> pure event_id)
        (record s { world = w₂ })

  abbrev pub result_of : String → ℤ → String → Bool → List io.Update → ChunkIngestResult io
  result_of meeting_id seq idem_key is_duplicate updates = record {
    accepted = true;
    meeting_id = meeting_id;
    seq = seq;
    idempotency_key = idem_key;
    blob_key = blob_key_of meeting_id seq;
    is_duplicate = is_duplicate;
    inline_updates = updates;
  }

  -- What happens to a chunk that is stored.
  pub pass_on : String → ℤ → io.Bytes → M io (List io.Update)
  unfolding is_inline enqueue_stt blob_key_of
  pass_on meeting_id seq audio_bytes =
      if is_inline cfg
      then call io (io.process_inline meeting_id seq audio_bytes (blob_key_of meeting_id seq))
      else enqueue_stt meeting_id seq (blob_key_of meeting_id seq) >> pure []

  pub take_in : String → ℤ → io.Bytes → String → Bool → M io (ChunkIngestResult io)
  unfolding pass_on put_bytes blob_key_of
  take_in meeting_id seq audio_bytes idem_key false =
      pure (result_of meeting_id seq idem_key true [])
  take_in meeting_id seq audio_bytes idem_key true = do
    put_bytes (blob_key_of meeting_id seq) audio_bytes
    updates ← pass_on meeting_id seq audio_bytes
    pure (result_of meeting_id seq idem_key false updates)

  -- `idempotency_key or new_idempotency_key(prefix)`; an absent key is "".
  given_key : String → String → Process io → String × Process io
  given_key idempotency_key idempotency_prefix s =
      let (fresh, w) = io.token idempotency_prefix s.world in
      if is_empty idempotency_key then (fresh, record s { world = w }) else (idempotency_key, s)

  -- `ingest_audio_chunk_bytes`
  unfoldable pub ingest_bytes :
      String → ℤ → io.Bytes → String → String → String → M io (ChunkIngestResult io)
  unfolding take_in check_and_set given_key
  ingest_bytes meeting_id seq audio_bytes idempotency_key scope prefix s =
      let (idem_key, s') = given_key idempotency_key prefix s in
      (do
        fresh ← check_and_set scope meeting_id idem_key
        take_in meeting_id seq audio_bytes idem_key fresh)
        s'

  ingest_decoded :
      String → ℤ → Option io.Bytes → String → String → String → M io (ChunkIngestResult io)
  unfolding ingest_bytes
  ingest_decoded meeting_id seq none idempotency_key scope prefix = raise decode_failed
  ingest_decoded meeting_id seq (some audio_bytes) idempotency_key scope prefix =
      ingest_bytes meeting_id seq audio_bytes idempotency_key scope prefix

  -- `ingest_audio_chunk_b64`
  unfoldable pub ingest_b64 :
      String → ℤ → String → String → String → String → M io (ChunkIngestResult io)
  unfolding ingest_decoded
  ingest_b64 meeting_id seq content_b64 = ingest_decoded meeting_id seq (io.b64_decode content_b64)

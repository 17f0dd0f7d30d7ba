-- ===== src/Socket/Kept.antt =====
-- What the code of apps/api_gateway/ws.py leaves as it is in a connection.
use interview_analytics_agen.Common.{
  String, Bool, true, Option, none, some, List, [], ◌∷◌, ◌++◌, ◌≡◌, refl, ap, ◌∙◌, Bool-cases, inl,
  inr,
}
use interview_analytics_agen.Common.Exec.{Result, ok, raised, ◌>>=◌, pure, Result-cases}
use interview_analytics_agen.Common.Int.{ℤ}
use interview_analytics_agen.Settings.{Settings}
use interview_analytics_agen.Ingest.Blob.{Exc}
use interview_analytics_agen.Ingest.Chunks.{ChunkIngestResult, is_inline, ingest_bytes}
use interview_analytics_agen.Socket.{
  Event, Reply, ErrorCode, Outside, Connection, M, send_text, complain, send_updates, answer,
  take_chunk, decode_content, with_audio, with_seq, take_event,
}

module _ (out : Outside) where
  -- What the code changes of a connection does not show in g.
  abbrev pub Keeps : {A B : Type 0} → (Connection out → B) → M out A → Type 0
  Keeps g m = (c : Connection out) → g (m c).1 ≡ g c

  pub bind-Keeps :
      {A B D : Type 0} (g : Connection out → D) (m : M out A) (n : A → M out B)
      → Keeps g m
      → ((a : A) → Keeps g (n a))
      → Keeps g (m >>= n)
  bind-Keeps g m n hm hn c = elim (Result-cases (m c).0) [
    | inl (a, e) ↦ rw e (hn a (m c).1 ∙ hm c)
    | inr (x, e) ↦ rw e (hm c)
  ]

  -- The check that was made, and the chunks that were taken.
  abbrev pub progress : Connection out → Bool × List String
  progress c = (c.meeting_checked, c.taken)

module _ (out : Outside) (cfg : Settings) where
  pub complain-Keeps : (code : ErrorCode) → Keeps out (progress out) (complain out cfg code)
  complain-Keeps code =
      bind-Keeps out (progress out) (send_text out cfg (Reply.error code)) (λ _. pure true)
        (λ c. refl) (λ _ c. refl)

  send_updates-Keeps :
      (us : List out.ingest.Update) → Keeps out (progress out) (send_updates out cfg us)
  send_updates-Keeps [] = λ c. refl
  send_updates-Keeps (u ∷ us) =
      bind-Keeps out (progress out) (send_text out cfg (Reply.update u))
        (λ _. send_updates out cfg us) (λ c. refl) (λ _. send_updates-Keeps us)

  answer-Keeps :
      (r : Result Exc (ChunkIngestResult out.ingest)) → Keeps out (progress out) (answer out cfg r)
  answer-Keeps (raised e) c = complain-Keeps ErrorCode.storage_error c
  answer-Keeps (ok result) c = elim (Bool-cases result.is_duplicate) [
    | inl e ↦ rw e refl
    | inr e ↦ elim (Bool-cases (is_inline cfg)) [
      | inl i ↦ rw e (rw i (send_updates-Keeps result.inline_updates c))
      | inr i ↦ rw e (rw i refl)
    ]
  ]

  abbrev pub checked : Connection out → Bool
  checked c = c.meeting_checked

  take_chunk-Keeps :
      (id : String) (seq : ℤ) (audio : out.ingest.Bytes) (key : String)
      → Keeps out checked (take_chunk out cfg id seq audio key)
  unfolding take_chunk
  take_chunk-Keeps id seq audio key c =
      let run = ingest_bytes out.ingest cfg id seq audio key "audio_chunk_ws" "ws" c.process in
      ap (λ p. p.0)
        (answer-Keeps run.0 (record c { process = run.1; taken = c.taken ++ (id ∷ []) }))

  with_audio-Keeps :
      (e : Event) (seq : ℤ) (audio : Option out.ingest.Bytes)
      → Keeps out checked (with_audio out cfg e seq audio)
  with_audio-Keeps e seq none c = ap (λ p. p.0) (complain-Keeps ErrorCode.bad_audio c)
  with_audio-Keeps e seq (some audio) c =
      take_chunk-Keeps e.meeting_id seq audio e.idempotency_key c

  with_seq-Keeps : (e : Event) (seq : Option ℤ) → Keeps out checked (with_seq out cfg e seq)
  with_seq-Keeps e none c = refl
  with_seq-Keeps e (some seq) c = with_audio-Keeps e seq (decode_content out cfg e.content_b64) c

  pub take_event-Keeps : (e : Event) → Keeps out checked (take_event out cfg e)
  unfolding take_event
  take_event-Keeps e c = with_seq-Keeps e e.seq _

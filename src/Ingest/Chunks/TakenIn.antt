-- ===== src/Ingest/Chunks/TakenIn.antt =====
-- What an ingest that answers with no duplicate has done.
use interview_analytics_agen.Common.{
  ◌≡◌, ◌≢◌, ◌⊎◌, inl, inr, sym, ◌∙◌, ap, String, Bool, true, false, List, [], Bool-cases, arith,
}
use interview_analytics_agen.Common.Exec.{ok, bind_ok, ok_injective, ◌>>=◌, pure, lift}
use interview_analytics_agen.Common.Int.{ℤ}
use interview_analytics_agen.Settings.{Settings}
use interview_analytics_agen.Ingest.Blob.{Exc, key_to_path}
use interview_analytics_agen.Ingest.Chunks.{
  Io, is_inline, stt_task, enqueue_stt, send_stt, blob_key_of, Process, M, call, check_and_set,
  put_bytes, ChunkIngestResult, result_of, pass_on, take_in, ingest_bytes,
}
use interview_analytics_agen.Ingest.Chunks.Laws.{ingest_bytes_lem}

module _ (io : Io) (cfg : Settings) where
  -- What becomes of a stored chunk. In the inline mode the pipeline processed it and gave the updates;
  -- otherwise the queue of the recognition took its task, with a new event id and the present time,
  -- and there are no updates.
  abbrev pub IsPassedOn : String → ℤ → io.Bytes → List io.Update → Process io → Process io → Type 0
  IsPassedOn meeting_id seq b updates before after =
      let key = blob_key_of meeting_id seq in
      let event = io.token "stt" before.world in
      let clock = io.utc_now event.1 in
      ((is_inline cfg ≡ true)
        × (io.process_inline meeting_id seq b key before.world ≡ (ok updates, after.world)))
      ⊎ ((is_inline cfg ≡ false)
          × (io.enqueue "q:stt" (stt_task event.0 meeting_id seq key clock.0) clock.1
              ≡ (ok tt, after.world))
          × (updates ≡ []))

  -- A chunk that was taken in: its file was written at the place of its key, and after that it was
  -- passed on.
  pub record IsTakenIn (meeting_id : String) (seq : ℤ) (b : io.Bytes) (r : ChunkIngestResult io)
      (before after : Process io) : Type 0 where
    pub place : String × String
    pub placed : key_to_path cfg io.chunks_dir_env (blob_key_of meeting_id seq) ≡ ok place
    pub written : (io.write_file place b before.world).0 ≡ ok tt
    pub passed :
        IsPassedOn meeting_id seq b r.inline_updates
          (record before { world = (io.write_file place b before.world).1 })
          after

  pass_on-IsPassedOn :
      (meeting_id : String) (seq : ℤ) (b : io.Bytes) (updates : List io.Update)
      (before after : Process io)
      → pass_on io cfg meeting_id seq b before ≡ (ok updates, after)
      → IsPassedOn meeting_id seq b updates before after
  unfolding pass_on enqueue_stt send_stt
  pass_on-IsPassedOn meeting_id seq b updates before after h = elim (Bool-cases (is_inline cfg)) [
    | inl e ↦ inl (e, ground arith)
    | inr e ↦ inr (e, ground arith, ground arith)
  ]

  put_bytes-written :
      (key : String) (b : io.Bytes) (s : Process io) (u : Unit {0})
      → (put_bytes io cfg key b s).0 ≡ ok u
      → (place : String × String) × (key_to_path cfg io.chunks_dir_env key ≡ ok place)
        × ((io.write_file place b s.world).0 ≡ ok tt)
        × ((put_bytes io cfg key b s).1 ≡ record s { world = (io.write_file place b s.world).1 })
  unfolding put_bytes
  put_bytes-written key b s u e =
      let (place, placed, step) =
        bind_ok (lift (key_to_path cfg io.chunks_dir_env key))
          (λ place. call io (io.write_file place b)) s u e in
      (place, placed, ap (λ r. r.0) (sym step) ∙ e, ap (λ r. r.1) step)

  take_in-IsTakenIn :
      (meeting_id : String) (seq : ℤ) (b : io.Bytes) (k : String) (r : ChunkIngestResult io)
      (s : Process io)
      → (take_in io cfg meeting_id seq b k true s).0 ≡ ok r
      → IsTakenIn meeting_id seq b r s (take_in io cfg meeting_id seq b k true s).1
  unfolding take_in
  take_in-IsTakenIn meeting_id seq b k r s e =
      let put = put_bytes io cfg (blob_key_of meeting_id seq) b in
      let rest : M io (ChunkIngestResult io) = pass_on io cfg meeting_id seq b >>= λ updates.
      pure (result_of io cfg meeting_id seq k false updates) in
      let (u, done, step) = bind_ok put (λ _. rest) s r e in
      let (place, placed, written, after) =
        put_bytes-written (blob_key_of meeting_id seq) b s u done in
      let (updates, passed, step') =
        bind_ok (pass_on io cfg meeting_id seq b)
          (λ updates. pure (result_of io cfg meeting_id seq k false updates)) (put s).1 r
          (ap (λ x. x.0) (sym step) ∙ e) in
      let same : result_of io cfg meeting_id seq k false updates ≡ r =
        ok_injective (ap (λ x. x.0) (sym (step ∙ step')) ∙ e) in
      let last = (pass_on io cfg meeting_id seq b (put s).1).1 in
      let stored : Process io = record s { world = (io.write_file place b s.world).1 } in
      let there : pass_on io cfg meeting_id seq b (put s).1 ≡ (ok updates, last) =
        ap (λ x. (x, last)) passed in
      let pair : pass_on io cfg meeting_id seq b stored ≡ (ok updates, last) =
        ap (pass_on io cfg meeting_id seq b) (sym after) ∙ there in
      record {
        place = place;
        placed = placed;
        written = written;
        passed =
            rw (step ∙ step', ← same)
              (pass_on-IsPassedOn meeting_id seq b updates stored last pair);
      }

  of_fresh :
      (meeting_id : String) (seq : ℤ) (b : io.Bytes) (k : String) (fresh : Bool)
      (r : ChunkIngestResult io) (s : Process io)
      → (take_in io cfg meeting_id seq b k fresh s).0 ≡ ok r
      → r.is_duplicate ≡ false
      → IsTakenIn meeting_id seq b r s (take_in io cfg meeting_id seq b k fresh s).1
  of_fresh meeting_id seq b k true r s e new = take_in-IsTakenIn meeting_id seq b k r s e
  of_fresh meeting_id seq b k false r s e new =
      let same : result_of io cfg meeting_id seq k true [] ≡ r =
        ok_injective {E = Exc} (unfold take_in in e) in
      absurd (ground arith)

  -- An ingest with a key of the client, not the empty one, that answers with no duplicate has taken
  -- its chunk in: right after the check its file was written at the place of its key, and then, in the
  -- inline mode, the pipeline processed it and gave the updates of the answer, or, in any other mode,
  -- the queue of the recognition took its task, and the answer has no updates.
  pub ingest_bytes-IsTakenIn :
      (meeting_id : String) (seq : ℤ) (b : io.Bytes) (k scope prefix : String)
      (r : ChunkIngestResult io) (s : Process io)
      → k ≢ ""
      → (ingest_bytes io cfg meeting_id seq b k scope prefix s).0 ≡ ok r
      → r.is_duplicate ≡ false
      → IsTakenIn meeting_id seq b r
          (check_and_set io cfg scope meeting_id k s).1
          (ingest_bytes io cfg meeting_id seq b k scope prefix s).1
  ingest_bytes-IsTakenIn meeting_id seq b k scope prefix r s full e new =
      let e' =
        ap (λ x. x.0) (sym (ingest_bytes_lem io cfg meeting_id seq b k scope prefix s full)) ∙ e in
      let (fresh, checked, step) =
        bind_ok (check_and_set io cfg scope meeting_id k) (take_in io cfg meeting_id seq b k) s r
          e' in
      let made =
        of_fresh meeting_id seq b k fresh r (check_and_set io cfg scope meeting_id k s).1
          (ap (λ x. x.0) (sym step) ∙ e') new in
      rw (ingest_bytes_lem io cfg meeting_id seq b k scope prefix s full, step) made

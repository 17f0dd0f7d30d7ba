-- ===== src/Ingest/Chunks/Laws.antt =====
-- What repeated ingests with one key do.
use interview_analytics_agen.Common.{
  ◌≡◌, ◌≢◌, refl, inl, inr, String, Bool, true, false, [], eq_iff, arith,
}
use interview_analytics_agen.Common.Exec.{ok, Result-cases, ◌>>=◌, pure, lift}
use interview_analytics_agen.Common.Int.{ℤ}
use interview_analytics_agen.Settings.{Settings}
use interview_analytics_agen.Ingest.Idempotency.{key_of}
use interview_analytics_agen.Ingest.Blob.{key_to_path}
use interview_analytics_agen.Ingest.Chunks.{
  SttTask, Io, is_inline, blob_key_of, default_ttl_sec, Process, M, call, check_and_set, put_bytes,
  enqueue_stt, send_stt, stt_task, result_of, pass_on, take_in, given_key, ingest_bytes,
}

-- Redis keeps a key that `SET NX` has set, for the time that is looked at: it sets no such key again,
-- and neither the file system nor the queue removes it.
pub record IsRemembering (io : Io) : Type 1 where
  pub Known : String → io.World → Type 0
  pub known :
      (k : String) (ttl : ℤ) (w : io.World)
      → (io.set_nx k ttl w).0 ≡ ok true
      → Known k (io.set_nx k ttl w).1
  pub refused : (k : String) (ttl : ℤ) (w : io.World) → Known k w → (io.set_nx k ttl w).0 ≡ ok false
  pub after_write :
      (k : String) (place : String × String) (b : io.Bytes) (w : io.World)
      → Known k w
      → Known k (io.write_file place b w).1
  pub after_enqueue :
      (k q : String) (task : SttTask) (w : io.World) → Known k w → Known k (io.enqueue q task w).1
  pub after_token : (k prefix : String) (w : io.World) → Known k w → Known k (io.token prefix w).1
  pub after_clock : (k : String) (w : io.World) → Known k w → Known k (io.utc_now w).1

module _ (io : Io) (cfg : Settings) where
  given_key_lem :
      (k prefix : String) (s : Process io) → k ≢ "" → given_key io cfg k prefix s ≡ (k, s)
  unfolding given_key
  given_key_lem k prefix s h = ground (arith, eq_iff k "")

  -- With a key of its own, an ingest is the check followed by taking in.
  pub ingest_bytes_lem :
      (meeting_id : String) (seq : ℤ) (b : io.Bytes) (k scope prefix : String) (s : Process io)
      → k ≢ ""
      → ingest_bytes io cfg meeting_id seq b k scope prefix s
        ≡ (check_and_set io cfg scope meeting_id k >>= take_in io cfg meeting_id seq b k) s
  unfolding ingest_bytes
  ingest_bytes_lem meeting_id seq b k scope prefix s h = rw (given_key_lem k prefix s h) refl

  module _ (h : IsRemembering io) (k : String) where
    abbrev Kept : {A : Type 0} → M io A → Type 0
    Kept m = (s : Process io) → h.Known k s.world → h.Known k (m s).1.world

    bind-Kept :
        {A B : Type 0} (m : M io A) (f : A → M io B)
        → Kept m
        → ((a : A) → Kept (f a))
        → Kept (m >>= f)
    bind-Kept m f hm hf s w = elim (Result-cases (m s).0) [
      | inl (a, e) ↦ rw e (hf a (m s).1 (hm s w))
      | inr (x, e) ↦ rw e (hm s w)
    ]

    put_bytes-Kept : (key : String) (b : io.Bytes) → Kept (put_bytes io cfg key b)
    unfolding put_bytes
    put_bytes-Kept key b =
        bind-Kept (lift (key_to_path cfg io.chunks_dir_env key))
          (λ place. call io (io.write_file place b)) (λ s w. w)
          (λ place s w. h.after_write k place b s.world w)

    send_stt-Kept : (task : SttTask) → is_inline cfg ≡ false → Kept (send_stt io cfg task)
    unfolding send_stt
    send_stt-Kept task queued = rw queued (λ s w. h.after_enqueue k "q:stt" task s.world w)

    enqueue_stt-Kept :
        (meeting_id : String) (seq : ℤ) (key : String)
        → is_inline cfg ≡ false
        → Kept (enqueue_stt io cfg meeting_id seq key)
    unfolding enqueue_stt
    enqueue_stt-Kept meeting_id seq key queued s w =
        let (event_id, w₁) = io.token "stt" s.world in
        let (t, w₂) = io.utc_now w₁ in
        let task = stt_task event_id meeting_id seq key t in
        bind-Kept (send_stt io cfg task) (λ _. pure event_id) (send_stt-Kept task queued)
          (λ u s w. w) (record s { world = w₂ })
          (h.after_clock k w₁ (h.after_token k "stt" s.world w))

    pass_on-Kept :
        (meeting_id : String) (seq : ℤ) (b : io.Bytes)
        → is_inline cfg ≡ false
        → Kept (pass_on io cfg meeting_id seq b)
    unfolding pass_on
    pass_on-Kept meeting_id seq b queued = rw queued (
        bind-Kept (enqueue_stt io cfg meeting_id seq (blob_key_of meeting_id seq)) (λ _. pure [])
          (enqueue_stt-Kept meeting_id seq (blob_key_of meeting_id seq) queued) (λ u s w. w))

    take_in-Kept :
        (meeting_id : String) (seq : ℤ) (b : io.Bytes) (key : String) (fresh : Bool)
        → is_inline cfg ≡ false
        → Kept (take_in io cfg meeting_id seq b key fresh)
    unfolding take_in
    take_in-Kept meeting_id seq b key false queued = λ s w. w
    take_in-Kept meeting_id seq b key true queued =
        bind-Kept (put_bytes io cfg (blob_key_of meeting_id seq) b) _
          (put_bytes-Kept (blob_key_of meeting_id seq) b)
          (λ u.
            bind-Kept (pass_on io cfg meeting_id seq b) _ (pass_on-Kept meeting_id seq b queued)
              (λ us s w. w))

    check-Known :
        (scope meeting_id key : String) (s : Process io)
        → k ≡ key_of scope meeting_id key
        → is_inline cfg ≡ false
        → (check_and_set io cfg scope meeting_id key s).0 ≡ ok true
        → h.Known k (check_and_set io cfg scope meeting_id key s).1.world
    unfolding check_and_set
    check-Known scope meeting_id key s same queued e =
        rw (queued, ← same) (h.known k default_ttl_sec s.world (rw (queued, ← same) at e))

    check_known :
        (scope meeting_id key : String) (s : Process io)
        → k ≡ key_of scope meeting_id key
        → is_inline cfg ≡ false
        → h.Known k s.world
        → (check_and_set io cfg scope meeting_id key s).0 ≡ ok false
    unfolding check_and_set
    check_known scope meeting_id key s same queued w =
        rw (queued, ← same) (h.refused k default_ttl_sec s.world w)

    ingest-Known :
        (meeting_id : String) (seq : ℤ) (b : io.Bytes) (key scope prefix : String) (s : Process io)
        → key ≢ ""
        → k ≡ key_of scope meeting_id key
        → is_inline cfg ≡ false
        → (check_and_set io cfg scope meeting_id key s).0 ≡ ok true
        → h.Known k (ingest_bytes io cfg meeting_id seq b key scope prefix s).1.world
    ingest-Known meeting_id seq b key scope prefix s full same queued e =
        rw (ingest_bytes_lem meeting_id seq b key scope prefix s full, e)
          (take_in-Kept meeting_id seq b key true queued
            (check_and_set io cfg scope meeting_id key s).1
            (check-Known scope meeting_id key s same queued e))

  -- Where chunks are queued and Redis remembers the keys that it was given: once a key of the client,
  -- not the empty one, was new to an ingest, the next ingest of the meeting with that key answers
  -- that it is a duplicate and does nothing but the check, whatever chunk it brings. That holds also
  -- where the first ingest raised, so that its chunk was not taken in.
  pub ingested_once :
      (meeting_id k scope : String) (seq seq' : ℤ) (b b' : io.Bytes) (prefix prefix' : String)
      (s : Process io)
      → IsRemembering io
      → k ≢ ""
      → is_inline cfg ≡ false
      → (check_and_set io cfg scope meeting_id k s).0 ≡ ok true
      → let s' = (ingest_bytes io cfg meeting_id seq b k scope prefix s).1 in
        ingest_bytes io cfg meeting_id seq' b' k scope prefix' s' ≡ (
          ok (result_of io cfg meeting_id seq' k true []),
          (check_and_set io cfg scope meeting_id k s').1,
        )
  ingested_once meeting_id k scope seq seq' b b' prefix prefix' s h full queued e =
      let s' = (ingest_bytes io cfg meeting_id seq b k scope prefix s).1 in
      let known =
        ingest-Known h (key_of scope meeting_id k) meeting_id seq b k scope prefix s full refl
          queued e in
      rw
        (
          ingest_bytes_lem meeting_id seq' b' k scope prefix' s' full,
          check_known h (key_of scope meeting_id k) scope meeting_id k s' refl queued known,
        )
        (unfold take_in in refl)

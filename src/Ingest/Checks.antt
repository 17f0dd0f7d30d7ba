-- ===== src/Ingest/Checks.antt =====
-- A Redis and a file system in memory, tests of the ingest, and instances of its theorems.
use interview_analytics_agen.Common.{
  ◌≡◌, ◌≢◌, refl, String, Bool, true, false, none, some, List, [], ◌∷◌, contains, lstrip_slashes,
  split_slashes, normalize, decimal, format, strip, if◌then◌else◌, eq_refl, eq_iff, arith,
}
use interview_analytics_agen.Common.Exec.{Result, ok, raised}
use interview_analytics_agen.Common.Int.{pos}
use interview_analytics_agen.Settings.{Settings, defaults}
use interview_analytics_agen.Ingest.Idempotency.{local_check, key_of}
use interview_analytics_agen.Ingest.Idempotency.Laws.{run_checks, accepted_once}
use interview_analytics_agen.Ingest.Blob.{
  Exc, other_exception, key_path, storage_mode, base_dir, key_to_path,
}
use interview_analytics_agen.Ingest.Blob.Laws.{walk_path, stays_below}
use interview_analytics_agen.Ingest.Chunks.{
  Io, is_inline, blob_key_of, Process, check_and_set, put_bytes, enqueue_stt, ChunkIngestResult,
  result_of, ingest_bytes,
}
use interview_analytics_agen.Ingest.Chunks.Laws.{IsRemembering, ingested_once}
use interview_analytics_agen.Ingest.Chunks.TakenIn.{IsTakenIn, ingest_bytes-IsTakenIn}

record Disk : Type 0 where
  redis_keys : List String
  full : Bool

abbrev set_key : String → Disk → Result Exc Bool × Disk
set_key k w =
    if contains w.redis_keys k
    then (ok false, w)
    else (ok true, record w { redis_keys = k ∷ w.redis_keys })

abbrev written_to : Bool → Result Exc (Unit {0})
written_to true = raised (other_exception "no space left")
written_to false = ok tt

abbrev disk : Io
disk = record {
  World = Disk;
  Bytes = String;
  Update = Unit;
  chunks_dir_env = "./data/chunks";
  b64_decode = λ t. some t;
  monotonic = λ w. (1, w);
  utc_now = λ w. (1, w);
  token = λ prefix w. (prefix, w);
  set_nx = λ k ttl w. set_key k w;
  write_file = λ place b w. (written_to w.full, w);
  enqueue = λ q task w. (ok tt, w);
  process_stored = λ m seq key w. (ok tt, w);
  process_inline = λ m seq b key w. (ok [], w);
}

disk-IsRemembering : IsRemembering disk
unfolding contains
disk-IsRemembering = record {
  Known = λ k w. contains w.redis_keys k ≡ true;
  known = λ k ttl w h. ground (arith, eq_refl k);
  refused = λ k ttl w h. ground arith;
  after_write = λ k place b w h. h;
  after_enqueue = λ k q task w h. h;
  after_token = λ k prefix w h. h;
  after_clock = λ k w h. h;
}

abbrev empty_disk : Bool → Process disk
empty_disk full = record { world = record { redis_keys = []; full = full }; keys = [] }

-- Chunk 0 of a full disk raises, and is called a duplicate when it comes again.
ingested_once_example :
    let s' =
      (ingest_bytes disk defaults "m1"
        (pos 0)
        "audio"
        "k1"
        "audio_chunk_http"
        "http-chunk"
        (empty_disk true)).1 in
    ingest_bytes disk defaults "m1" (pos 0) "audio" "k1" "audio_chunk_http" "http-chunk" s' ≡ (
      ok (result_of disk defaults "m1" (pos 0) "k1" true []),
      (check_and_set disk defaults "audio_chunk_http" "m1" "k1" s').1,
    )
unfolding check_and_set is_inline normalize contains
ingested_once_example =
    ingested_once disk defaults "m1" "k1" "audio_chunk_http" (pos 0) (pos 0) "audio" "audio"
      "http-chunk" "http-chunk" (empty_disk true) disk-IsRemembering
      (λ e. ground (arith, eq_iff "k1" "")) refl refl

full_disk_raises :
    (ingest_bytes disk defaults "m1"
      (pos 0)
      "audio"
      "k1"
      "audio_chunk_http"
      "http-chunk"
      (empty_disk true)).0
    ≡ raised (other_exception "no space left")
unfolding ingest_bytes check_and_set is_inline normalize contains put_bytes key_to_path key_path
    lstrip_slashes split_slashes storage_mode base_dir key_of blob_key_of decimal format strip
full_disk_raises = refl

abbrev taken : ChunkIngestResult disk
taken = result_of disk defaults "m1" (pos 7) "k1" false []

ingest_bytes-IsTakenIn_example :
    IsTakenIn disk defaults "m1"
      (pos 7)
      "audio"
      taken
      (check_and_set disk defaults "audio_chunk_http" "m1" "k1" (empty_disk false)).1
      (ingest_bytes disk defaults "m1"
        (pos 7)
        "audio"
        "k1"
        "audio_chunk_http"
        "http-chunk"
        (empty_disk false)).1
unfolding ingest_bytes check_and_set is_inline normalize contains put_bytes key_to_path key_path
    lstrip_slashes split_slashes storage_mode base_dir key_of blob_key_of decimal format strip
    enqueue_stt
ingest_bytes-IsTakenIn_example =
    ingest_bytes-IsTakenIn disk defaults "m1" (pos 7) "audio" "k1" "audio_chunk_http" "http-chunk"
      taken (empty_disk false) (λ e. ground (arith, eq_iff "k1" "")) refl refl

-- A key is checked at second 1, another one at second 50, and the first again at second 60.
accepted_once_example :
    local_check 60000000 "idem:a"
      (pos 60)
      (run_checks ((50000000, "idem:b", pos 60) ∷ []) (local_check 1000000 "idem:a" (pos 60) []).1)
    ≡ (
      false,
      run_checks ((50000000, "idem:b", pos 60) ∷ []) (local_check 1000000 "idem:a" (pos 60) []).1,
    )
unfolding local_check
accepted_once_example =
    accepted_once 1000000 60000000 "idem:a" (pos 60) (pos 60) [] ((50000000, "idem:b", pos 60) ∷ [])
      refl (omega arith, tt) (omega arith)

stays_below_example : walk_path "meetings/m1/chunks/7.bin" ≢ none
unfolding key_to_path key_path lstrip_slashes split_slashes contains storage_mode base_dir normalize
    strip
stays_below_example =
    stays_below defaults "./data/chunks" "/meetings/m1/chunks/7.bin" "./data/chunks"
      "meetings/m1/chunks/7.bin" refl

abbrev in_prod : Settings
in_prod = record defaults {
  app_env = "prod";
  storage_mode = "shared_fs";
  storage_shared_fs_dir = "/mnt/chunks";
}

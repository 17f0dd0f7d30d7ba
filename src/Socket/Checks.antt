-- ===== src/Socket/Checks.antt =====
-- A connection of a user of tenant t1 to a server with a meeting of t1 and one of t2.
use interview_analytics_agen.Common.{
  String, Bool, true, false, none, some, List, [], ◌∷◌, ◌==◌, ◌≡◌, ◌≢◌, refl, sym, ◌∙◌, arith,
  meets, if◌then◌else◌,
}
use interview_analytics_agen.Common.Exec.{ok}
use interview_analytics_agen.Common.Value.{string, Dict, claim_values, get}
use interview_analytics_agen.Common.Int.{pos}
use interview_analytics_agen.Settings.{Settings, defaults}
use interview_analytics_agen.Security.Auth.{AuthContext, jwt, is_service_jwt_claims}
use interview_analytics_agen.Security.Tenancy.{resolve_tenant_id}
use interview_analytics_agen.Ingest.Chunks.{Io}
use interview_analytics_agen.Socket.{Frame, event, Outside, Connection, serve_frames}
use interview_analytics_agen.Socket.Access.{HasAccess, taken_after_check}
use interview_analytics_agen.Socket.Forgotten.{caller_forgotten}

abbrev redis : Io
redis = record {
  World = Unit;
  Bytes = String;
  Update = Unit;
  chunks_dir_env = "./data/chunks";
  b64_decode = λ t. some t;
  monotonic = λ w. (1, w);
  utc_now = λ w. (1, w);
  token = λ prefix w. (prefix, w);
  set_nx = λ k ttl w. (ok true, w);
  write_file = λ place b w. (ok tt, w);
  enqueue = λ q task w. (ok tt, w);
  process_stored = λ m seq key w. (ok tt, w);
  process_inline = λ m seq b key w. (ok [], w);
}

abbrev context_of_tenant : String → Dict
context_of_tenant tenant = ("tenant_id", string tenant) ∷ []

abbrev server : Outside
server = record {
  ingest = redis;
  find_meeting = λ id w. (ok (some (context_of_tenant (if id == "m1" then "t1" else "t2"))), w);
  send = λ reply w. (ok tt, w);
}

abbrev enforcing : Settings
enforcing = record defaults { tenant_enforcement_enabled = true }

abbrev caller : String → String → AuthContext
caller name tenant = record {
  subject = name;
  auth_type = jwt;
  claims = some (("sub", string name) ∷ ("tenant_id", string tenant) ∷ []);
}

abbrev chunk_of : String → Frame
chunk_of id = event (record {
  event_type = "audio.chunk";
  meeting_id = id;
  seq = some (pos 0);
  content_b64 = some (string "audio");
  idempotency_key = "k";
})

abbrev opened : Bool → Connection server
opened checked = record {
  process = record { world = tt; keys = [] };
  meeting_checked = checked;
  forwarding = none;
  taken = [];
}

-- The chunk of the meeting of t1 is checked; the one of t2 comes after it and is taken too.
both_taken :
    (serve_frames server enforcing
      (caller "ann" "t1")
      false
      (chunk_of "m1" ∷ chunk_of "m2" ∷ [])
      (opened false)).taken
    ≡ "m1" ∷ "m2" ∷ []
unfolding serve_frames resolve_tenant_id is_service_jwt_claims meets claim_values get
both_taken = refl

-- Alone it is not.
other_tenant_refused :
    (serve_frames server enforcing
      (caller "ann" "t1")
      false
      (chunk_of "m2" ∷ [])
      (opened false)).taken
    ≡ []
unfolding serve_frames resolve_tenant_id is_service_jwt_claims meets claim_values get
other_tenant_refused = refl

some_taken : ◌≢◌ {A = List String} ("m1" ∷ "m2" ∷ []) []
some_taken h = ground arith

taken_after_check_example :
    HasAccess server enforcing
      (caller "ann" "t1")
      (chunk_of "m1" ∷ chunk_of "m2" ∷ [])
      (opened false)
taken_after_check_example =
    taken_after_check server enforcing (caller "ann" "t1") (chunk_of "m1" ∷ chunk_of "m2" ∷ [])
      (opened false) refl refl refl (λ h. some_taken (sym both_taken ∙ h))

caller_forgotten_example :
    serve_frames server enforcing (caller "ann" "t1") false (chunk_of "m2" ∷ []) (opened true)
    ≡ serve_frames server enforcing (caller "bob" "t2") false (chunk_of "m2" ∷ []) (opened true)
caller_forgotten_example =
    caller_forgotten server enforcing (caller "ann" "t1") (caller "bob" "t2") false
      (chunk_of "m2" ∷ []) (opened true) refl

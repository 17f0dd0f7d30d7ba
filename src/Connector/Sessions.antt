-- ===== src/Connector/Sessions.antt =====
-- The sessions of sberjazz_service.py: one state for each meeting, in Redis with an index of the
-- meetings, and a copy in the process.
use interview_analytics_agen.Common.{
  ℕ, String, false, Option, none, some, List, [], ◌∷◌, ◌++◌, ◌==◌, max, take, leb, contains, strip,
  is_empty, normalize, if◌then◌else◌,
}
use interview_analytics_agen.Common.Exec.{Result, ok, raised, ◌>>=◌, pure, lift}
use interview_analytics_agen.Settings.{Settings}
use interview_analytics_agen.Connector.Io.{
  connector_provider_error, Exc, provider_error, at, SessionState, session, session_index, Stored,
  session_doc, breaker_doc, plain, Provider, sberjazz, sberjazz_mock, Io, SessionTable,
  find_session, put_session, Service, M, now,
}
use interview_analytics_agen.Connector.Breaker.{session_ttl_sec, parse_dt}

abbrev pub unknown_provider : Exc
unknown_provider =
    provider_error connector_provider_error "connector_provider_error: unknown provider"

abbrev pub provider_name : Provider → String
provider_name sberjazz = "sberjazz"
provider_name sberjazz_mock = "sberjazz_mock"

-- `_resolve_connector`; its message names the provider.
unfoldable pub resolve_connector : Settings → Result Exc Provider
resolve_connector cfg =
    let raw = cfg.meeting_connector_provider in
    let provider = normalize (if is_empty raw then "sberjazz_mock" else raw) in
    if provider == "sberjazz"
    then ok sberjazz
    else if provider == "sberjazz_mock"
    then ok sberjazz_mock
    else raised unknown_provider

-- `_load_state_redis`: `none` where it returns None or raises, which its caller treats alike.
load_state : Result Exc (Option Stored) → Option SessionState
load_state (ok (some (session_doc st))) = some st
load_state (ok (some (breaker_doc b))) = none
load_state (ok (some (plain t))) = none
load_state (ok none) = none
load_state (raised e) = none

module _ (io : Io) (cfg : Settings) where
  index_state : SessionState → Result Exc (Unit {0}) → io.World → io.World
  index_state st (raised e) w = w
  index_state st (ok u) w = (io.sadd session_index st.meeting_id w).1

  -- `_save_state`, with `_save_state_redis`: what Redis raises is logged.
  unfoldable pub save_state : SessionState → Service io → SessionState × Service io
  unfolding index_state
  save_state st s =
      let (r, w) = io.set (session st.meeting_id) (session_doc st) (session_ttl_sec cfg) s.world in
      (
        st,
        record s { world = index_state st r w; sessions = put_session s.sessions st.meeting_id st },
      )

  -- The state of a meeting that nothing is known of.
  abbrev unknown_state : String → Provider → ℕ → SessionState
  unknown_state meeting_id provider t = record {
    meeting_id = meeting_id;
    provider = provider_name provider;
    connected = false;
    attempts = 0;
    last_error = none;
    updated_at = at t;
  }

  local_state : String → Option SessionState → M io SessionState
  local_state meeting_id (some st) = pure st
  local_state meeting_id none = do
    provider ← lift (resolve_connector cfg)
    λ s. let (t, s') = now io s in (ok (unknown_state meeting_id provider t), s')

  read_state : String → Option SessionState → M io SessionState
  unfolding local_state
  read_state meeting_id (some st) s =
      (ok st, record s { sessions = put_session s.sessions meeting_id st })
  read_state meeting_id none s = local_state meeting_id (find_session s.sessions meeting_id) s

  -- `get_sberjazz_meeting_state`
  unfoldable pub get_meeting_state : String → M io SessionState
  unfolding load_state read_state
  get_meeting_state meeting_id s =
      let (r, w) = io.get (session meeting_id) s.world in
      read_state meeting_id (load_state r) (record s { world = w })

  abbrev pub table_keys : SessionTable → List String
  table_keys [] = []
  table_keys ((k, st) ∷ t) = k ∷ table_keys t

  -- `set.update`, for the members of the index that are not blank.
  pub add_members : List String → List String → List String
  unfolding contains strip
  add_members ids [] = ids
  add_members ids (m ∷ members) =
      add_members
        (if is_empty (strip m) then ids else if contains ids m then ids else ids ++ m ∷ []) members

  pub members_of : Result Exc (List String) → List String
  members_of (ok members) = members
  members_of (raised e) = []

  pub read_states : List String → M io (List SessionState)
  read_states [] = pure []
  read_states (id ∷ ids) = do st ← get_meeting_state id; rest ← read_states ids; pure (st ∷ rest)

  -- The sort keys, computed once for each state before sorting.
  pub sort_keys : List SessionState → Service io → List (ℕ × SessionState) × Service io
  sort_keys [] s = ([], s)
  sort_keys (st ∷ states) s =
      let (t, s₁) = parse_dt io cfg st.updated_at s in
      let (rest, s₂) = sort_keys states s₁ in ((t, st) ∷ rest, s₂)

  -- Insertion before the first key that is not larger keeps the order of equal keys.
  insert_desc : ℕ × SessionState → List (ℕ × SessionState) → List (ℕ × SessionState)
  insert_desc (t, st) [] = (t, st) ∷ []
  insert_desc (t, st) ((u, other) ∷ rest) =
      if leb u t then (t, st) ∷ (u, other) ∷ rest else (u, other) ∷ insert_desc (t, st) rest

  pub sort_desc : List (ℕ × SessionState) → List (ℕ × SessionState)
  unfolding insert_desc
  sort_desc [] = []
  sort_desc (x ∷ xs) = insert_desc x (sort_desc xs)

  abbrev pub states_of : List (ℕ × SessionState) → List SessionState
  states_of [] = []
  states_of ((t, st) ∷ rest) = st ∷ states_of rest

  unfoldable pub latest_first : ℕ → List SessionState → M io (List SessionState)
  unfolding sort_keys sort_desc
  latest_first limit states s =
      let (keyed, s') = sort_keys states s in
      (ok (take (max 1 limit) (states_of (sort_desc keyed))), s')

  -- `list_sberjazz_sessions`: latest first, `max(1, limit)` of them. Python's set has no order of its
  -- own; the meetings are read in the order of insertion.
  unfoldable pub list_sessions : ℕ → M io (List SessionState)
  unfolding add_members members_of read_states latest_first
  list_sessions limit s =
      let (r, w) = io.smembers session_index s.world in
      let ids = add_members (table_keys s.sessions) (members_of r) in
      (do states ← read_states ids; latest_first limit states) (record s { world = w })

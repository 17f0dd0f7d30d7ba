-- ===== src/Connector/Live.antt =====
-- The live pull of sberjazz_service.py: the chunks of every connected meeting are fetched after the
-- meeting's cursor and taken in; a meeting that fails too often in a row is reconnected.
pub mod Laws
use interview_analytics_agen.Common.{
  ℕ, zero, suc, ◌+◌, ◌-◌, ◌*◌, String, Bool, true, false, ◌&&◌, ◌||◌, not, Option, none, some, List,
  [], ◌∷◌, ◌==◌, max, leb, is_empty, strip, normalize, decimal, format, if◌then◌else◌, number,
  all_digits,
}
use interview_analytics_agen.Common.Exec.{
  Result, ok, raised, Exec, ◌>>=◌, ◌>>◌, pure, raise, lift, total,
}
use interview_analytics_agen.Common.Int.{ℤ, pos, negsuc, at_least, rounds}
use interview_analytics_agen.Common.Value.{Value, null, string, scalar, sequence, truthy, str}
use interview_analytics_agen.Settings.{Settings}
use interview_analytics_agen.Connector.Payload.{
  RawSeq, integer, digits, no_seq, RawChunk, Item, chunk, no_object, ChunksField, missing,
  not_array, items, Payload, falsy, not_object, object, LiveChunk,
}
use interview_analytics_agen.Connector.Io.{
  connector_provider_error, Exc, provider_error, Stamp, at, SessionState, Key, live_cursor,
  live_seq, live_fail_count, Stored, plain, session_doc, breaker_doc, Provider, Io, Service, M,
  call, now,
}
use interview_analytics_agen.Connector.Breaker.{session_ttl_sec}
use interview_analytics_agen.Connector.Sessions.{
  resolve_connector, save_state, get_meeting_state, list_sessions,
}
use interview_analytics_agen.Connector.Calls.{is_retryable, reconnect_meeting}

-- `_parse_chunk_seq`
unfoldable pub parse_chunk_seq : RawSeq → Option ℕ
unfolding number all_digits
parse_chunk_seq (integer (pos n)) = some n
parse_chunk_seq (integer (negsuc n)) = none
parse_chunk_seq (digits t) = if not (is_empty t) && all_digits t then some (number 0 t) else none
parse_chunk_seq no_seq = none

abbrev not_an_object : Exc
not_an_object =
    provider_error connector_provider_error "connector_provider_error: payload is no object"

abbrev chunks_no_array : Exc
chunks_no_array =
    provider_error connector_provider_error "connector_provider_error: chunks is no array"

-- `str(item.get("content_b64") or "").strip()`
abbrev content_of : RawChunk → String
content_of c = if truthy c.content_b64 then strip (str c.content_b64) else ""

-- `item.get("id") or item.get("chunk_id")`, stripped; of None, "".
id_text : Value → String
unfolding strip
id_text null = ""
id_text (string t) = strip t
id_text (scalar t b) = strip t
id_text (sequence t vs) = strip t

chunk_id_of : String → ℕ → RawChunk → String
unfolding id_text format decimal
chunk_id_of prefix idx c =
    let id = id_text (if truthy c.id then c.id else c.chunk_id) in
    if is_empty id then format (prefix ∷ ":" ∷ decimal idx ∷ []) else id

-- `raw_chunks`, and `str(raw_next_cursor).strip() or None`.
abbrev pub items_of : Payload → Result Exc (List Item)
items_of falsy = ok []
items_of not_object = raised not_an_object
items_of (object missing cursor) = ok []
items_of (object not_array cursor) = raised chunks_no_array
items_of (object (items is) cursor) = ok is

abbrev text_or_none : String → Option String
text_or_none t = if is_empty t then none else some t

next_cursor_of : Payload → Option String
unfolding id_text
next_cursor_of falsy = none
next_cursor_of not_object = none
next_cursor_of (object chunks cursor) = text_or_none (id_text cursor)

module _ (io : Io) (cfg : Settings) where
  -- `_next_live_seq`, where the chunk has no number.
  seq_or_next : String → Option ℕ → M io ℕ
  seq_or_next meeting_id (some n) = pure n
  seq_or_next meeting_id none = call io (io.incr (live_seq meeting_id))

  -- The loop of `_parse_live_pull_payload`: the chunks, and how many items are invalid.
  pub parse_items : String → String → ℕ → List Item → M io (List LiveChunk × ℕ)
  unfolding seq_or_next parse_chunk_seq chunk_id_of strip
  parse_items meeting_id prefix idx [] = pure ([], 0)
  parse_items meeting_id prefix idx (no_object ∷ rest) = do
    more ← parse_items meeting_id prefix (suc idx) rest
    pure (more.0, more.1 + 1)
  parse_items meeting_id prefix idx (chunk c ∷ rest) =
      let after = parse_items meeting_id prefix (suc idx) rest in
      if is_empty (content_of c)
      then (after >>= λ more. pure (more.0, more.1 + 1))
      else (seq_or_next meeting_id (parse_chunk_seq c.seq) >>= λ seq. after >>= λ more. pure (
        record { chunk_id = chunk_id_of prefix idx c; seq = seq; content_b64 = content_of c }
            ∷ more.0,
        more.1,
      ))

  -- `_parse_live_pull_payload`
  unfoldable pub parse_payload :
      String → String → Payload → M io (List LiveChunk × ℕ × Option String)
  unfolding parse_items next_cursor_of
  parse_payload meeting_id prefix payload = do
    is ← lift (items_of payload)
    parsed ← parse_items meeting_id prefix 0 is
    pure (parsed.0, parsed.1, next_cursor_of payload)

  cursor_in : Option Stored → Option String
  unfolding strip
  cursor_in (some (plain t)) = text_or_none (strip t)
  cursor_in (some (session_doc st)) = none
  cursor_in (some (breaker_doc b)) = none
  cursor_in none = none

  pub save_cursor : String → Option String → M io (Unit {0})
  save_cursor meeting_id none = pure tt
  save_cursor meeting_id (some t) =
      call io (io.set (live_cursor meeting_id) (plain t) (session_ttl_sec cfg))

  abbrev pause : ℕ → Service io → Service io
  pause attempt s =
      let ms = at_least 0 cfg.sberjazz_live_pull_retry_backoff_ms in
      if leb 1 ms then record s { world = io.sleep_ms (ms * attempt) s.world } else s

  -- The loop around `fetch_fn`, with the attempts left behind this one.
  pub fetch_attempts : M io Payload → ℕ → ℕ → M io Payload
  fetch_attempts op zero attempt s = op s
  fetch_attempts op (suc left) attempt s =
      let (r, s') = op s in
      let again = fetch_attempts op left (suc attempt) (pause attempt s') in
      elim r [
        | ok payload ↦ (ok payload, s')
        | raised e ↦ if is_retryable e then again else (raised e, s')
      ]

  -- The chunks of one meeting: how many were pulled, and how many of them were new.
  pub ingest_all : String → List LiveChunk → M io (ℕ × ℕ)
  ingest_all meeting_id [] = pure (0, 0)
  ingest_all meeting_id (c ∷ cs) = do
    is_duplicate ← call io (io.ingest meeting_id c.seq c.content_b64 c.chunk_id)
    more ← ingest_all meeting_id cs
    pure (more.0 + 1, if is_duplicate then more.1 else more.1 + 1)

  touched : SessionState → Service io → SessionState × Service io
  touched prev s =
      let (t, s') = now io s in
      save_state io cfg (record prev { connected = true; updated_at = at t }) s'

  -- `_touch_connected_state`
  pub touch_if : Bool → String → M io (Unit {0})
  unfolding touched
  touch_if false meeting_id = pure tt
  touch_if true meeting_id = do
    prev ← get_meeting_state io cfg meeting_id
    total (touched prev)
    pure tt

  abbrev prefix_of : Option String → String
  prefix_of none = "no-cursor"
  prefix_of (some t) = t

  -- The steps of `_pull_live_for_meeting`: fetching and parsing, and taking in what was parsed.
  pub fetch_parsed : Provider → String → ℕ → M io (List LiveChunk × ℕ × Option String)
  unfolding parse_payload fetch_attempts cursor_in
  fetch_parsed provider meeting_id batch_limit = do
    stored ← call io (io.get (live_cursor meeting_id))
    let cursor = cursor_in stored
    payload ←
        fetch_attempts
          (call io (io.fetch_live_chunks provider meeting_id cursor (max 1 batch_limit)))
          (rounds cfg.sberjazz_live_pull_retries - 1) 1
    parse_payload meeting_id (prefix_of cursor) payload

  pub finish_meeting : String → ℕ → ℕ × ℕ → M io (ℕ × ℕ × ℕ)
  unfolding touch_if
  finish_meeting meeting_id invalid counts =
      touch_if (leb 1 counts.0) meeting_id >> pure (counts.0, counts.1, invalid)

  pub take_parsed : String → List LiveChunk × ℕ × Option String → M io (ℕ × ℕ × ℕ)
  unfolding save_cursor ingest_all finish_meeting
  take_parsed meeting_id parsed =
      save_cursor meeting_id parsed.2
      >> (ingest_all meeting_id parsed.0 >>= finish_meeting meeting_id parsed.1)

  -- `_pull_live_for_meeting`: the numbers of chunks pulled, ingested and invalid.
  unfoldable pub pull_meeting : String → ℕ → M io (ℕ × ℕ × ℕ)
  unfolding fetch_parsed take_parsed normalize
  pull_meeting meeting_id batch_limit =
      let provider = normalize cfg.meeting_connector_provider in
      if is_empty provider || provider == "none"
      then pure (0, 0, 0)
      else (lift (resolve_connector cfg) >>= λ p.
          fetch_parsed p meeting_id batch_limit >>= take_parsed meeting_id)

-- ===== src/Connector/Live/Laws.antt =====
-- What one meeting's pull counts.
use interview_analytics_agen.Common.{
  ◌||◌, normalize, ◌==◌, leb, ℕ, suc, ◌+◌, ◌≤◌, ◌≡◌, sym, ap, ◌∙◌, inl, inr, String, Bool, true,
  false, Option, List, [], ◌∷◌, is_empty, length, All, if◌then◌else◌, Bool-cases, arith,
}
use interview_analytics_agen.Common.Exec.{
  ok, bind_ok, ok_injective, Ensures, if-Ensures, bind-Ensures, then-Ensures, pure-Ensures, ◌>>=◌,
  pure, lift,
}
use interview_analytics_agen.Settings.{Settings}
use interview_analytics_agen.Connector.Payload.{Item, chunk, no_object, Payload, LiveChunk}
use interview_analytics_agen.Connector.Io.{Io, Provider, Service, M, call}
use interview_analytics_agen.Connector.Sessions.{resolve_connector}
use interview_analytics_agen.Connector.Live.{
  items_of, content_of, chunk_id_of, seq_or_next, parse_chunk_seq, parse_items, parse_payload,
  next_cursor_of, ingest_all, save_cursor, touch_if, fetch_parsed, finish_meeting, take_parsed,
  pull_meeting,
}

-- Of the chunks that were pulled, at most all were new.
abbrev Few : ℕ × ℕ × ℕ → Type 0
Few n = n.1 ≤ n.0

abbrev pub HasContent : LiveChunk → Type 0
HasContent c = is_empty c.content_b64 ≡ false

-- A list of items was split into chunks with content and the count of the others.
pub record IsSplit (found : List Item) (chunks : List LiveChunk) (invalid : ℕ) : Type 0 where
  pub all_counted : length chunks + invalid ≡ length found
  pub with_content : All HasContent chunks

invalid_one :
    (i : Item) (found : List Item) (chunks : List LiveChunk) (n : ℕ)
    → IsSplit found chunks n
    → IsSplit (i ∷ found) chunks (n + 1)
invalid_one i found chunks n h = record {
  all_counted = omega (arith, h.all_counted);
  with_content = h.with_content;
}

one_more :
    (i : Item) (found : List Item) (c : LiveChunk) (chunks : List LiveChunk) (n : ℕ)
    → HasContent c
    → IsSplit found chunks n
    → IsSplit (i ∷ found) (c ∷ chunks) n
one_more i found c chunks n content h = record {
  all_counted = omega (arith, h.all_counted);
  with_content = (content, h.with_content);
}

module _ (io : Io) (cfg : Settings) where
  abbrev Splits : List Item → M io (List LiveChunk × ℕ) → Type 0
  Splits found m =
      (s : Service io) (r : List LiveChunk × ℕ) → (m s).0 ≡ ok r → IsSplit found r.0 r.1

  skip-Splits :
      (i : Item) (found : List Item) (m : M io (List LiveChunk × ℕ))
      → Splits found m
      → Splits (i ∷ found) (m >>= λ more. pure (more.0, more.1 + 1))
  skip-Splits i found m h s r e =
      let (more, got, step) = bind_ok m (λ more. pure (more.0, more.1 + 1)) s r e in
      let same = ok_injective (ap (λ x. x.0) (sym step) ∙ e) in
      rw (← same) (invalid_one i found more.0 more.1 (h s more got))

  keep-Splits :
      (i : Item) (found : List Item) (number : M io ℕ) (m : M io (List LiveChunk × ℕ))
      (c : ℕ → LiveChunk)
      → ((seq : ℕ) → HasContent (c seq))
      → Splits found m
      → Splits (i ∷ found) (number >>= λ seq. m >>= λ more. pure (c seq ∷ more.0, more.1))
  keep-Splits i found number m c content h s r e =
      let (seq, numbered, step) =
        bind_ok number (λ seq. m >>= λ more. pure (c seq ∷ more.0, more.1)) s r e in
      let (more, got, step') =
        bind_ok m (λ more. pure (c seq ∷ more.0, more.1)) (number s).1 r
          (ap (λ x. x.0) (sym step) ∙ e) in
      let same = ok_injective (ap (λ x. x.0) (sym (step ∙ step')) ∙ e) in
      rw (← same) (one_more i found (c seq) more.0 more.1 (content seq) (h (number s).1 more got))

  nothing-Splits : Splits [] (pure ([], 0))
  nothing-Splits s r e =
      rw (← ok_injective e) (record { all_counted = omega arith; with_content = tt })

  parse_items-Splits :
      (meeting_id prefix : String) (idx : ℕ) (found : List Item)
      → Splits found (parse_items io cfg meeting_id prefix idx found)
  unfolding parse_items
  parse_items-Splits meeting_id prefix idx [] = nothing-Splits
  parse_items-Splits meeting_id prefix idx (no_object ∷ rest) =
      skip-Splits no_object rest (parse_items io cfg meeting_id prefix (suc idx) rest)
        (parse_items-Splits meeting_id prefix (suc idx) rest)
  parse_items-Splits meeting_id prefix idx (chunk c ∷ rest) =
      elim (Bool-cases (is_empty (content_of c))) [
        | inl blank ↦ rw blank (
            skip-Splits (chunk c) rest (parse_items io cfg meeting_id prefix (suc idx) rest)
              (parse_items-Splits meeting_id prefix (suc idx) rest))
        | inr full ↦ rw full (
            keep-Splits (chunk c) rest (seq_or_next io cfg meeting_id (parse_chunk_seq c.seq))
              (parse_items io cfg meeting_id prefix (suc idx) rest)
              (λ seq. record {
                chunk_id = chunk_id_of prefix idx c;
                seq = seq;
                content_b64 = content_of c;
              })
              (λ seq. full) (parse_items-Splits meeting_id prefix (suc idx) rest))
      ]

  -- A payload that is accepted is split completely: each of its items became a chunk that has content or was counted as
  -- invalid.
  pub parse_payload-IsSplit :
      (meeting_id prefix : String) (payload : Payload) (s : Service io) (chunks : List LiveChunk)
      (invalid : ℕ) (cursor : Option String)
      → (parse_payload io cfg meeting_id prefix payload s).0 ≡ ok (chunks, invalid, cursor)
      → (found : List Item) × (items_of payload ≡ ok found) × IsSplit found chunks invalid
  unfolding parse_payload
  parse_payload-IsSplit meeting_id prefix payload s chunks invalid cursor e =
      let parse : List Item → M io (List LiveChunk × ℕ) =
        λ is. parse_items io cfg meeting_id prefix 0 is in
      let answer : List LiveChunk × ℕ → M io (List LiveChunk × ℕ × Option String) =
        λ parsed. pure (parsed.0, parsed.1, next_cursor_of payload) in
      let (found, listed, step) =
        bind_ok (lift (items_of payload)) (λ is. parse is >>= answer) s (chunks, invalid, cursor)
          e in
      let (parsed, got, step') =
        bind_ok (parse found) answer s (chunks, invalid, cursor) (ap (λ x. x.0) (sym step) ∙ e) in
      let same = ok_injective (ap (λ x. x.0) (sym (step ∙ step')) ∙ e) in
      let split = parse_items-Splits meeting_id prefix 0 found s parsed got in
      (found, listed, rw (← ap (λ x. x.0) same, ← ap (λ x. x.1) same) split)

  counted_more :
      (is_duplicate : Bool) (cs : List LiveChunk) (c : LiveChunk) (more : ℕ × ℕ)
      → (more.0 ≡ length cs) × (more.1 ≤ more.0)
      → (more.0 + 1 ≡ length (c ∷ cs))
        × ((if is_duplicate then more.1 else more.1 + 1) ≤ more.0 + 1)
  counted_more true cs c more h = (omega (arith, h.0), omega (arith, h.1))
  counted_more false cs c more h = (omega (arith, h.0), omega (arith, h.1))

  -- Each chunk given is pulled once; at most as many were new.
  pub ingest_all-counts :
      (meeting_id : String) (chunks : List LiveChunk) (s : Service io) (r : ℕ × ℕ)
      → (ingest_all io cfg meeting_id chunks s).0 ≡ ok r
      → (r.0 ≡ length chunks) × (r.1 ≤ r.0)
  unfolding ingest_all
  ingest_all-counts meeting_id [] s r e = ground (arith, ok_injective e)
  ingest_all-counts meeting_id (c ∷ cs) s r e =
      let rest = ingest_all io cfg meeting_id cs in
      let take = call io (io.ingest meeting_id c.seq c.content_b64 c.chunk_id) in
      let answer : Bool → ℕ × ℕ → M io (ℕ × ℕ) =
        λ is_duplicate more. pure (more.0 + 1, if is_duplicate then more.1 else more.1 + 1) in
      let (is_duplicate, taken, step) = bind_ok take (λ d. rest >>= answer d) s r e in
      let (more, got, step') =
        bind_ok rest (answer is_duplicate) (take s).1 r (ap (λ x. x.0) (sym step) ∙ e) in
      let same = ok_injective (ap (λ x. x.0) (sym (step ∙ step')) ∙ e) in
      let ih = ingest_all-counts meeting_id cs (take s).1 more got in
      rw (← same) (counted_more is_duplicate cs c more ih)

  take_parsed-Few :
      (meeting_id : String) (parsed : List LiveChunk × ℕ × Option String)
      → Ensures Few (take_parsed io cfg meeting_id parsed)
  unfolding take_parsed finish_meeting
  take_parsed-Few meeting_id parsed =
      then-Ensures Few (save_cursor io cfg meeting_id parsed.2)
        (λ u. ingest_all io cfg meeting_id parsed.0 >>= finish_meeting io cfg meeting_id parsed.1)
        λ u.
          bind-Ensures (λ r. r.1 ≤ r.0) Few (ingest_all io cfg meeting_id parsed.0)
            (finish_meeting io cfg meeting_id parsed.1)
            (λ s r e. (ingest_all-counts meeting_id parsed.0 s r e).1)
            λ counts few.
              then-Ensures Few (touch_if io cfg (leb 1 counts.0) meeting_id)
                (λ u. pure (counts.0, counts.1, parsed.1))
                λ u. pure-Ensures Few (counts.0, counts.1, parsed.1) few

  -- Of the chunks that one meeting's pull took, at most all were new.
  pull_meeting-Few :
      (meeting_id : String) (batch_limit : ℕ)
      → Ensures Few (pull_meeting io cfg meeting_id batch_limit)
  unfolding pull_meeting
  pull_meeting-Few meeting_id batch_limit =
      let provider = normalize cfg.meeting_connector_provider in
      let pull = λ (p : Provider).
        fetch_parsed io cfg p meeting_id batch_limit >>= take_parsed io cfg meeting_id in
      if-Ensures Few (is_empty provider || provider == "none") (pure (0, 0, 0))
        (lift (resolve_connector cfg) >>= pull) (pure-Ensures Few (0, 0, 0) (omega arith))
        (then-Ensures Few (lift (resolve_connector cfg)) pull λ p.
          then-Ensures Few (fetch_parsed io cfg p meeting_id batch_limit)
            (take_parsed io cfg meeting_id) (take_parsed-Few meeting_id))

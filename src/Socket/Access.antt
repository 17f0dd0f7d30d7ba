-- ===== src/Socket/Access.antt =====
-- Which check of apps/api_gateway/ws.py comes before the chunks that a connection takes.
use interview_analytics_agen.Common.{
  true, false, Option, none, some, List, [], ◌∷◌, ◌++◌, is_empty, ◌==◌, if◌then◌else◌, ◌≡◌, ◌≢◌,
  ◌⊎◌, refl, ap, ◌∙◌, arith, Bool-cases, inl, inr,
}
use interview_analytics_agen.Common.Exec.{ok, ◌>>◌, pure, Result-cases}
use interview_analytics_agen.Common.Value.{Dict}
use interview_analytics_agen.Settings.{Settings}
use interview_analytics_agen.Security.Auth.{AuthContext}
use interview_analytics_agen.Security.Tenancy.{enforce_meeting_access}
use interview_analytics_agen.Socket.{
  Event, Frame, no_json, no_object, event, Denial, Reply, ErrorCode, Outside, Connection, send_text,
  take_event, check_meeting, after_check, check_and_take, needs_check, handle_chunk, handle_frame,
  serve_frames, with_world,
}
use interview_analytics_agen.Socket.Kept.{Keeps, bind-Keeps, progress, complain-Keeps}

module _ (out : Outside) (cfg : Settings) where
  module _ (ctx : AuthContext) where
    -- The caller's token allows the meeting with the context.
    abbrev pub IsAllowed : Option Dict → Type 0
    IsAllowed found =
        (context : Dict) × (found ≡ some context) × (enforce_meeting_access cfg ctx context ≡ ok tt)

    check_meeting-cases :
        (found : Option Dict)
        → ((d : Denial) × (check_meeting out cfg ctx false found ≡ some d))
          ⊎ ((check_meeting out cfg ctx false found ≡ none) × IsAllowed found)
    check_meeting-cases none = inl (Denial.not_found, refl)
    check_meeting-cases (some context) =
        elim (Result-cases (enforce_meeting_access cfg ctx context)) [
          | inl (_, e) ↦ inr (rw e refl, (context, refl, e))
          | inr (x, e) ↦ inl (Denial.denied x, rw e refl)
        ]

    -- One of the frames is an event whose meeting the database has when its turn comes, after the frames
    -- before it, and the caller may access that meeting.
    abbrev pub HasAccess : List Frame → Connection out → Type 0
    HasAccess frames c =
        (before : List Frame) × (e : Event) × (later : List Frame) × (frames
          ≡ before ++ (event e ∷ later))
        × (found : Option Dict) × ((out.find_meeting e.meeting_id
              (serve_frames out cfg ctx false before c).process.world).0
            ≡ ok found)
        × IsAllowed found

    -- Nothing was checked and nothing taken, or the frame is an event whose meeting was accessible.
    abbrev IsGuarded : Frame → Connection out → Connection out → Type 0
    IsGuarded frame c after =
        (progress out after ≡ (false, []))
        ⊎ ((e : Event) × (frame ≡ event e)
            × (found : Option Dict) × ((out.find_meeting e.meeting_id c.process.world).0 ≡ ok found)
            × IsAllowed found)

    refuse-Keeps :
        (e : Event) (d : Denial)
        → Keeps out (progress out) (after_check out cfg ctx false e (some d))
    refuse-Keeps e d =
        bind-Keeps out (progress out) (send_text out cfg (Reply.error (ErrorCode.forbidden d)))
          (λ _. send_text out cfg (Reply.closed d) >> pure false) (λ c. refl)
          λ _.
            bind-Keeps out (progress out) (send_text out cfg (Reply.closed d)) (λ _. pure false)
              (λ c. refl) (λ _ c. refl)

    check_and_take-IsGuarded :
        (e : Event) (c : Connection out)
        → progress out c ≡ (false, [])
        → IsGuarded (event e) c (check_and_take out cfg ctx false e c).1
    unfolding check_and_take
    check_and_take-IsGuarded e c h =
        let find = out.find_meeting e.meeting_id c.process.world in
        elim (Result-cases find.0) [
          | inr (x, failed) ↦ inl (rw failed h)
          | inl (found, got) ↦ elim (check_meeting-cases found) [
            | inl (d, refused) ↦
                inl (rw got (rw refused (refuse-Keeps e d (with_world out find.1 c) ∙ h)))
            | inr (_, allowed) ↦ inr (e, refl, found, got, allowed)
          ]
        ]

    -- What ends the connection or goes on keeps the guard.
    handle_chunk-IsGuarded :
        (e : Event) (c : Connection out)
        → cfg.tenant_enforcement_enabled ≡ true
        → progress out c ≡ (false, [])
        → IsGuarded (event e) c (handle_chunk out cfg ctx false e c).1
    unfolding handle_chunk
    handle_chunk-IsGuarded e c on h =
        let needed : needs_check out cfg ctx false c ≡ true = ground (arith, on, ap (λ p. p.0) h) in
        let ran =
          ap (λ b. if b then check_and_take out cfg ctx false e c else take_event out cfg e c)
            needed in
        rw ran (check_and_take-IsGuarded e c h)

    handle_frame-IsGuarded :
        (frame : Frame) (c : Connection out)
        → cfg.tenant_enforcement_enabled ≡ true
        → progress out c ≡ (false, [])
        → IsGuarded frame c (handle_frame out cfg ctx false frame c).1
    unfolding handle_frame
    handle_frame-IsGuarded no_json c on h = inl (complain-Keeps out cfg ErrorCode.bad_json c ∙ h)
    handle_frame-IsGuarded no_object c on h = inl h
    handle_frame-IsGuarded (event e) c on h = elim (Bool-cases (e.event_type == "audio.chunk")) [
      | inr other ↦ inl (rw other (complain-Keeps out cfg ErrorCode.bad_event c ∙ h))
      | inl same ↦ elim (Bool-cases (is_empty e.meeting_id)) [
        | inl nameless ↦
            inl (rw same (rw nameless (complain-Keeps out cfg ErrorCode.no_meeting_id c ∙ h)))
        | inr named ↦ rw same (rw named (handle_chunk-IsGuarded e c on h))
      ]
    ]

    serve_frames-guarded :
        (frames : List Frame) (c : Connection out)
        → cfg.tenant_enforcement_enabled ≡ true
        → progress out c ≡ (false, [])
        → (progress out (serve_frames out cfg ctx false frames c) ≡ (false, []))
          ⊎ HasAccess frames c
    unfolding serve_frames
    serve_frames-guarded [] c on h = inl h
    serve_frames-guarded (frame ∷ frames) c on h =
        let c' = (handle_frame out cfg ctx false frame c).1 in
        elim (handle_frame-IsGuarded frame c on h) [
          | inr (e, same, found, got, allowed) ↦
              inr ([], e, frames, ap (λ x. x ∷ frames) same, found, got, allowed)
          | inl kept ↦ elim (Result-cases (handle_frame out cfg ctx false frame c).0) [
            | inl (false, e) ↦ inl (rw e kept)
            | inr (x, e) ↦ inl (rw e kept)
            | inl (true, e) ↦ elim (serve_frames-guarded frames c' on kept) [
              | inl still ↦ inl (rw e still)
              | inr (before, chunk, later, split, found, got, allowed) ↦ inr (
                frame ∷ before,
                chunk,
                later,
                ap (λ l. frame ∷ l) split,
                found,
                rw e got,
                allowed,
              )
            ]
          ]
        ]

    -- Under enforcement a user's new connection hands a chunk to the ingest only if one of the client's
    -- events names a meeting that the database has when that event's turn comes, after the frames before
    -- it, and that the caller may access. It need not be the meeting of the chunk.
    pub taken_after_check :
        (frames : List Frame) (c : Connection out)
        → cfg.tenant_enforcement_enabled ≡ true
        → c.meeting_checked ≡ false
        → c.taken ≡ []
        → (serve_frames out cfg ctx false frames c).taken ≢ []
        → HasAccess frames c
    taken_after_check frames c on fresh nothing took =
        let start = ap (λ b. (b, c.taken)) fresh ∙ ap (λ l. (false, l)) nothing in
        elim (serve_frames-guarded frames c on start) [
          | inl h ↦ absurd (took (ap (λ p. p.1) h))
          | inr accessible ↦ accessible
        ]

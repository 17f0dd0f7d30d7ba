-- ===== src/Socket/Forgotten.antt =====
-- What a connection of apps/api_gateway/ws.py does once `meeting_checked` is set.
use interview_analytics_agen.Common.{
  Bool, true, false, List, [], ◌∷◌, is_empty, ◌==◌, if◌then◌else◌, ◌≡◌, refl, sym, ap, ◌∙◌, arith,
  Bool-cases, inl, inr,
}
use interview_analytics_agen.Common.Exec.{Result, ok, raised}
use interview_analytics_agen.Settings.{Settings}
use interview_analytics_agen.Security.Auth.{AuthContext}
use interview_analytics_agen.Socket.{
  Event, Frame, no_json, no_object, event, ErrorCode, Fatal, Outside, Connection, take_event,
  check_and_take, needs_check, go_on, handle_chunk, handle_frame, serve_frames,
}
use interview_analytics_agen.Socket.Kept.{complain-Keeps, take_event-Keeps}

module _ (out : Outside) (cfg : Settings) where
  module _ (ctx : AuthContext) (service_only : Bool) where
    handle_chunk-checked :
        (e : Event) (c : Connection out)
        → c.meeting_checked ≡ true
        → handle_chunk out cfg ctx service_only e c ≡ take_event out cfg e c
    unfolding handle_chunk
    handle_chunk-checked e c h =
        let needless : needs_check out cfg ctx service_only c ≡ false = ground (arith, h) in
        ap (λ b. if b then check_and_take out cfg ctx service_only e c else take_event out cfg e c)
          needless

    handle_frame-checked :
        (frame : Frame) (c : Connection out)
        → c.meeting_checked ≡ true
        → (handle_frame out cfg ctx service_only frame c).1.meeting_checked ≡ true
    unfolding handle_frame
    handle_frame-checked no_json c h =
        ap (λ p. p.0) (complain-Keeps out cfg ErrorCode.bad_json c) ∙ h
    handle_frame-checked no_object c h = h
    handle_frame-checked (event e) c h = elim (Bool-cases (e.event_type == "audio.chunk")) [
      | inr other ↦ rw other (ap (λ p. p.0) (complain-Keeps out cfg ErrorCode.bad_event c) ∙ h)
      | inl same ↦ elim (Bool-cases (is_empty e.meeting_id)) [
        | inl nameless ↦
            rw same
              (rw nameless (ap (λ p. p.0) (complain-Keeps out cfg ErrorCode.no_meeting_id c) ∙ h))
        | inr named ↦ rw same (
            rw named (
              ap (λ p. p.1.meeting_checked) (handle_chunk-checked e c h)
              ∙ take_event-Keeps out cfg e c
              ∙ h))
      ]
    ]

  module _ (ctx ctx' : AuthContext) (service_only : Bool) where
    same_turn :
        (frame : Frame) (c : Connection out)
        → c.meeting_checked ≡ true
        → handle_frame out cfg ctx service_only frame c
          ≡ handle_frame out cfg ctx' service_only frame c
    unfolding handle_frame
    same_turn no_json c h = refl
    same_turn no_object c h = refl
    same_turn (event e) c h =
        let same =
          handle_chunk-checked ctx service_only e c h
          ∙ sym (handle_chunk-checked ctx' service_only e c h) in
        elim (Bool-cases (e.event_type == "audio.chunk")) [
          | inr other ↦ rw other refl
          | inl chunk ↦ elim (Bool-cases (is_empty e.meeting_id)) [
            | inl nameless ↦ rw chunk (rw nameless refl)
            | inr named ↦ rw chunk (rw named same)
          ]
        ]

    go_on-same :
        (r : Result Fatal Bool) (f g : Connection out → Connection out) (c : Connection out)
        → f c ≡ g c
        → go_on out cfg r f c ≡ go_on out cfg r g c
    go_on-same (ok true) f g c h = h
    go_on-same (ok false) f g c h = refl
    go_on-same (raised e) f g c h = refl

    -- Once a connection has checked a meeting, what it does with the frames that follow, the chunks of any
    -- other meeting included, does not depend on who the caller is.
    pub caller_forgotten :
        (frames : List Frame) (c : Connection out)
        → c.meeting_checked ≡ true
        → serve_frames out cfg ctx service_only frames c
          ≡ serve_frames out cfg ctx' service_only frames c
    unfolding serve_frames
    caller_forgotten [] c h = refl
    caller_forgotten (frame ∷ frames) c h =
        let turn = same_turn frame c h in
        let r = (handle_frame out cfg ctx service_only frame c).0 in
        let c' = (handle_frame out cfg ctx service_only frame c).1 in
        let later = caller_forgotten frames c' (handle_frame-checked ctx service_only frame c h) in
        go_on-same r (serve_frames out cfg ctx service_only frames)
          (serve_frames out cfg ctx' service_only frames) c' later
        ∙ ap (λ t. go_on out cfg t.0 (serve_frames out cfg ctx' service_only frames) t.1) turn

-- ===== src/Server/Handlers/Trace.antt =====
-- What a TranscribeSegment that replies has done.
use audio_service.Base.{◌≡◌, ap, ◌∙◌, inl, inr, List, [], ◌∷◌, ◌++◌, arith}
use audio_service.Base.Text.{Text, trim_space}
use audio_service.Base.Float.{Floats}
use audio_service.Fault.{Error, Result, ok, err}
use audio_service.Effects.{
  incoming, with_timeout, World, Event, take_slot, free_slot, active_up, active_down, exec, ask,
}
use audio_service.AudioEngine.Segment.{SegmentAudio, not_negative, cut_command, segment_cut}
use audio_service.AudioEngine.Segment.Cut.{
  IsWhole, cut_exit, segment_cut-IsWhole, segment_cut-events,
}
use audio_service.Transcribe.Client.{transcribe}
use audio_service.Transcribe.Client.Success.{transcribe-events}
use audio_service.Transcribe.Request.{request_of}
use audio_service.Server.{Server, TranscribeSegmentRequest, TranscribeSegmentResponse}
use audio_service.Server.Status.{Status, map_engine_err, map_transcribe_err}
use audio_service.Server.Handlers.{
  Call, continue, step, reply, replied, model_of, segment_of, transcribe_response,
  cut_and_transcribe, handle_transcribe_segment,
}
use audio_service.Server.Handlers.Contract.{continue-replied, handle_transcribe_segment-guards}
use mathlib.Core.List.{flatten}

continue-events :
    {A B : Type 0} (es : List Event) (r : Result A) (to_status : Error → Status) (f : A → Call B)
    {a : A}
    → r ≡ ok a
    → (continue es r to_status f).events ≡ es ++ (f a).events
continue-events es (ok a) to_status f h = ground arith
continue-events es (err e) to_status f h = cc

module _ (fl : Floats) (s : Server) (w : World) (req : TranscribeSegmentRequest) where
  abbrev url : Text
  url = trim_space req.normalized_url

  -- The events of a call that has cut the audio `seg`.
  abbrev pub cut_and_asked : SegmentAudio → List Event
  cut_and_asked seg =
      take_slot
      ∷ active_up
      ∷ exec (with_timeout incoming s.engine.transcribe_timeout)
          (cut_command fl s.engine url (not_negative req.start_ms) req.end_ms)
      ∷ free_slot
      ∷ active_down
      ∷ ask incoming (request_of (segment_of req seg (model_of s req)))
      ∷ []

  -- What was cut, and in which order things were done.
  pub record IsTrace (c : Call TranscribeSegmentResponse) : Type 0 where
    pub seg : SegmentAudio
    pub whole :
        IsWhole (flatten (cut_exit fl w s.engine incoming url req.start_ms req.end_ms).stdout) seg
    pub order : c.events ≡ cut_and_asked seg

  cut_and_transcribe-IsTrace :
      (resp : TranscribeSegmentResponse)
      → (cut_and_transcribe fl s w req url (model_of s req)).outcome ≡ replied resp
      → IsTrace (cut_and_transcribe fl s w req url (model_of s req))
  unfolding cut_and_transcribe
  cut_and_transcribe-IsTrace resp h =
      let cut = segment_cut fl w s.engine incoming url req.start_ms req.end_ms in
      let (seg, sound, h1) = continue-replied cut.events cut.result map_engine_err _ h in
      let asked = transcribe fl w s.transcriber incoming (segment_of req seg (model_of s req)) in
      let (res, told, h2) = continue-replied asked.events asked.result map_transcribe_err _ h1 in
      let seg' = segment_of req seg (model_of s req) in
      let inner : (step asked map_transcribe_err (λ r. reply (transcribe_response r))).events
          ≡ ask incoming (request_of seg') ∷ [] =
        continue-events asked.events asked.result map_transcribe_err
          (λ r. reply (transcribe_response r)) told
        ∙ ap (λ es. es ++ []) (transcribe-events fl w s.transcriber incoming seg' told) in
      record {
        seg = seg;
        whole =
            (segment_cut-IsWhole fl w s.engine incoming url req.start_ms req.end_ms seg sound).1;
        order =
            continue-events cut.events cut.result map_engine_err _ sound
            ∙ (ap
                  (λ es.
                    es
                    ++ (step asked map_transcribe_err (λ r. reply (transcribe_response r))).events)
                  (segment_cut-events fl w s.engine incoming url req.start_ms req.end_ms seg sound)
                ∙ ap
                    (λ es.
                      take_slot
                      ∷ active_up
                      ∷ exec (with_timeout incoming s.engine.transcribe_timeout)
                          (cut_command fl s.engine url (not_negative req.start_ms) req.end_ms)
                      ∷ free_slot
                      ∷ active_down
                      ∷ es)
                    inner);
      }

  -- A call that replies has marked the engine as active, taken a slot, run ffmpeg once, for the
  -- window of the request and with the deadline for a transcription, freed the slot, asked Gemini
  -- once, about the whole output of that run and the window and model of the request, and then
  -- ended the mark; it has done nothing else.
  pub handle_transcribe_segment-IsTrace :
      (resp : TranscribeSegmentResponse)
      → (handle_transcribe_segment fl s w req).outcome ≡ replied resp
      → (seg : SegmentAudio) × IsWhole
          (flatten (cut_exit fl w s.engine incoming url req.start_ms req.end_ms).stdout)
          seg
        × ((handle_transcribe_segment fl s w req).events
            ≡ (active_up ∷ cut_and_asked seg) ++ active_down ∷ [])
  handle_transcribe_segment-IsTrace resp h = elim (handle_transcribe_segment-guards fl s w req) [
    | inl (valid, same) ↦
        let t = cut_and_transcribe-IsTrace resp (rw same at h) in
        (
          t.seg,
          t.whole,
          ap (λ c. c.events) same ∙ ap (λ es. (active_up ∷ es) ++ active_down ∷ []) t.order,
        )
    | inr (idle, blamed) ↦ ground (arith, rw h at blamed)
  ]

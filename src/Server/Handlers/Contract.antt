-- ===== src/Server/Handlers/Contract.antt =====
-- What the handlers of internal/server/server.go promise of a reply.
use audio_service.Base.{
  ◌<◌, ◌≡◌, refl, ◌⊎◌, inl, inr, true, false, Bool-cases, Option, none, some, List, [], All, length,
  arith,
}
use audio_service.Base.Int.{ℤ, pos, ltb_ℤ, leb_ℤ, ◌≤ℤ◌, ◌<ℤ◌}
use audio_service.Base.Text.{is_empty, trim_space}
use audio_service.Base.Float.{Floats}
use audio_service.Fault.{Error, Result, ok, err}
use audio_service.Effects.{incoming, World, Event}
use audio_service.AudioEngine.Segment.{SegmentAudio, segment_cut}
use audio_service.Genai.{GenResponse}
use audio_service.Transcribe.Client.Success.{transcribe-ok, result_of_response-rebased}
use audio_service.Transcribe.{Segment, TranscribeResult, Utterance}
use audio_service.Transcribe.Client.{available, transcribe, result_of_response}
use audio_service.Transcribe.Rebase.Window.{
  InWindow, length-rebase_utterances, rebase_utterances-InWindow,
}
use audio_service.Server.{Server, TranscribeSegmentRequest, TranscribeSegmentResponse}
use audio_service.Server.Status.{
  Code, Status, code_invalid_argument, code_unavailable, map_engine_err, map_transcribe_err,
}
use audio_service.Server.Handlers.{
  Outcome, replied, failed, Call, reply, continue, transcribe_response, with_hold, model_of,
  segment_of, cut_and_transcribe, handle_transcribe_segment,
}

-- A stretch of time from `lo` to `hi`.
abbrev pub Between : ℤ → ℤ → Utterance → Type 0
Between lo hi u = (lo ≤ℤ u.start_ms) × (u.start_ms ≤ℤ u.end_ms) × (u.end_ms ≤ℤ hi)

-- The code of a failed call.
abbrev pub outcome_code : {A : Type 0} → Outcome A → Option Code
outcome_code (replied a) = none
outcome_code (failed st) = some st.code

-- What the guards of TranscribeSegment ask of a request.
pub record IsValid (s : Server) (req : TranscribeSegmentRequest) : Type 0 where
  pub named : is_empty (trim_space req.normalized_url) ≡ false
  pub forward : pos 0 ≤ℤ req.start_ms
  pub nonempty : req.start_ms <ℤ req.end_ms
  pub keyed : available s.transcriber ≡ true
  pub modelled : is_empty (model_of s req) ≡ false

-- No URL, or no window.
abbrev pub IsMalformed : TranscribeSegmentRequest → Type 0
IsMalformed req =
    (is_empty (trim_space req.normalized_url) ≡ true)
    ⊎ ((req.start_ms <ℤ pos 0) ⊎ (req.end_ms ≤ℤ req.start_ms))

pub continue-replied :
    {A B : Type 0} (es : List Event) (r : Result A) (to_status : Error → Status) (f : A → Call B)
    {b : B}
    → (continue es r to_status f).outcome ≡ replied b
    → (a : A) × (r ≡ ok a) × ((f a).outcome ≡ replied b)
continue-replied es (ok a) to_status f h = (a, refl, h)
continue-replied es (err e) to_status f h = cc

result_of_response-InWindow :
    (fl : Floats) (seg : Segment) (resp : GenResponse) (res : TranscribeResult)
    → seg.start_ms ≤ℤ seg.end_ms
    → result_of_response fl seg resp ≡ ok res
    → All (InWindow seg) res.utterances × (0 < length res.utterances)
result_of_response-InWindow fl seg resp res ordered h =
    let (us, e) = result_of_response-rebased fl seg resp res h in
    rw e (rebase_utterances-InWindow us seg ordered, omega (arith, length-rebase_utterances us seg))

module _ (fl : Floats) (s : Server) (w : World) (req : TranscribeSegmentRequest) where
  abbrev handled : Call TranscribeSegmentResponse
  handled = handle_transcribe_segment fl s w req

  abbrev admitted : Call TranscribeSegmentResponse
  admitted =
      with_hold (cut_and_transcribe fl s w req (trim_space req.normalized_url) (model_of s req))

  -- Either the request passes all the guards and is worked on under a hold; or it has no effect at
  -- all, and the status says why. That is InvalidArgument where the URL is blank or the window starts
  -- before 0 or is empty, or where there is a key but no model; and it is Unavailable where there is
  -- no key.
  pub handle_transcribe_segment-guards :
      (IsValid s req × (handled ≡ admitted))
      ⊎ ((handled.events ≡ [])
          × (((outcome_code handled.outcome ≡ some code_invalid_argument)
                × (IsMalformed req
                    ⊎ ((available s.transcriber ≡ true) × (is_empty (model_of s req) ≡ true))))
              ⊎ ((outcome_code handled.outcome ≡ some code_unavailable)
                  × (available s.transcriber ≡ false))))
  unfolding handle_transcribe_segment
  handle_transcribe_segment-guards = elim (Bool-cases (is_empty (trim_space req.normalized_url))) [
    | inl e1 ↦ inr (rw e1 (refl, inl (refl, inl (inl refl))))
    | inr e1 ↦ elim (Bool-cases (ltb_ℤ req.start_ms (pos 0))) [
      | inl e2 ↦
          let early : req.start_ms <ℤ pos 0 = ground (arith, e2) in
          inr (rw e1 (rw e2 (refl, inl (refl, inl (inr (inl early))))))
      | inr e2 ↦ elim (Bool-cases (leb_ℤ req.end_ms req.start_ms)) [
        | inl e3 ↦
            let empty : req.end_ms ≤ℤ req.start_ms = ground (arith, e3) in
            inr (rw e1 (rw e2 (rw e3 (refl, inl (refl, inl (inr (inr empty)))))))
        | inr e3 ↦ elim (Bool-cases (available s.transcriber)) [
          | inr e4 ↦ inr (rw e1 (rw e2 (rw e3 (rw e4 (refl, inr (refl, refl))))))
          | inl e4 ↦ elim (Bool-cases (is_empty (model_of s req))) [
            | inl e5 ↦
                inr (rw e1 (rw e2 (rw e3 (rw e5 (rw e4 (refl, inl (refl, inr (refl, refl))))))))
            | inr e5 ↦ inl (
              record {
                named = e1;
                forward = ground arith;
                nonempty = ground arith;
                keyed = e4;
                modelled = e5;
              },
              ground arith,
            )
          ]
        ]
      ]
    ]
  ]

  -- The reply holds at least one utterance; each lies in the window of the request.
  pub record IsTranscript (resp : TranscribeSegmentResponse) : Type 0 where
    pub inside : All (Between req.start_ms req.end_ms) resp.utterances
    pub some_utterance : 0 < length resp.utterances

  transcribe-IsTranscript :
      (seg : SegmentAudio) (res : TranscribeResult)
      → req.start_ms ≤ℤ req.end_ms
      → (transcribe fl w s.transcriber incoming (segment_of req seg (model_of s req))).result
        ≡ ok res
      → IsTranscript (transcribe_response res)
  transcribe-IsTranscript seg res ordered h =
      let (resp, asked, read) =
        transcribe-ok fl w s.transcriber incoming (segment_of req seg (model_of s req)) h in
      let inside =
        result_of_response-InWindow fl (segment_of req seg (model_of s req)) resp res ordered
          read in
      record { inside = inside.0; some_utterance = inside.1 }

  cut_and_transcribe-IsTranscript :
      (resp : TranscribeSegmentResponse)
      → req.start_ms ≤ℤ req.end_ms
      → (cut_and_transcribe fl s w req (trim_space req.normalized_url) (model_of s req)).outcome
        ≡ replied resp
      → IsTranscript resp
  unfolding cut_and_transcribe
  cut_and_transcribe-IsTranscript resp ordered h =
      let cut =
        segment_cut fl w s.engine incoming (trim_space req.normalized_url) req.start_ms
          req.end_ms in
      let (seg, sound, h1) = continue-replied cut.events cut.result map_engine_err _ h in
      let asked = transcribe fl w s.transcriber incoming (segment_of req seg (model_of s req)) in
      let (res, told, h2) =
        continue-replied asked.events asked.result map_transcribe_err
          (λ res. reply (transcribe_response res)) h1 in
      let same : transcribe_response res ≡ resp = ground arith in
      rw same at (transcribe-IsTranscript seg res ordered told)

  -- A call that replies was of a request that passes all the guards: the URL is not blank, the
  -- window does not start before 0 and is not empty, there is a key and a model. The reply has at
  -- least one utterance, and each of them starts no earlier than the window, ends no later than it,
  -- and does not end before its start.
  pub handle_transcribe_segment-IsTranscript :
      (resp : TranscribeSegmentResponse)
      → handled.outcome ≡ replied resp
      → IsValid s req × IsTranscript resp
  handle_transcribe_segment-IsTranscript resp h = elim handle_transcribe_segment-guards [
    | inl (valid, same) ↦ (
      valid,
      cut_and_transcribe-IsTranscript resp (ground (arith, valid.nonempty)) (rw same at h),
    )
    | inr (idle, blamed) ↦ ground (arith, rw h at blamed)
  ]

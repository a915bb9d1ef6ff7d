-- ===== src/Server/Handlers/Delivers.antt =====
-- When the handlers of internal/server/server.go reply.
use audio_service.Base.{Bool, ◌||◌, ◌≡◌, refl, ◌∙◌, false, List, arith, none}
use audio_service.Base.Int.{ℤ, pos, ltb_ℤ, leb_ℤ, wrap32}
use audio_service.Base.Text.{Text, text_eq, is_empty, is_blank, trim_space}
use audio_service.Base.Text.Laws.{is_blank-trim_space}
use audio_service.Base.Float.{Floats}
use audio_service.Fault.{Error, Result, ok}
use audio_service.Genai.{GenResponse}
use audio_service.Effects.{Ctx, incoming, with_timeout, World, Event}
use audio_service.AudioEngine.Probe.{FfprobeOutput, FfprobeStream}
use audio_service.AudioEngine.Probe.Output.{duration_of, parse_int_field}
use audio_service.AudioEngine.Probe.Success.{Readable, probe-succeeds}
use audio_service.AudioEngine.Probe.Verdict.{heard, pass}
use audio_service.AudioEngine.Normalize.Delivery.{rate_or_default}
use audio_service.AudioEngine.Normalize.Success.{Accepts, normalised, normalize_audio-succeeds}
use audio_service.AudioEngine.Segment.{segment_cut}
use audio_service.AudioEngine.Segment.Cut.{cut_exit}
use audio_service.AudioEngine.Segment.Success.{
  GoesWell, whole_audio, nonempty, segment_cut-succeeds,
}
use audio_service.Transcribe.{Segment, ModelReply}
use audio_service.Transcribe.Rebase.{rebase_utterances}
use audio_service.Transcribe.Reply.{parse_model_json}
use audio_service.Transcribe.Request.{request_of}
use audio_service.Transcribe.Client.{
  finish_reason, finish_reason_max_tokens, usage_tokens, transcribe,
}
use audio_service.Transcribe.Client.Success.{transcribe-succeeds}
use audio_service.Server.{
  Server, ProbeRequest, NormalizeRequest, TranscribeSegmentRequest, TranscribeSegmentResponse,
}
use audio_service.Server.Status.{Status, map_engine_err, map_transcribe_err}
use audio_service.Server.Handlers.{
  Call, Outcome, replied, continue, model_of, segment_of, cut_and_transcribe,
  handle_transcribe_segment, handle_probe, handle_normalize, normalize_response,
}
use audio_service.Server.Handlers.Contract.{IsValid}

continue-done :
    {A B : Type 0} (es : List Event) (r : Result A) (to_status : Error → Status) (f : A → Call B)
    {a : A} {o : Outcome B}
    → r ≡ ok a
    → (f a).outcome ≡ o
    → (continue es r to_status f).outcome ≡ o
continue-done es r to_status f h k = rw h k

module _ (fl : Floats) (s : Server) (w : World) (req : TranscribeSegmentRequest) where
  abbrev pub url : Text
  url = trim_space req.normalized_url

  -- What is asked of Gemini.
  abbrev pub asked : Segment
  asked =
      segment_of req (whole_audio (cut_exit fl w s.engine incoming url req.start_ms req.end_ms))
        (model_of s req)

  -- The world does its part: a slot is free, ffmpeg succeeds, and Gemini answers with a text that is
  -- read as a reply and was not cut off.
  pub record Answers (resp : GenResponse) (r : ModelReply) : Type 0 where
    pub cut : GoesWell fl w s.engine incoming url req.start_ms req.end_ms
    pub answered : w.generate incoming (request_of asked) ≡ ok resp
    pub complete : text_eq (finish_reason resp) finish_reason_max_tokens ≡ false
    pub read : parse_model_json fl resp.text ≡ ok r

  abbrev pub response_of : GenResponse → ModelReply → TranscribeSegmentResponse
  response_of resp r = record {
    detected_language = r.detected_language;
    utterances = rebase_utterances r.utterances asked;
    input_tokens = (usage_tokens resp).0;
    output_tokens = (usage_tokens resp).1;
  }

  cut_and_transcribe-replies :
      (resp : GenResponse) (r : ModelReply)
      → IsValid s req
      → is_blank (model_of s req) ≡ false
      → Answers resp r
      → (cut_and_transcribe fl s w req url (model_of s req)).outcome ≡ replied (response_of resp r)
  unfolding cut_and_transcribe
  cut_and_transcribe-replies resp r v modelled a =
      continue-done (segment_cut fl w s.engine incoming url req.start_ms req.end_ms).events _
        map_engine_err _
        (segment_cut-succeeds fl w s.engine incoming url req.start_ms req.end_ms
          (is_blank-trim_space req.normalized_url ∙ v.named) (ground (arith, v.nonempty)) a.cut)
        (continue-done (transcribe fl w s.transcriber incoming asked).events _ map_transcribe_err _
          (transcribe-succeeds fl w s.transcriber incoming asked resp r v.keyed modelled
            (nonempty _ a.cut.some_audio) a.answered a.complete a.read)
          refl)

  pub admitted-outcome :
      IsValid s req
      → (handle_transcribe_segment fl s w req).outcome
        ≡ (cut_and_transcribe fl s w req url (model_of s req)).outcome
  unfolding handle_transcribe_segment
  admitted-outcome v =
      let forward : ltb_ℤ req.start_ms (pos 0) ≡ false = ground (arith, v.forward) in
      let ordered : leb_ℤ req.end_ms req.start_ms ≡ false = ground (arith, v.nonempty) in
      rw v.named (rw forward (rw ordered (rw v.modelled (rw v.keyed refl))))

  -- TranscribeSegment replies, if the request passes the guards with a model that is not blank, a
  -- slot is free, ffmpeg ends without an error and writes at least one byte and at most 64 MiB, and
  -- Gemini answers with a text that is read as a reply and was not cut off for its length. The
  -- response has the language of that reply, its utterances moved onto the window of the request,
  -- and the token counts of the answer.
  pub handle_transcribe_segment-replies :
      (resp : GenResponse) (r : ModelReply)
      → IsValid s req
      → is_blank (model_of s req) ≡ false
      → Answers resp r
      → (handle_transcribe_segment fl s w req).outcome ≡ replied (response_of resp r)
  handle_transcribe_segment-replies resp r v modelled a =
      admitted-outcome v ∙ cut_and_transcribe-replies resp r v modelled a

module _ (fl : Floats) (s : Server) (w : World) (req : ProbeRequest) where
  abbrev pub probe_url : Text
  probe_url = trim_space req.source_url

  abbrev pub probe_ctx : Ctx
  probe_ctx = with_timeout incoming s.engine.probe_timeout

  -- The verdict on silence.
  abbrev pub is_silent : ℤ → Bool
  is_silent ms = leb_ℤ ms (pos 0) || heard (pass fl w s.engine probe_ctx probe_url ms)

  -- Probe replies, if the URL is not blank, a slot is free, and ffprobe ends without an error, prints
  -- at most its limit of bytes, and reports a stream of the type audio. The response is about the
  -- first such stream, with channels and rate cut to int32; it says silent exactly if the duration
  -- is not positive or the second pass ends without an error and finds silence throughout, so silence
  -- is no error.
  pub handle_probe-replies :
      (output : FfprobeOutput) (stream : FfprobeStream)
      → is_empty probe_url ≡ false
      → w.slot incoming ≡ none
      → Readable fl w s.engine probe_ctx probe_url output stream
      → (handle_probe fl s w req).outcome
        ≡ replied (record {
          duration_ms = duration_of fl output.format.duration stream.duration;
          channels = wrap32 stream.channels;
          sample_rate = wrap32 (parse_int_field stream.sample_rate);
          container = output.format.format_name;
          codec = stream.codec_name;
          silent = is_silent (duration_of fl output.format.duration stream.duration);
        })
  unfolding handle_probe
  handle_probe-replies output stream named free r = rw named (
      rw
        (probe-succeeds fl w s.engine incoming probe_url output stream
          (is_blank-trim_space req.source_url ∙ named) free r)
        refl)

module _ (fl : Floats) (s : Server) (w : World) (req : NormalizeRequest) where
  abbrev pub source : Text
  source = trim_space req.source_url

  abbrev pub destination : Text
  destination = trim_space req.dest_put_url

  -- Normalize replies, if neither URL is blank, a slot is free, the temporary file can be made, read
  -- and rewound, ffmpeg ends without an error and writes something, and the destination answers the
  -- upload with a status from 200 to 299. The response has the rate that was asked for or the
  -- engine's, one channel, the number of bytes, and the duration of the source, or 0 where that
  -- cannot be read.
  pub handle_normalize-replies :
      is_empty source ≡ false
      → is_empty destination ≡ false
      → w.slot incoming ≡ none
      → Accepts w s.engine
          (with_timeout incoming s.engine.normalize_timeout)
          source
          destination
          (rate_or_default s.engine req.target_sample_rate)
      → (handle_normalize fl s w req).outcome
        ≡ replied (
            normalize_response (normalised fl w s.engine source destination req.target_sample_rate))
  unfolding handle_normalize
  handle_normalize-replies named aimed free a = rw named (
      rw aimed (
        rw
          (normalize_audio-succeeds fl w s.engine source destination req.target_sample_rate
            (is_blank-trim_space req.source_url ∙ named)
            (is_blank-trim_space req.dest_put_url ∙ aimed) free a)
          refl))

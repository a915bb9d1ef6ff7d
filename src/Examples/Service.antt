-- ===== src/Examples/Service.antt =====
-- Examples for the handlers.
use audio_service.Base.{◌++◌}
use mathlib.Core.List.{flatten}
use audio_service.Effects.{incoming, active_up, active_down}
use audio_service.AudioEngine.Segment.{SegmentAudio}
use audio_service.AudioEngine.Segment.Cut.{IsWhole, cut_exit}
use audio_service.Server.Handlers.Trace.{cut_and_asked, handle_transcribe_segment-IsTrace}
use audio_service.Base.{◌≡◌, refl, ◌⊎◌, none, some, true, false, All, [], ◌∷◌, arith}
use audio_service.Base.Int.{pos, min_ℤ, max_ℤ, wrap, ◌+ℤ◌}
use audio_service.Base.Text.{codes, parse_int, trim_space, is_blank, is_empty, text_eq}
use audio_service.AudioEngine.Buffer.{write_all, new_buffer}
use audio_service.AudioEngine.Engine.{with_slot}
use audio_service.AudioEngine.Exec.{run_command, captured}
use audio_service.AudioEngine.Segment.{segment_cut, cut_body, segment_of_exit, audio_of}
use audio_service.Transcribe.Client.{transcribe, result_of_response, finish_reason, usage_tokens}
use audio_service.Transcribe.Reply.{parse_model_json, strip_code_fence, decode_reply}
use audio_service.Transcribe.Rebase.{rebase_utterances, rebase_one, placed, clamp, not_before}
use audio_service.Server.{TranscribeSegmentResponse, TranscribeSegmentRequest, NormalizeRequest}
use audio_service.Server.Handlers.{
  replied, model_of, with_hold, cut_and_transcribe, handle_transcribe_segment,
}
use audio_service.Server.Handlers.Contract.{
  IsValid, IsMalformed, IsTranscript, outcome_code, handle_transcribe_segment-guards,
  handle_transcribe_segment-IsTranscript,
}
use audio_service.Server.Service.{
  normalize_rpc, transcribe_segment_rpc, timeout_of, events_of, events_of-Leads, events_of-IsTimed,
}
use audio_service.AudioEngine.Timed.{IsTimed}
use audio_service.AudioEngine.Pool.Bracket.{nothing, Leads}
use audio_service.Transcribe.Client.{available}
use audio_service.Server.Status.{code_invalid_argument, code_unavailable}
use audio_service.Server.Handlers.Delivers.{Answers, response_of, handle_transcribe_segment-replies}
use audio_service.Transcribe.{ModelReply}
use audio_service.Examples.Setup.{billionths, server, world, request, gemini_response}

abbrev transcript : TranscribeSegmentResponse
transcript = record {
  detected_language = codes "en";
  utterances =
      record {
        text = codes "hi";
        start_ms = pos 1100;
        end_ms = pos 3000;
        confidence = 0xbf80_0000;
        language = [];
        is_speech = true;
      }
      ∷ [];
  input_tokens = pos 7;
  output_tokens = pos 9;
}

reply_of_request :
    (handle_transcribe_segment billionths server world request).outcome ≡ replied transcript
unfolding handle_transcribe_segment trim_space model_of cut_and_transcribe segment_cut is_blank
    with_slot cut_body run_command segment_of_exit text_eq audio_of captured write_all new_buffer
    transcribe result_of_response finish_reason usage_tokens parse_model_json strip_code_fence
    decode_reply rebase_utterances rebase_one placed clamp not_before min_ℤ max_ℤ wrap ◌+ℤ◌
    parse_int
reply_of_request = refl

handle_transcribe_segment-IsTranscript_example :
    IsValid server request × IsTranscript billionths server world request transcript
handle_transcribe_segment-IsTranscript_example =
    handle_transcribe_segment-IsTranscript billionths server world request transcript
      reply_of_request

abbrev reversed : TranscribeSegmentRequest
reversed = record request { end_ms = pos 500 }

handle_transcribe_segment-guards_example :
    (IsValid server reversed
      × (handle_transcribe_segment billionths server world reversed
          ≡ with_hold (
              cut_and_transcribe billionths server world reversed
                (trim_space reversed.normalized_url)
                (model_of server reversed))))
    ⊎ (((handle_transcribe_segment billionths server world reversed).events ≡ [])
        × (((outcome_code (handle_transcribe_segment billionths server world reversed).outcome
                ≡ some code_invalid_argument)
              × (IsMalformed reversed
                  ⊎ ((available server.transcriber ≡ true)
                      × (is_empty (model_of server reversed) ≡ true))))
            ⊎ ((outcome_code (handle_transcribe_segment billionths server world reversed).outcome
                  ≡ some code_unavailable)
                × (available server.transcriber ≡ false))))
handle_transcribe_segment-guards_example =
    handle_transcribe_segment-guards billionths server world reversed

abbrev normalize_request : NormalizeRequest
normalize_request = record {
  source_url = codes "http://h/a.mp3";
  dest_put_url = codes "http://store/a.ogg";
  target_sample_rate = pos 0;
}

events_of-Leads_example :
    Leads (events_of billionths server world (normalize_rpc normalize_request)) nothing nothing
events_of-Leads_example = events_of-Leads billionths server world (normalize_rpc normalize_request)

events_of-IsTimed_example :
    All
      (IsTimed (timeout_of server.engine (transcribe_segment_rpc request)))
      (events_of billionths server world (transcribe_segment_rpc request))
events_of-IsTimed_example =
    events_of-IsTimed billionths server world (transcribe_segment_rpc request)

handle_transcribe_segment-IsTrace_example :
    (seg : SegmentAudio) × IsWhole
      (flatten
        (cut_exit billionths world server.engine incoming
          (trim_space request.normalized_url)
          request.start_ms
          request.end_ms).stdout)
      seg
    × ((handle_transcribe_segment billionths server world request).events
        ≡ (active_up ∷ cut_and_asked billionths server world request seg) ++ active_down ∷ [])
handle_transcribe_segment-IsTrace_example =
    handle_transcribe_segment-IsTrace billionths server world request transcript reply_of_request

abbrev model_reply : ModelReply
model_reply = record {
  detected_language = codes "en";
  utterances =
      record {
        text = codes "hi";
        start_ms = some (pos 100);
        end_ms = some (pos 9000);
        confidence = none;
        language = [];
        is_speech = none;
      }
      ∷ [];
}

request-IsValid : IsValid server request
request-IsValid =
    (handle_transcribe_segment-IsTranscript billionths server world request transcript
      reply_of_request).0

named_model : is_blank (model_of server request) ≡ false
unfolding model_of is_blank trim_space
named_model = refl

request-Answers : Answers billionths server world request gemini_response model_reply
unfolding text_eq parse_model_json strip_code_fence decode_reply trim_space parse_int finish_reason
    flatten
request-Answers = record {
  cut = record { free = refl; unfailed = refl; some_audio = omega arith; bounded = omega arith };
  answered = refl;
  complete = refl;
  read = refl;
}

handle_transcribe_segment-replies_example :
    (handle_transcribe_segment billionths server world request).outcome
    ≡ replied (response_of billionths server world request gemini_response model_reply)
handle_transcribe_segment-replies_example =
    handle_transcribe_segment-replies billionths server world request gemini_response model_reply
      request-IsValid named_model request-Answers

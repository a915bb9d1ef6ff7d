-- ===== src/Examples/Answers.antt =====
-- Examples for calls of Probe and Normalize that reply.
use audio_service.Base.{◌≡◌, refl, false, [], ◌∷◌, arith}
use audio_service.Base.Int.{pos, wrap32}
use audio_service.Base.Text.{codes, is_empty, text_eq, trim_space, parse_int}
use audio_service.Effects.{incoming, with_timeout}
use audio_service.AudioEngine.Probe.{FfprobeStream, FfprobeOutput}
use audio_service.AudioEngine.Probe.Output.{decode_output, duration_of, parse_int_field}
use audio_service.AudioEngine.Probe.Success.{Readable}
use audio_service.AudioEngine.Normalize.Delivery.{rate_or_default}
use audio_service.AudioEngine.Normalize.Success.{Accepts, normalised}
use audio_service.Base.Utf8.{runes}
use audio_service.Server.{ProbeRequest, NormalizeRequest}
use audio_service.Server.Handlers.{replied, normalize_response, handle_probe, handle_normalize}
use audio_service.Server.Handlers.Delivers.{
  probe_url, probe_ctx, is_silent, handle_probe-replies, source, destination,
  handle_normalize-replies,
}
use audio_service.Examples.Setup.{billionths, server, world}
use mathlib.Core.List.{flatten}

abbrev probe_request : ProbeRequest
probe_request = record { source_url = codes "http://h/a.mp3"; filename = codes "a.mp3" }

abbrev stream : FfprobeStream
stream = record {
  codec_type = codes "audio";
  codec_name = codes "mp3";
  channels = pos 2;
  sample_rate = [];
  duration = [];
}

abbrev output : FfprobeOutput
output = record {
  streams = stream ∷ [];
  format = record { format_name = []; duration = codes "2" };
}

probe_named : is_empty (probe_url billionths server world probe_request) ≡ false
unfolding trim_space
probe_named = refl

stream-Readable :
    Readable billionths world server.engine
      (probe_ctx billionths server world probe_request)
      (probe_url billionths server world probe_request)
      output
      stream
unfolding decode_output text_eq parse_int runes flatten
stream-Readable = record {
  printed = record { unfailed = refl; bounded = omega arith; parsed = refl };
  is_first = record { before = []; behind = []; at = refl; is_audio = refl; others = tt };
}

handle_probe-replies_example :
    (handle_probe billionths server world probe_request).outcome
    ≡ replied (record {
      duration_ms = duration_of billionths output.format.duration stream.duration;
      channels = wrap32 stream.channels;
      sample_rate = wrap32 (parse_int_field stream.sample_rate);
      container = output.format.format_name;
      codec = stream.codec_name;
      silent =
          is_silent billionths server world probe_request
            (duration_of billionths output.format.duration stream.duration);
    })
handle_probe-replies_example =
    handle_probe-replies billionths server world probe_request output stream probe_named refl
      stream-Readable

abbrev normalize_request : NormalizeRequest
normalize_request = record {
  source_url = codes "http://h/a.mp3";
  dest_put_url = codes "http://store/a.ogg";
  target_sample_rate = pos 0;
}

source_named : is_empty (source billionths server world normalize_request) ≡ false
unfolding trim_space
source_named = refl

destination_named : is_empty (destination billionths server world normalize_request) ≡ false
unfolding trim_space
destination_named = refl

world-Accepts :
    Accepts world server.engine
      (with_timeout incoming server.engine.normalize_timeout)
      (source billionths server world normalize_request)
      (destination billionths server world normalize_request)
      (rate_or_default server.engine normalize_request.target_sample_rate)
unfolding text_eq flatten
world-Accepts = record {
  made = refl;
  unfailed = refl;
  stated = refl;
  some_audio = omega arith;
  rewound = refl;
  built = refl;
  accepted = (omega arith, omega arith);
}

handle_normalize-replies_example :
    (handle_normalize billionths server world normalize_request).outcome
    ≡ replied (
        normalize_response (
          normalised billionths world server.engine
            (source billionths server world normalize_request)
            (destination billionths server world normalize_request)
            normalize_request.target_sample_rate))
handle_normalize-replies_example =
    handle_normalize-replies billionths server world normalize_request source_named
      destination_named refl world-Accepts

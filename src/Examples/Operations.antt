-- ===== src/Examples/Operations.antt =====
-- Examples for the engine's operations.
use audio_service.Base.{
  ◌*◌, ◌^◌, ◌/◌, ◌%◌, ◌≡◌, refl, Option, none, some, true, false, [], ◌∷◌, length, take, ltb, arith,
}
use audio_service.Base.Int.{pos, negsuc, ◌<ℤ◌, wrap}
use audio_service.Base.Text.{Text, codes, is_blank, text_eq, parse_int, trim_space}
use audio_service.Base.Float.{decimal_seconds}
use audio_service.Base.Utf8.{runes}
use audio_service.Fault.{Error, opaque_error, ok}
use audio_service.Effects.{incoming, with_timeout}
use audio_service.AudioEngine.Buffer.{write_all, new_buffer, write_all_lem}
use audio_service.AudioEngine.Exec.{run_command, captured, stderr_text}
use audio_service.AudioEngine.Engine.{
  with_slot, Config, Engine, new_engine, or_default, or_positive,
}
use audio_service.AudioEngine.Normalize.{
  NormalizeResult, normalize_audio, normalize_body, source_duration, with_temp_file, encode_and_put,
  encoded, deliver, put_file, upload_result,
}
use audio_service.AudioEngine.Normalize.Delivery.{
  Normalised, rate_or_default, normalize_audio-Normalised,
}
use audio_service.AudioEngine.Probe.{ProbeResult}
use audio_service.AudioEngine.Probe.Steps.{
  probe, probe_body, judge, detect_silent_throughout, silence_of_exit, ffprobe_meta, meta_of_exit,
  metadata,
}
use audio_service.AudioEngine.Probe.Silence.{covers, silent_ms, silence_durations, add_silence}
use audio_service.AudioEngine.Probe.Output.{
  decode_output, to_result, first_audio, duration_of, parse_int_field, parse_seconds_to_ms,
}
use audio_service.AudioEngine.Probe.Verdict.{IsJudged, probe-IsJudged}
use audio_service.AudioEngine.Segment.{
  SegmentAudio, wav_type, segment_cut, cut_body, segment_of_exit, audio_of, format_ms,
}
use audio_service.AudioEngine.Segment.Cut.{IsWhole, cut_exit, segment_cut-IsWhole}
use audio_service.AudioEngine.Segment.Format.{format_ms_lem}
use audio_service.Examples.Setup.{billionths, engine, world, sound}
use mathlib.Core.List.{flatten}

abbrev url : Text
url = codes "http://h/a.mp3"

abbrev dest : Text
dest = codes "http://store/a.ogg"

abbrev normalised : NormalizeResult
normalised = record {
  duration_ms = pos 2000;
  sample_rate = pos 16000;
  channels = pos 1;
  bytes_written = pos 4;
}

normalised_url :
    (normalize_audio billionths world engine incoming url dest (pos 0)).result ≡ ok normalised
unfolding normalize_audio is_blank with_slot normalize_body source_duration with_temp_file
    encode_and_put encoded deliver flatten put_file upload_result ffprobe_meta run_command
    meta_of_exit text_eq metadata captured write_all new_buffer decode_output runes parse_int
    to_result first_audio duration_of parse_int_field parse_seconds_to_ms trim_space wrap
normalised_url = refl

normalize_audio-Normalised_example :
    Normalised world engine url dest (rate_or_default engine (pos 0)) normalised
normalize_audio-Normalised_example =
    normalize_audio-Normalised billionths world engine url dest (pos 0) normalised normalised_url

abbrev cut : SegmentAudio
cut = record { wav = sound; mime_type = wav_type }

cut_url : (segment_cut billionths world engine incoming url (pos 1000) (pos 3000)).result ≡ ok cut
unfolding segment_cut is_blank with_slot cut_body run_command segment_of_exit text_eq audio_of
    captured write_all new_buffer
cut_url = refl

segment_cut-IsWhole_example :
    (pos 1000 <ℤ pos 3000)
    × IsWhole
        (flatten (cut_exit billionths world engine incoming url (pos 1000) (pos 3000)).stdout)
        cut
segment_cut-IsWhole_example =
    segment_cut-IsWhole billionths world engine incoming url (pos 1000) (pos 3000) cut cut_url

abbrev probed : ProbeResult
probed = record {
  duration_ms = pos 2000;
  channels = pos 2;
  sample_rate = pos 0;
  container = [];
  codec = codes "mp3";
  silent = false;
}

probed_url : (probe billionths world engine incoming url).result ≡ ok probed
unfolding probe is_blank with_slot probe_body judge detect_silent_throughout silence_of_exit covers
    silent_ms silence_durations add_silence stderr_text ffprobe_meta run_command meta_of_exit
    text_eq metadata captured write_all new_buffer decode_output runes parse_int to_result
    first_audio duration_of parse_int_field parse_seconds_to_ms trim_space wrap
probed_url = refl

probe-IsJudged_example :
    IsJudged billionths world engine (with_timeout incoming engine.probe_timeout) url probed
probe-IsJudged_example = probe-IsJudged billionths world engine incoming url probed probed_url

write_all_lem_example :
    ((write_all (new_buffer 3) (sound ∷ sound ∷ [])).buf ≡ take 3 (flatten (sound ∷ sound ∷ [])))
    × ((write_all (new_buffer 3) (sound ∷ sound ∷ [])).overflow
        ≡ ltb 3 (length (flatten (sound ∷ sound ∷ []))))
write_all_lem_example = write_all_lem 3 (sound ∷ sound ∷ [])

format_ms_lem_example :
    (format_ms billionths (pos 61005) ≡ decimal_seconds (61005 / 1000) (61005 % 1000))
    × (format_ms billionths (negsuc 4) ≡ decimal_seconds 0 0)
format_ms_lem_example = format_ms_lem billionths 61005 4 (omega arith)

abbrev config : Config
config = record {
  ffprobe_path = [];
  ffmpeg_path = codes " ";
  workers = pos 0;
  probe_timeout = pos 0;
  normalize_timeout = pos 0;
  transcribe_timeout = pos 0;
  target_sample_rate = negsuc 0;
  tmp_dir = [];
  scavenge_on_idle = true;
}

abbrev found : Text → Option Error
found name = none

abbrev absent : Text → Option Error
absent name = some (opaque_error (codes "not found"))

abbrev booted : Engine
booted = record {
  ffprobe = codes "ffprobe";
  ffmpeg = codes "ffmpeg";
  probe_timeout = pos (90 * 10 ^ 9);
  normalize_timeout = pos (1800 * 10 ^ 9);
  transcribe_timeout = pos (600 * 10 ^ 9);
  target_sample_rate = pos 16000;
  tmp_dir = [];
  capacity = 4;
  scavenge_on_idle = true;
}

boots : new_engine found config ≡ ok booted
unfolding new_engine or_default or_positive is_blank
boots = refl

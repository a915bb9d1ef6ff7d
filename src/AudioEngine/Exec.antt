-- ===== src/AudioEngine/Exec.antt =====
-- Running ffprobe and ffmpeg with their output in capped buffers.
use audio_service.Base.{ℕ, ◌*◌, ◌^◌, List, [], ◌∷◌}
use audio_service.Base.Text.{Text}
use audio_service.Base.Utf8.{runes}
use audio_service.Effects.{Ctx, World, Command, Exit, exec, Run, emit, return, ◌>>◌}
use audio_service.AudioEngine.Buffer.{CappedBuffer, new_buffer, write_all}

abbrev pub max_probe_output_bytes : ℕ
max_probe_output_bytes = 4 * 2 ^ 20

-- exec.CommandContext and cmd.Run
unfoldable pub run_command : World → Ctx → Command → Run Exit
run_command w ctx cmd = emit (exec ctx cmd ∷ []) >> return (w.run ctx cmd)

-- A buffer of a limit after the output of a process.
unfoldable pub captured : ℕ → List (List ℕ) → CappedBuffer
captured limit chunks = write_all (new_buffer limit) chunks

-- `stderr.String()`
unfoldable pub stderr_text : Exit → Text
unfolding captured
stderr_text x = runes (captured max_probe_output_bytes x.stderr).buf

-- ===== src/Lib.antt =====
-- audio_service: the audio service, a gRPC server that probes, normalises and transcribes audio.
--
-- The program. A request comes to a handler of internal/server/server.go, which checks it, calls
-- the engine of internal/audioengine, and maps an error to a gRPC status. The engine runs ffprobe
-- and ffmpeg on the URL of the request, under a semaphore of worker slots and a deadline for each
-- operation. A transcription cuts a window out of the audio, sends it to Gemini
-- (internal/transcribe/transcribe.go), and moves the offsets of the reply onto the timeline of the
-- asset (internal/transcribe/rebase.go).
--
-- The files.
--   Base and below       lists, integers and Go's int64 and int32, text as lists of code points,
--                        UTF-8, %q, and the floats as a parameter (Base.Float)
--   Fault                Go errors: sentinels, %w, errors.Is and errors.As
--   Json and below       encoding/json as far as the program uses it; Json.Print is the compact text
--                        of a document, and RoundTrip, Append, Sizes and Ends lead to its reading
--   Genai and below      the data of the Gemini SDK; Genai.Follows says when a document follows a
--                        schema
--   Effects              one request as the list of its effects with its result or error
--   AudioEngine.Engine   New, acquire and releaseWorker of internal/audioengine/engine.go
--   AudioEngine.Pool     the semaphore, `active` and `scavenging`, with Hold, endActive, scavenge
--   AudioEngine.Buffer, Redact, Classify
--                        cappedBuffer, redactURLCredentials, classifyProbeErr and firstLine
--   AudioEngine.Probe, Segment, Normalize
--                        probe.go, segment.go and normalize.go of internal/audioengine
--   AudioEngine.Balance, Timed
--                        the order of the effects, and the deadlines they run under
--   AudioEngine.Pool.Spec, Drain
--                        the load that the shared fields stand for, and the end of the work
--   Transcribe and below internal/transcribe; Reply.Printed is a reply as JSON, and Reply.Follows the
--                        reading of one that follows the schema of the request
--   Server and below     internal/server/server.go; Server.Service is the three methods as the calls
--                        of one service, and Service.Shared any number of them on one engine
--   Settings             Config and Load of internal/config/config.go
--   RuntimeTune          internal/runtimetune/runtimetune.go
--   Logging and below    internal/logging; Logging.Setup is New and the context handler,
--                        Logging.Levels what a level hides, Logging.Rpc
--                        the interceptors, with Rpc.Access the access line of the service
--   Boot                 main of cmd/audio-service/main.go up to the listener, and Boot.Main the
--                        whole of it as the list of what it does with its exit code
--   Examples and below   concrete runs
--
-- State and effects. An operation such as `Normalize` is a function into `Run`: the list of what it
-- does (taking a slot, running a process, creating the temporary file, uploading, asking Gemini)
-- and its result. `defer` is `finally`, an early return is `refuse_if`, `check` or `lift`. What the
-- outside answers, processes, HTTP, temporary files and the SDK, is a record `World`, one answer
-- for one question in a request. The fields of the engine that requests share are the record
-- `Pool`; AudioEngine.Pool.System lets any number of requests interleave their effects on it, where
-- a take of a slot waits for a free one; the decrement of `active` and the compare-and-swap that it
-- leads to are two steps. A request that arrives there is a list of effects that
-- `Leads` from holding nothing to holding nothing, as those of the handlers do.
--
-- Numbers. int64 and int32 arithmetic wraps where it is written in the program, with the wrap
-- written out; the counter `active` and the sizes of buffers do not come near 2 ^ 63. float64 is a
-- record `Floats` of operations with two laws: the conversion to int64 yields an int64, and whole
-- milliseconds are printed exactly. The bounds of the schema are whole float64s, for which the
-- conversion of an int64 is written out as `rounded`. The floats of confidences are bit patterns.
--
-- Fuel. The JSON parser, the redaction and the search for silence runs are given the length of
-- their text, and each round consumes a character. A document nests to a depth of 10000, as in
-- encoding/json.
--
-- Not modelled: the lines that the handlers, the engine and internal/runtimetune log, the attributes
-- of the lines of main, the texts of JSON decoding errors, the case folding of JSON keys beyond
-- ASCII, generated code, what log/slog, gRPC and the health service do inside, and a signal that
-- arrives before Serve fails.
pub mod Base
pub mod Fault
pub mod Json
pub mod Genai
pub mod Effects
pub mod Transcribe
pub mod AudioEngine
pub mod Server
pub mod Settings
pub mod RuntimeTune
pub mod Logging
pub mod Boot
pub mod Examples

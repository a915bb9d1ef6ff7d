-- ===== src/AudioEngine.antt =====
-- internal/audioengine: probing, normalising and cutting audio by ffprobe and ffmpeg.
pub mod Buffer
pub mod Redact
pub mod Classify
pub mod Engine
pub mod Pool
pub mod Exec
pub mod Probe
pub mod Segment
pub mod Normalize
pub mod Balance
pub mod Timed

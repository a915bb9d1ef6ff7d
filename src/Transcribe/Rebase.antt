-- ===== src/Transcribe/Rebase.antt =====
-- internal/transcribe/rebase.go: the model's offsets, moved onto the timeline of the asset.
mod Defs
pub mod Window
pub mod Offsets
pub mod Shift
pub mod Lands
unfoldable pub use Defs.*

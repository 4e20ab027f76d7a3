-- ===== src/Convert/Stream.antt =====
-- convert/stream.go: a chat answer streamed to an Anthropic client.
pub mod Event
pub mod Emitter
pub mod Frames
pub mod Handler
pub mod Scan
pub mod Chunks
pub mod Client
pub mod Protocol
pub mod Failure
pub mod Words
pub mod Prose
mod Tests

-- ===== src/Streaming.antt =====
-- crates/proxy/src/streaming.rs: the analytics side of a streamed response.
pub mod Buffer
pub mod Tee
pub mod Sse
pub mod Chunking

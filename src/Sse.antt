-- ===== src/Sse.antt =====
-- syte/sse_core.py: server-sent events. An event is a dictionary; a frame is the bytes of an event
-- or of one of the fixed control texts, kept as data. The files follow the classes of the source:
-- frames, the delta batcher, sessions, channels and the hub.
pub mod Frame
pub mod Batcher
pub mod Session
pub mod Channel
pub mod Hub
mod Tests

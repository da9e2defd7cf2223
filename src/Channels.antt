-- ===== src/Channels.antt =====
-- Channels, which deliver signals to users (vyuh/src/channels).
pub mod Types
pub mod Log
pub mod Fanout
pub mod Debounce
pub mod State
pub mod Runtime
pub mod Publish
pub mod Scheduler

-- ===== src/Topic.antt =====
-- src/rosy/node/topic/: sending topic messages, and handling them.
pub mod Outbox
pub mod Sender
pub mod Remote

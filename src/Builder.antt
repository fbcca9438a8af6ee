-- ===== src/Builder.antt =====
-- src/rosy/node/builder.py: how the parts of a node are put together.
pub mod Codec
pub mod Node

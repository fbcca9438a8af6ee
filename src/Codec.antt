-- ===== src/Codec.antt =====
-- src/rosy/codec.py: the codecs from values to bytes.
pub mod Interface
pub mod Bytes
pub mod Utf8
pub mod Containers
pub mod Serializers
pub mod Shrinks
pub mod Ints

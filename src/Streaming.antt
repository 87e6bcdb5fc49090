-- ===== src/Streaming.antt =====
-- streaming/compat.py: the compatibility of event schemas.
pub mod Compat
pub mod Avro
pub mod Readable
mod Tests

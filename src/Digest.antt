-- ===== src/Digest.antt =====
-- Digests of bytes that are fed piece by piece: src/rdx/rdx_murmur3.cpp and rdx_guid.cpp.
pub mod Buffer
pub mod Murmur3
pub mod Sha256
pub mod Crc32

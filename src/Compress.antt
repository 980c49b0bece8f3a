-- ===== src/Compress.antt =====
-- The block compressor of src/rdxcompression: the stages that code the sorted block.
pub mod Mtf
pub mod Rle0
pub mod Model
pub mod RangeCoder
pub mod Block

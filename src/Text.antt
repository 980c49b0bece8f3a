-- ===== src/Text.antt =====
-- Characters and sizes: src/rdx/rdx_utility.hpp.
pub mod Utf8
pub mod Sizes
pub mod Count
pub mod Candidate

-- ===== src/Digest/Buffer.antt =====
-- The loop that `FeedBytes` of src/rdx/rdx_murmur3.cpp has for both hashes: bytes go to a buffer, and
-- a full buffer is mixed into the words of the state.
pub mod Blocks
pub mod Absorbed
use rdx.Base.{
  ℕ, zero, suc, ◌+◌, Bool, true, false, List, [], ◌∷◌, ◌==◌, if◌then◌else◌, Bytes, length, set, u8,
  u32,
}

-- `rdxCMurmur3Hash32` and `rdxCMurmur3Hash128`: the words `m_h1` and so on, `m_len`, `m_backlog` and
-- `m_backlogPos`
pub record Hash {ℓ} (A : Type ℓ) : Type ℓ where
  pub words : A
  pub len : ℕ
  pub backlog : Bytes
  pub backlog_pos : ℕ

module _ {ℓ} {A : Type ℓ} (block_size : ℕ) (mix : A → Bytes → A) where
  -- one round of the loop
  unfoldable pub feed_byte : ℕ → Hash A → Hash A
  feed_byte b v =
      let backlog = set v.backlog v.backlog_pos b in
      let pos = u8 (v.backlog_pos + 1) in
      if pos == block_size
      then record v { words = mix v.words backlog; backlog = backlog; backlog_pos = 0 }
      else record v { backlog = backlog; backlog_pos = pos }

  unfoldable pub feed_loop : Bytes → Hash A → Hash A
  feed_loop [] v = v
  feed_loop (b ∷ bs) v = feed_loop bs (feed_byte b v)

  unfoldable pub feed_bytes : Bytes → Hash A → Hash A
  feed_bytes bs v = record (feed_loop bs v) { len = u32 (v.len + u32 (length bs)) }

  -- `FeedBytes` for one piece after the other
  unfoldable pub feed_all : List Bytes → Hash A → Hash A
  feed_all [] v = v
  feed_all (p ∷ ps) v = feed_all ps (feed_bytes p v)

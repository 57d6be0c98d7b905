-- ===== src/Sync.antt =====
-- The atomic primitives of the processor support library that libmp calls. Its code is not part of
-- the repository: a `Cas` is any implementation with the behaviour that its documentation states.
use optimsoc.Prelude.{ℕ, ◌≡◌, ◌≢◌}

pub record Cas : Type 0 where
  -- `or1k_sync_cas(&word, old, new)`: what it returns, and the word afterwards.
  pub cas : (word old new : ℕ) → ℕ × ℕ
  pub cas_hit : (word new : ℕ) → cas word word new ≡ (word, new)
  pub cas_miss : (word old new : ℕ) → word ≢ old → cas word old new ≡ (word, word)

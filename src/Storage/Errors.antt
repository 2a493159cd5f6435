-- ===== src/Storage/Errors.antt =====
-- `StorageError` (src/ports/storage.rs).
use hekate.Prelude.{ℕ, String}
use hekate.Prelude.Text.{Text}

pub data StorageError : Type 0 where
  backend : String → StorageError
  integrity : Text → StorageError
  revision_conflict : ℕ → ℕ → StorageError
  stale_context : ℕ → ℕ → StorageError
  invalid_state : String → StorageError

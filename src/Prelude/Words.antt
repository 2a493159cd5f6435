-- ===== src/Prelude/Words.antt =====
-- Unsigned machine integers: the numbers below 2 ^ w, with Rust's saturating and checked addition.
use hekate.Prelude.{ℕ, ◌+◌, ◌-◌, ◌^◌, ltb, if◌then◌else◌}

abbrev pub u64_limit : ℕ
u64_limit = 2 ^ 64

-- `u64::saturating_add`, and `usize::saturating_add` on a machine of 64 bits.
abbrev pub saturating_add : ℕ → ℕ → ℕ
saturating_add a b = if ltb (a + b) u64_limit then a + b else u64_limit - 1

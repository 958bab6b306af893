-- ===== src/Prelude/Int.antt =====
-- Signed integers, as values of `std::int32_t` and of `int`: `negsuc n` is -(n + 1).
use Prim.Native.Nat.{ℕ}

pub data ℤ : Type 0 where
  pos negsuc : ℕ → ℤ

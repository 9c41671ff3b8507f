-- ===== src/Base/Int.antt =====
-- The signed integers of Go, without a width: `negsuc n` is -(n + 1).
use dnsplane.Base.{ℕ}

pub data ℤ : Type 0 where
  pos : ℕ → ℤ
  negsuc : ℕ → ℤ

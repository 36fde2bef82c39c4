-- ===== src/Common/Integers.antt =====
-- Signed integers, for the few values of the program that may lie below zero.
use zenith_panel.Common.{ℕ, zero, suc, Option, none, some}

pub data ℤ : Type 0 where
  pos : ℕ → ℤ
  negsuc : ℕ → ℤ

-- The value where it is greater than zero.
unfoldable pub positive : ℤ → Option ℕ
positive (pos zero) = none
positive (pos (suc n)) = some (suc n)
positive (negsuc n) = none

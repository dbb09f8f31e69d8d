-- ===== src/Base/Fd.antt =====
-- File descriptors: the source's `int`, of which the negative ones stand for none.
use Prim.Native.Nat.{ℕ}
use mathlib.Core.Path.{◌≡◌}
use mathlib.Core.Logic.{◌↔◌}
use mathlib.Core.Bool.{Bool, true, false}
use native.Mathlib.Omega.{arith}
use cpp_reactor.Base.Tests.{◌==◌}

-- `negsuc n` is -(n + 1).
pub data ℤ : Type 0 where
  pos : ℕ → ℤ
  negsuc : ℕ → ℤ

abbrev pub is_neg : ℤ → Bool
is_neg (pos n) = false
is_neg (negsuc n) = true

-- The descriptor -1.
abbrev pub no_fd : ℤ
no_fd = negsuc 0

abbrev pub same_fd : ℤ → ℤ → Bool
same_fd (pos m) (pos n) = m == n
same_fd (negsuc m) (negsuc n) = m == n
same_fd _ _ = false

pub same_fd_iff : (a b : ℤ) → (same_fd a b ≡ true) ↔ (a ≡ b)
same_fd_iff (pos m) (pos n) = ground arith
same_fd_iff (negsuc m) (negsuc n) = ground arith
same_fd_iff _ _ = ground arith

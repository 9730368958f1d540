-- ===== src/Prelude/Words.antt =====
-- Machine words: 64-bit counters and sizes, with the wrap-around written out.
use Prim.Native.Nat.{ℕ, ◌+◌, ◌-◌, ◌%◌, ◌^◌, ◌<◌, min}
use mathlib.Core.Path.{◌≡◌}
use native.Mathlib.Omega.{arith}

-- `fetch_add` on an `AtomicU64`, and `+` on `u64` and `usize` in a release build.
unfoldable pub add_u64 : ℕ → ℕ → ℕ
add_u64 a b = (a + b) % 2 ^ 64

unfoldable pub add_u32 : ℕ → ℕ → ℕ
add_u32 a b = (a + b) % 2 ^ 32

-- `saturating_add` on `usize`.
unfoldable pub saturating_add : ℕ → ℕ → ℕ
saturating_add a b = min (a + b) (2 ^ 64 - 1)

pub add_u64-eq : (a b : ℕ) → a + b < 2 ^ 64 → add_u64 a b ≡ a + b
unfolding add_u64
add_u64-eq a b h = omega arith

pub add_u32-eq : (a b : ℕ) → a + b < 2 ^ 32 → add_u32 a b ≡ a + b
unfolding add_u32
add_u32-eq a b h = omega arith

pub saturating_add-eq : (a b : ℕ) → a + b < 2 ^ 64 → saturating_add a b ≡ a + b
unfolding saturating_add
saturating_add-eq a b h = omega arith

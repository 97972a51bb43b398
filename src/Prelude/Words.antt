-- ===== src/Prelude/Words.antt =====
-- Rust's 64-bit `usize` and `u64` as native numbers: what the checked and saturating methods return.
use Prim.Native.Nat.{ℕ, ◌+◌, ◌*◌, ◌≤◌, min}
use mathlib.Core.Option.{Option, none, some}
use mathlib.Core.Path.{◌≡◌}
use native.Mathlib.Omega.{arith}
use mona_agent_core.Prelude.Tests.{leb, if◌then◌else◌}

abbrev pub usize_max : ℕ
usize_max = 18446744073709551615

-- a.checked_add(b)
unfoldable pub checked_add : ℕ → ℕ → Option ℕ
checked_add a b = if leb (a + b) usize_max then some (a + b) else none

-- a.checked_mul(b)
unfoldable pub checked_mul : ℕ → ℕ → Option ℕ
checked_mul a b = if leb (a * b) usize_max then some (a * b) else none

-- a.saturating_add(b)
unfoldable pub saturating_add : ℕ → ℕ → ℕ
saturating_add a b = min (a + b) usize_max

-- a.saturating_mul(b)
unfoldable pub saturating_mul : ℕ → ℕ → ℕ
saturating_mul a b = min (a * b) usize_max

pub checked_add-eq-some :
    (a b : ℕ) {n : ℕ} → checked_add a b ≡ some n → (n ≡ a + b) × (n ≤ usize_max)
unfolding checked_add
checked_add-eq-some a b h = ground arith

pub checked_mul-eq-some :
    (a b : ℕ) {n : ℕ} → checked_mul a b ≡ some n → (n ≡ a * b) × (n ≤ usize_max)
unfolding checked_mul
checked_mul-eq-some a b h = ground arith

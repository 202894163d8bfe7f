-- ===== src/Base/Bits.antt =====
-- Facts about `bit_or` on a byte, checked by evaluation over every value.
use Prim.Native.Nat.{ℕ, zero, suc, ◌+◌, ◌*◌, ◌/◌, ◌%◌, ◌<◌, bit_or}
use mathlib.Core.Path.{◌≡◌, refl}
use mathlib.Core.Bool.{Bool, true, ◌&&◌}
use native.Mathlib.Omega.{arith}
use tarant.Base.Tests.{◌==◌, ==_iff}

-- Over a small range, check every value by evaluation.
unfoldable pub all_below : ℕ → (ℕ → Bool) → Bool
all_below zero p = true
all_below (suc n) p = p n && all_below n p

-- What the check of a whole range says of a number in it.
pub all_below_at :
    (test : ℕ → Bool) (bound at : ℕ) → at < bound → all_below bound test ≡ true → test at ≡ true
unfolding all_below
all_below_at test zero at inside checked = absurd (omega arith)
all_below_at test (suc bound) at inside checked = ground (arith, all_below_at test bound at)

join_table : all_below 256 (λ x. bit_or (x / 16 * 16 % 256) (x % 16) == x) ≡ true
unfolding all_below
join_table = refl

-- The two halves of a byte, put together again.
pub join_halves : (x : ℕ) → x < 256 → bit_or (x / 16 * 16 % 256) (x % 16) ≡ x
join_halves x h = (==_iff _ x).0 (all_below_at _ 256 x h join_table)

-- The byte made of two nibbles.
pub join_nibbles : (a b : ℕ) → a < 16 → b < 16 → bit_or (a * 16 % 256) b ≡ a * 16 + b
join_nibbles a b ha hb =
    let whole = join_halves (a * 16 + b) (omega arith) in
    let high : (a * 16 + b) / 16 * 16 % 256 ≡ a * 16 % 256 = omega arith in
    let low : (a * 16 + b) % 16 ≡ b = omega arith in rw (high, low) at whole

-- ===== src/Base/Utf8.antt =====
-- `std::str::from_utf8`: whether bytes are UTF-8, by the table of well-formed sequences of the
-- Unicode standard. A text is its bytes.
use Prim.Native.Nat.{ℕ, zero, suc}
use mathlib.Core.Bool.{Bool, true, false, ◌&&◌}
use mathlib.Core.List.{List, [], ◌∷◌}
use tarant.Base.Tests.{leb, within, ◌==◌, if◌then◌else◌}

-- What must follow: `more` bytes are to come, the first of them from `lo` to `hi`.
record Expected : Type 0 where
  more : ℕ
  lo : ℕ
  hi : ℕ

lead : ℕ → Expected
lead b =
    if leb b 0x7f
    then record { more = 0; lo = 0x80; hi = 0xbf }
    else if within 0xc2 0xdf b
    then record { more = 1; lo = 0x80; hi = 0xbf }
    else if b == 0xe0
    then record { more = 2; lo = 0xa0; hi = 0xbf }
    else if b == 0xed
    then record { more = 2; lo = 0x80; hi = 0x9f }
    else if within 0xe1 0xef b
    then record { more = 2; lo = 0x80; hi = 0xbf }
    else if b == 0xf0
    then record { more = 3; lo = 0x90; hi = 0xbf }
    else if within 0xf1 0xf3 b
    then record { more = 3; lo = 0x80; hi = 0xbf }
    else if b == 0xf4
    then record { more = 3; lo = 0x80; hi = 0x8f }
    else record { more = 1; lo = 1; hi = 0 }

follows : ℕ → ℕ → ℕ → List ℕ → Bool
follows zero lo hi [] = true
follows zero lo hi (b ∷ bs) = follows (lead b).more (lead b).lo (lead b).hi bs
follows (suc n) lo hi [] = false
follows (suc n) lo hi (b ∷ bs) = within lo hi b && follows n 0x80 0xbf bs

unfoldable pub is_utf8 : List ℕ → Bool
unfolding follows lead
is_utf8 bs = follows 0 0x80 0xbf bs

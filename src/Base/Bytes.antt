-- ===== src/Base/Bytes.antt =====
-- Byte strings: `to_le_bytes` and `from_le_bytes` of the standard library at any width.
use Prim.Native.Nat.{ℕ, zero, suc, ◌+◌, ◌*◌, ◌/◌, ◌%◌, ◌^◌, ◌<◌, ◌≤◌}
use mathlib.Core.Path.{◌≡◌, refl, ap}
use mathlib.Core.List.{List, [], ◌∷◌, ◌++◌}
use native.Mathlib.Omega.{arith}
use native.Mathlib.Nat.{pow-suc, mul_comm}
use agent_transport.Base.Lists.{
  length, All, take, drop, length-take, length-drop, drop-drop, take-append-drop, All-take,
  All-drop,
}

abbrev pub IsByte : ℕ → Type 0
IsByte b = b < 256

abbrev pub IsU32 : ℕ → Type 0
IsU32 v = v < 2 ^ 32

abbrev pub IsU64 : ℕ → Type 0
IsU64 v = v < 2 ^ 64

-- `v as u32` of a wider unsigned integer
abbrev pub as_u32 : ℕ → ℕ
as_u32 v = v % 2 ^ 32

-- v.to_le_bytes() of an integer of n bytes
unfoldable pub le_bytes : ℕ → ℕ → List ℕ
le_bytes zero v = []
le_bytes (suc n) v = (v % 256) ∷ le_bytes n (v / 256)

-- from_le_bytes(bytes)
unfoldable pub from_le_bytes : List ℕ → ℕ
from_le_bytes [] = 0
from_le_bytes (b ∷ bs) = b + 256 * from_le_bytes bs

pub length-le_bytes : (n v : ℕ) → length (le_bytes n v) ≡ n
unfolding le_bytes
length-le_bytes zero v = refl
length-le_bytes (suc n) v = ap suc (length-le_bytes n (v / 256))

pub le_bytes-IsByte : (n v : ℕ) → All IsByte (le_bytes n v)
unfolding le_bytes
le_bytes-IsByte zero v = tt
le_bytes-IsByte (suc n) v = (omega arith, le_bytes-IsByte n (v / 256))

pub from_le_bytes-le_bytes : (n v : ℕ) → v < 256 ^ n → from_le_bytes (le_bytes n v) ≡ v
unfolding le_bytes from_le_bytes
from_le_bytes-le_bytes zero v h = omega arith
from_le_bytes-le_bytes (suc n) v h = omega (
  arith,
  from_le_bytes-le_bytes n (v / 256) (grind (arith, pow-suc 256 n, mul_comm (256 ^ n) 256)),
)

pub le_bytes-from_le_bytes :
    (bs : List ℕ) → All IsByte bs → le_bytes (length bs) (from_le_bytes bs) ≡ bs
unfolding le_bytes from_le_bytes
le_bytes-from_le_bytes [] h = refl
le_bytes-from_le_bytes (b ∷ bs) (hb, hbs) =
    let low : (b + 256 * from_le_bytes bs) % 256 ≡ b = omega arith in
    let high : (b + 256 * from_le_bytes bs) / 256 ≡ from_le_bytes bs = omega arith in
    rw (low, high, le_bytes-from_le_bytes bs hbs)

pub from_le_bytes-lt : (bs : List ℕ) → All IsByte bs → from_le_bytes bs < 256 ^ length bs
unfolding from_le_bytes
from_le_bytes-lt [] h = omega arith
from_le_bytes-lt (b ∷ bs) h = grind (arith, from_le_bytes-lt bs h.1, pow-suc 256 (length bs))

le_bytes-take :
    (n : ℕ) (bs : List ℕ)
    → All IsByte bs
    → n ≤ length bs
    → le_bytes n (from_le_bytes (take n bs)) ≡ take n bs
le_bytes-take n bs h long =
    let whole : length (take n bs) ≡ n = omega (arith, length-take n bs) in
    rw whole at (le_bytes-from_le_bytes (take n bs) (All-take IsByte n bs h))

-- The integer that n bytes from position k spell, written back in front of what follows it.
pub le_bytes-slice :
    (k n : ℕ) (bs : List ℕ)
    → All IsByte bs
    → k + n ≤ length bs
    → le_bytes n (from_le_bytes (take n (drop k bs))) ++ drop (k + n) bs ≡ drop k bs
le_bytes-slice k n bs h long =
    rw
      (
        le_bytes-take n (drop k bs) (All-drop IsByte k bs h) (omega (arith, length-drop k bs)),
        ← drop-drop k n bs,
      )
      (take-append-drop n (drop k bs))

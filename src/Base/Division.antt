-- ===== src/Base/Division.antt =====
-- Quotients: which chunk of a fixed size an offset lies in.
use Prim.Native.Nat.{ℕ, suc, ◌+◌, ◌*◌, ◌/◌, ◌≤◌, ◌<◌}
use mathlib.Core.Path.{◌≡◌}
use mathlib.Core.Logic.{inl, inr}
use agent_transport.Base.Tests.{leb, leb→le, leb→lt, Bool-cases}
use native.Mathlib.Omega.{arith}
use native.Mathlib.Nat.{le-div_iff_mul-le, div-lt_iff_lt-mul, lt-div-mul-add, div-mul-le_self}

-- An offset from q * p on, and less than p further, lies in chunk q.
pub div-eq : (n p q : ℕ) → 0 < p → q * p ≤ n → n < q * p + p → n / p ≡ q
div-eq n p q pos lo hi =
    let above = (le-div_iff_mul-le {k = p} {x = q} {y = n} pos).1 lo in
    let below = (div-lt_iff_lt-mul {k = p} {x = n} {y = suc q} pos).1 (omega arith) in omega arith

pub div_bounds : (n p : ℕ) → 0 < p → (n / p * p ≤ n) × (n < n / p * p + p)
div_bounds n p pos = (div-mul-le_self n p, lt-div-mul-add pos)

pub div_mono : (m n p : ℕ) → 0 < p → m ≤ n → m / p ≤ n / p
div_mono m n p pos h =
    (le-div_iff_mul-le {k = p} {x = m / p} {y = n} pos).1 (omega (arith, div-mul-le_self m p))

pub mul_mono : (q i n : ℕ) → q ≤ i → q * n ≤ i * n
mul_mono q i n h = grind arith

pub mul_cancel : (q i n : ℕ) → 0 < n → q * n ≤ i * n → q ≤ i
mul_cancel q i n pos h = elim (Bool-cases (leb q i)) [
  | inl le ↦ leb→le q i le
  | inr gt ↦ absurd (omega (arith, mul_mono (suc i) q n (leb→lt q i gt)))
]

-- ===== src/Priority/Laws.antt =====
-- The level of a message: its range, its order, and which lengths have it.
use agent_transport.Base.{ℕ, zero, suc, ◌^◌, ◌<◌, ◌≤◌, arith, get_or}
use agent_transport.Priority.{num_priorities, thresholds, priority_for_len}

-- Every level is one of the eight.
pub priority_for_len-lt : (len : ℕ) → priority_for_len len < num_priorities
unfolding priority_for_len
priority_for_len-lt len = ground arith

bounds_below : (len i : ℕ) → i < priority_for_len len → get_or thresholds i 0 < len
unfolding priority_for_len
bounds_below len zero h = ground arith
bounds_below len (suc zero) h = ground arith
bounds_below len (suc (suc zero)) h = ground arith
bounds_below len (suc (suc (suc zero))) h = ground arith
bounds_below len (suc (suc (suc (suc zero)))) h = ground arith
bounds_below len (suc (suc (suc (suc (suc zero))))) h = ground arith
bounds_below len (suc (suc (suc (suc (suc (suc zero)))))) h = ground arith
bounds_below len (suc (suc (suc (suc (suc (suc (suc i))))))) h = absurd (ground arith)

bound_above : (len : ℕ) → len < 2 ^ 64 → len ≤ get_or thresholds (priority_for_len len) 0
unfolding priority_for_len
bound_above len h = ground arith

-- The level of a message is the first whose bound its length does not pass: the length, if it fits
-- u64, is at most the bound of its level, and above the bound of every level before.
pub priority_for_len_first :
    (len : ℕ)
    → len < 2 ^ 64
    → (len ≤ get_or thresholds (priority_for_len len) 0)
      × ((i : ℕ) → i < priority_for_len len → get_or thresholds i 0 < len)
priority_for_len_first len h = (bound_above len h, bounds_below len)

-- A longer message never has a higher priority (a smaller level).
pub priority_for_len_mono :
    (short long : ℕ) → short ≤ long → priority_for_len short ≤ priority_for_len long
unfolding priority_for_len
priority_for_len_mono short long h = ground arith

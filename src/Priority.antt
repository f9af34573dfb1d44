-- ===== src/Priority.antt =====
-- transport/priority.rs: the eight priority levels and the level of a message's length.
pub mod Laws
use agent_transport.Base.{ℕ, zero, suc, ◌+◌, ◌-◌, ◌^◌, List, [], ◌∷◌, leb, if◌then◌else◌}

abbrev pub num_priorities : ℕ
num_priorities = 8

-- The last bound is u64::MAX.
abbrev pub thresholds : List ℕ
thresholds =
    100 ∷ 1_000 ∷ 10_000 ∷ 100_000 ∷ 1_000_000 ∷ 10_000_000 ∷ 100_000_000 ∷ (2 ^ 64 - 1) ∷ []

-- The loop over the bounds from index i on; after the last one the lowest level is returned.
unfoldable pub search_level : ℕ → List ℕ → ℕ → ℕ
search_level len [] i = num_priorities - 1
search_level len (upper ∷ uppers) i =
    let rest = search_level len uppers (i + 1) in if leb len upper then i else rest

-- `len as u64` changes nothing where usize has 64 bits.
unfoldable pub priority_for_len : ℕ → ℕ
unfolding search_level
priority_for_len len = search_level len thresholds 0

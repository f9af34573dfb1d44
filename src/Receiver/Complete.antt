-- ===== src/Receiver/Complete.antt =====
-- When a message is complete: exactly when every one of its chunks has come.
use agent_transport.Base.{
  ℕ, zero, suc, ◌-◌, ◌*◌, ◌/◌, ◌%◌, ◌≤◌, ◌<◌, ◌≡◌, refl, sym, ◌⊎◌, max, Bool, true, false, List, [],
  ◌∷◌, length, drop, get_or, set, replicate, ◌==◌, ==_iff, arith, length-take, length-drop,
  length-replicate, Bool-cases, inl, inr,
}
use agent_transport.Base.Division.{div-eq}
use native.Mathlib.Nat.{div-add-mod', lt-div-mul-add, le_trans}
use agent_transport.Config.{TransportConfig}
use agent_transport.Receiver.State.{InMsg, complete, fresh_msg, store, div_ceil}
use agent_transport.Receiver.Reassembly.{Holds, Agrees, marked_bytes, absorb, marked_bytes-le}
use agent_transport.Receiver.Absorb.{accepts-chunk, index-lt}

Agrees-unmarked :
    (n pkt_size : ℕ) (bytes buf : List ℕ) → Agrees pkt_size bytes buf (replicate n false)
Agrees-unmarked zero pkt_size bytes buf = tt
Agrees-unmarked (suc n) pkt_size bytes buf =
    (λ e. cc, Agrees-unmarked n pkt_size (drop pkt_size bytes) (drop pkt_size buf))

marked_bytes-unmarked :
    (n pkt_size : ℕ) (bytes : List ℕ) → marked_bytes pkt_size bytes (replicate n false) ≡ 0
unfolding marked_bytes
marked_bytes-unmarked zero pkt_size bytes = refl
marked_bytes-unmarked (suc n) pkt_size bytes =
    omega (arith, marked_bytes-unmarked n pkt_size (drop pkt_size bytes))

widen : (a b d : ℕ) → a ≤ b → a * d ≤ b * d
widen a b d h = grind arith

-- As many chunks of the packet size as the new bitmap has hold the message.
div_ceil_covers : (n d : ℕ) → 0 < d → n ≤ max (div_ceil n d) 1 * d
div_ceil_covers n d pos =
    let enough : n ≤ div_ceil n d * d = elim (Bool-cases (n % d == 0)) [
      | inl even ↦ rw even (omega (arith, div-add-mod' n d, (==_iff _ 0).0 even))
      | inr odd ↦ rw odd (omega (arith, lt-div-mul-add {a = n} {b = d} pos))
    ] in
    le_trans enough (widen (div_ceil n d) (max (div_ceil n d) 1) d (omega arith))

-- The entry that the first packet makes.
pub fresh-Holds :
    (cfg : TransportConfig) (bytes : List ℕ) (now : ℕ)
    → 0 < cfg.packet_size
    → Holds cfg.packet_size bytes (fresh_msg cfg (length bytes) now)
unfolding fresh_msg
fresh-Holds cfg bytes now pos =
    let n = max (div_ceil (length bytes) cfg.packet_size) 1 in
    record {
      total = refl;
      sized = length-replicate (length bytes) 0;
      covers = rw (length-replicate n false) (div_ceil_covers (length bytes) cfg.packet_size pos);
      counted = sym (marked_bytes-unmarked n cfg.packet_size bytes);
      agrees = Agrees-unmarked n cfg.packet_size bytes (replicate (length bytes) 0);
    }

-- Chunk q has come.
abbrev pub Has : InMsg → ℕ → Type 0
Has m q = get_or m.received q false ≡ true

get_or-set_self : (xs : List Bool) (i : ℕ) → i < length xs → get_or (set xs i true) i false ≡ true
get_or-set_self [] i h = absurd (omega arith)
get_or-set_self (x ∷ xs) zero h = refl
get_or-set_self (x ∷ xs) (suc i) h = get_or-set_self xs i (omega arith)

get_or-set_keeps :
    (xs : List Bool) (i j : ℕ) → get_or xs j false ≡ true → get_or (set xs i true) j false ≡ true
get_or-set_keeps [] i j h = cc
get_or-set_keeps (x ∷ xs) zero zero h = refl
get_or-set_keeps (x ∷ xs) zero (suc j) h = h
get_or-set_keeps (x ∷ xs) (suc i) zero h = h
get_or-set_keeps (x ∷ xs) (suc i) (suc j) h = get_or-set_keeps xs i j h

module _ (pkt_size : ℕ) (bytes : List ℕ) (now : ℕ) (m : InMsg) (q : ℕ) (pos : 0 < pkt_size)
    (inside : q * pkt_size < length bytes) (h : Holds pkt_size bytes m) where
  -- A chunk that comes is there afterwards, and so are those that were there.
  pub absorb-Has : (i : ℕ) → (i ≡ q) ⊎ Has m i → Has (absorb pkt_size bytes now m q) i
  unfolding absorb store
  absorb-Has i which =
      let idx : q * pkt_size / pkt_size ≡ q =
        div-eq (q * pkt_size) pkt_size q pos (omega arith) (omega arith) in
      let known = index-lt pkt_size (length bytes) (length m.received) q inside h.covers in
      elim (Bool-cases (get_or m.received q false)) [
        | inl old ↦ rw (accepts-chunk pkt_size bytes m q pos inside h, old) (there old which)
        | inr new ↦
            rw (accepts-chunk pkt_size bytes m q pos inside h, new, idx) (marked known which)
      ]
    where
      there : Has m q → (i ≡ q) ⊎ Has m i → Has m i
      there old (inl e) = rw e old
      there old (inr has) = has

      marked :
          q < length m.received → (i ≡ q) ⊎ Has m i → get_or (set m.received q true) i false ≡ true
      marked known (inl e) = rw e (get_or-set_self m.received q known)
      marked known (inr has) = get_or-set_keeps m.received q i has

-- If all chunks that begin before byte n are marked, n bytes are counted.
pub prefix_marked :
    (pkt_size n : ℕ) (bytes : List ℕ) (received : List Bool)
    → 0 < pkt_size
    → n ≤ length bytes
    → length bytes ≤ length received * pkt_size
    → ((q : ℕ) → q * pkt_size < n → get_or received q false ≡ true)
    → n ≤ marked_bytes pkt_size bytes received
unfolding marked_bytes
prefix_marked pkt_size n bytes [] pos within covers all = omega arith
prefix_marked pkt_size n bytes (r ∷ received) pos within covers all = elim (Bool-cases (n == 0)) [
  | inl none_left ↦ omega (arith, (==_iff n 0).0 none_left)
  | inr some_left ↦
      let more : 0 < n = ground arith in
      let first : r ≡ true = all 0 (omega arith) in
      let rest =
        prefix_marked pkt_size (n - pkt_size) (drop pkt_size bytes) received pos
          (omega (arith, length-drop pkt_size bytes)) (omega (arith, length-drop pkt_size bytes))
          (λ q inside. all (suc q) (omega arith)) in
      rw first (omega (arith, rest, length-take pkt_size bytes))
]

pub complete-all :
    (pkt_size : ℕ) (bytes : List ℕ) (m : InMsg)
    → 0 < pkt_size
    → Holds pkt_size bytes m
    → ((q : ℕ) → q * pkt_size < length bytes → Has m q)
    → complete m ≡ true
complete-all pkt_size bytes m pos h all = (==_iff _ _).1 (
    omega (
      arith,
      h.counted,
      h.total,
      prefix_marked pkt_size (length bytes) bytes m.received pos (omega arith) h.covers all,
      marked_bytes-le pkt_size bytes m.received,
    ))

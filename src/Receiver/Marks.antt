-- ===== src/Receiver/Marks.antt =====
-- The bitmap of a message: only the chunks that have come are marked in it.
use agent_transport.Base.{
  ℕ, zero, suc, ◌*◌, ◌/◌, ◌<◌, ◌≡◌, refl, sym, ◌∙◌, ◌⊎◌, Bool, true, false, none, some, Option,
  List, [], ◌∷◌, length, drop, get_or, set, replicate, ==_iff, arith, length-take, length-drop,
  Bool-cases, inl, inr,
}
use agent_transport.Base.Division.{div-eq}
use agent_transport.Receiver.State.{InMsg, ReceiverCore, complete, fresh_msg, store, accepts}
use agent_transport.Receiver.Reassembly.{Holds, marked_bytes, absorb, marked_bytes-le, chunk}
use agent_transport.Receiver.Complete.{Has}
use agent_transport.Receiver.Chunks.{HasIf, entry_of}

get_or-set_only :
    (xs : List Bool) (i j : ℕ)
    → get_or (set xs i true) j false ≡ true
    → (j ≡ i) ⊎ (get_or xs j false ≡ true)
get_or-set_only [] i j h = inr h
get_or-set_only (x ∷ xs) zero zero h = inl refl
get_or-set_only (x ∷ xs) zero (suc j) h = inr h
get_or-set_only (x ∷ xs) (suc i) zero h = inr h
get_or-set_only (x ∷ xs) (suc i) (suc j) h = elim (get_or-set_only xs i j h) [
  | inl same ↦ inl (omega (arith, same))
  | inr before ↦ inr before
]

-- A chunk that comes marks only itself.
pub absorb-Has_only :
    (pkt_size : ℕ) (bytes : List ℕ) (now : ℕ) (m : InMsg) (q i : ℕ)
    → 0 < pkt_size
    → Has (absorb pkt_size bytes now m q) i
    → (i ≡ q) ⊎ Has m i
unfolding absorb store
absorb-Has_only pkt_size bytes now m q i pos h =
    let idx : q * pkt_size / pkt_size ≡ q =
      div-eq (q * pkt_size) pkt_size q pos (omega arith) (omega arith) in
    elim (Bool-cases (accepts pkt_size m (length bytes) (q * pkt_size) (chunk pkt_size bytes q))) [
      | inl taken ↦ get_or-set_only m.received q i (rw (taken, idx) at h)
      | inr dropped ↦ inr (rw dropped at h)
    ]

none_marked : (n i : ℕ) → get_or (replicate n false) i false ≡ false
none_marked zero i = refl
none_marked (suc n) zero = refl
none_marked (suc n) (suc i) = none_marked n i

-- In the entry that the first packet makes, nothing is marked.
pub entry_of-Has_only :
    (s : ReceiverCore) (total_len now i : ℕ) (o : Option InMsg)
    → Has (entry_of s total_len now o) i
    → HasIf o i
unfolding fresh_msg
entry_of-Has_only s total_len now i none h = cc (sym h ∙ none_marked _ i)
entry_of-Has_only s total_len now i (some m) h = h

marked :
    (pkt_size : ℕ) (bytes : List ℕ) (received : List Bool) (q : ℕ)
    → 0 < pkt_size
    → marked_bytes pkt_size bytes received ≡ length bytes
    → q * pkt_size < length bytes
    → get_or received q false ≡ true
unfolding marked_bytes
marked pkt_size bytes [] q pos all inside = absurd (omega arith)
marked pkt_size bytes (false ∷ received) q pos all inside = absurd (
    omega
      (arith, marked_bytes-le pkt_size (drop pkt_size bytes) received, length-drop pkt_size bytes))
marked pkt_size bytes (true ∷ received) zero pos all inside = refl
marked pkt_size bytes (true ∷ received) (suc q) pos all inside =
    marked pkt_size (drop pkt_size bytes) received q pos
      (omega (arith, length-take pkt_size bytes, length-drop pkt_size bytes))
      (omega (arith, length-drop pkt_size bytes))

-- In a complete message every chunk is marked.
pub complete-Has :
    (pkt_size : ℕ) (bytes : List ℕ) (m : InMsg) (q : ℕ)
    → 0 < pkt_size
    → Holds pkt_size bytes m
    → complete m ≡ true
    → q * pkt_size < length bytes
    → Has m q
complete-Has pkt_size bytes m q pos h all inside =
    marked pkt_size bytes m.received q pos
      (sym h.counted ∙ ((==_iff m.received_bytes m.total_len).0 all ∙ h.total)) inside

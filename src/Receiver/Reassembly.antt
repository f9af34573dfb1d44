-- ===== src/Receiver/Reassembly.antt =====
-- Reassembly of one message from the chunks that an honest sender cuts it into: whatever chunks
-- have come, in whatever order and however often, the buffer agrees with the message where they lie.
use agent_transport.Base.{
  ℕ, ◌+◌, ◌*◌, ◌≤◌, ◌<◌, ◌≡◌, refl, sym, ◌∙◌, Bool, true, false, List, [], ◌∷◌, length, take, drop,
  ==_iff, arith, if◌then◌else◌, length-take, length-drop, take-append-drop, eq_of_empty,
}
use agent_transport.Receiver.State.{InMsg, complete, accepts, store}

-- The bytes of the chunks that the bitmap marks.
unfoldable pub marked_bytes : ℕ → List ℕ → List Bool → ℕ
marked_bytes pkt_size bytes [] = 0
marked_bytes pkt_size bytes (r ∷ received) =
    (if r then length (take pkt_size bytes) else 0)
    + marked_bytes pkt_size (drop pkt_size bytes) received

-- The buffer agrees with the message on every chunk that the bitmap marks.
abbrev pub Agrees : ℕ → List ℕ → List ℕ → List Bool → Type 0
Agrees pkt_size bytes buf [] = Unit
Agrees pkt_size bytes buf (r ∷ received) =
    (r ≡ true → take pkt_size buf ≡ take pkt_size bytes)
    × Agrees pkt_size (drop pkt_size bytes) (drop pkt_size buf) received

-- The receiver's view of the message `bytes`, some of whose chunks have come.
pub record Holds (pkt_size : ℕ) (bytes : List ℕ) (m : InMsg) : Type 0 where
  pub total : m.total_len ≡ length bytes
  pub sized : length m.buf ≡ length bytes
  pub covers : length bytes ≤ length m.received * pkt_size
  pub counted : m.received_bytes ≡ marked_bytes pkt_size bytes m.received
  pub agrees : Agrees pkt_size bytes m.buf m.received

-- Chunk q of a message.
unfoldable pub chunk : ℕ → List ℕ → ℕ → List ℕ
chunk pkt_size bytes q = take pkt_size (drop (q * pkt_size) bytes)

-- The bookkeeping of `handle_data` for chunk q of the message.
unfoldable pub absorb : ℕ → List ℕ → ℕ → InMsg → ℕ → InMsg
absorb pkt_size bytes now m q =
    let payload = chunk pkt_size bytes q in
    if accepts pkt_size m (length bytes) (q * pkt_size) payload
    then store pkt_size m (q * pkt_size) payload now
    else m

pub marked_bytes-le :
    (pkt_size : ℕ) (bytes : List ℕ) (received : List Bool)
    → marked_bytes pkt_size bytes received ≤ length bytes
unfolding marked_bytes
marked_bytes-le pkt_size bytes [] = omega arith
marked_bytes-le pkt_size bytes (true ∷ received) = omega (
  arith,
  marked_bytes-le pkt_size (drop pkt_size bytes) received,
  length-take pkt_size bytes,
  length-drop pkt_size bytes,
)
marked_bytes-le pkt_size bytes (false ∷ received) = omega (
  arith,
  marked_bytes-le pkt_size (drop pkt_size bytes) received,
  length-take pkt_size bytes,
  length-drop pkt_size bytes,
)

-- If all bytes are counted the buffer is the message.
Agrees-whole :
    (pkt_size : ℕ) (bytes buf : List ℕ) (received : List Bool)
    → 0 < pkt_size
    → length buf ≡ length bytes
    → length bytes ≤ length received * pkt_size
    → Agrees pkt_size bytes buf received
    → marked_bytes pkt_size bytes received ≡ length bytes
    → buf ≡ bytes
unfolding marked_bytes
Agrees-whole pkt_size [] [] [] pos sized covers agrees all = refl
Agrees-whole pkt_size (b ∷ bytes) buf [] pos sized covers agrees all = absurd (omega arith)
Agrees-whole pkt_size [] (b ∷ buf) [] pos sized covers agrees all = absurd (omega arith)
Agrees-whole pkt_size bytes buf (false ∷ received) pos sized covers agrees all =
    let none_left : length bytes ≡ 0 = omega (
      arith,
      length-take pkt_size bytes,
      length-drop pkt_size bytes,
      marked_bytes-le pkt_size (drop pkt_size bytes) received,
    ) in
    eq_of_empty buf bytes (sized ∙ none_left) none_left
Agrees-whole pkt_size bytes buf (true ∷ received) pos sized covers agrees all =
    let rest : drop pkt_size buf ≡ drop pkt_size bytes =
      Agrees-whole pkt_size (drop pkt_size bytes) (drop pkt_size buf) received pos
        (omega (arith, length-drop pkt_size buf, length-drop pkt_size bytes))
        (omega (arith, length-drop pkt_size bytes)) agrees.1
        (omega (
          arith,
          length-take pkt_size bytes,
          length-drop pkt_size bytes,
          marked_bytes-le pkt_size (drop pkt_size bytes) received,
        )) in
    sym (take-append-drop pkt_size buf)
    ∙ (rw (agrees.0 refl, rest) (take-append-drop pkt_size bytes))

-- A complete message is delivered as it was sent.
pub complete-Holds :
    (pkt_size : ℕ) (bytes : List ℕ) (m : InMsg)
    → 0 < pkt_size
    → Holds pkt_size bytes m
    → complete m ≡ true
    → m.buf ≡ bytes
complete-Holds pkt_size bytes m pos h all =
    Agrees-whole pkt_size bytes m.buf m.received pos h.sized h.covers h.agrees
      (omega (arith, h.counted, h.total, (==_iff _ _).0 all))

-- ===== src/Receiver/Absorb.antt =====
-- A chunk of a message from an honest sender is taken once, and the buffer still agrees with the
-- message.
use agent_transport.Base.{
  ℕ, zero, suc, ◌+◌, ◌-◌, ◌*◌, ◌/◌, ◌≤◌, ◌<◌, ◌≡◌, refl, sym, ap, ◌∙◌, min, Bool, true, false, not,
  List, [], ◌∷◌, ◌++◌, length, take, drop, get_or, set, arith, length-take, length-drop,
  length-append, Bool-cases, lt→ltb, le→leb, inl, inr, drop-drop, length-set,
}
use agent_transport.Base.Division.{div-eq}
use native.Mathlib.Nat.{zero-mul, zero-add, suc-add}
use agent_transport.Receiver.State.{InMsg, accepts, store, copy_into}
use agent_transport.Receiver.Reassembly.{Holds, Agrees, chunk, absorb, marked_bytes}

-- One step of the recursion over chunks, from chunk q + 1 of a message to chunk q of its rest.
chunk-suc :
    (pkt_size : ℕ) (bytes : List ℕ) (q : ℕ)
    → chunk pkt_size bytes (suc q) ≡ chunk pkt_size (drop pkt_size bytes) q
unfolding chunk
chunk-suc pkt_size bytes q =
    ap (take pkt_size)
      (sym (drop-drop pkt_size (q * pkt_size) bytes ∙ (ap (λ (n : ℕ). drop n bytes) (omega arith))))

chunk-zero : (pkt_size : ℕ) (bytes : List ℕ) → chunk pkt_size bytes 0 ≡ take pkt_size bytes
unfolding chunk
chunk-zero pkt_size bytes = rw (zero-mul pkt_size)

-- Writing the first chunk leaves the rest of the buffer.
overwrite_first :
    (n : ℕ) (bytes buf : List ℕ)
    → length buf ≡ length bytes
    → let out = take n bytes ++ drop (length (take n bytes)) buf in
      (take n out ≡ take n bytes) × (drop n out ≡ drop n buf)
overwrite_first zero bytes buf sized = (refl, refl)
overwrite_first (suc n) [] [] sized = (refl, refl)
overwrite_first (suc n) [] (c ∷ buf) sized = absurd (omega arith)
overwrite_first (suc n) (b ∷ bytes) [] sized = absurd (omega arith)
overwrite_first (suc n) (b ∷ bytes) (c ∷ buf) sized =
    let (front, back) = overwrite_first n bytes buf (omega arith) in (ap (◌∷◌ b) front, back)

copy_into-first :
    (n : ℕ) (bytes buf : List ℕ)
    → length buf ≡ length bytes
    → (take n (copy_into buf 0 (take n bytes)) ≡ take n bytes)
      × (drop n (copy_into buf 0 (take n bytes)) ≡ drop n buf)
unfolding copy_into
copy_into-first n bytes buf sized =
    rw (zero-add (length (take n bytes))) (overwrite_first n bytes buf sized)

-- Writing a later chunk leaves the first, and is a write to the rest of the buffer.
copy_into-later :
    (n : ℕ) (buf payload : List ℕ) (off : ℕ)
    → n ≤ length buf
    → (take n (copy_into buf (n + off) payload) ≡ take n buf)
      × (drop n (copy_into buf (n + off) payload) ≡ copy_into (drop n buf) off payload)
unfolding copy_into
copy_into-later zero buf payload off long = rw (zero-add off) (refl, refl)
copy_into-later (suc n) [] payload off long = absurd (omega arith)
copy_into-later (suc n) (b ∷ buf) payload off long =
    let (front, back) = copy_into-later n buf payload off (omega arith) in
    rw (suc-add n off, suc-add (n + off) (length payload)) (ap (◌∷◌ b) front, back)

Agrees-store :
    (pkt_size : ℕ) (bytes buf : List ℕ) (received : List Bool) (q : ℕ)
    → length buf ≡ length bytes
    → q * pkt_size < length bytes
    → Agrees pkt_size bytes buf received
    → Agrees pkt_size bytes
        (copy_into buf (q * pkt_size) (chunk pkt_size bytes q))
        (set received q true)
Agrees-store pkt_size bytes buf [] q sized inside agrees = tt
Agrees-store pkt_size bytes buf (r ∷ received) zero sized inside agrees =
    let (front, back) = copy_into-first pkt_size bytes buf sized in
    rw (zero-mul pkt_size, chunk-zero pkt_size bytes) ((λ _. front), rw back agrees.1)
Agrees-store pkt_size bytes buf (r ∷ received) (suc q) sized inside agrees =
    let next : suc q * pkt_size ≡ pkt_size + q * pkt_size = omega arith in
    let (front, back) =
      copy_into-later pkt_size buf (chunk pkt_size (drop pkt_size bytes) q) (q * pkt_size)
        (omega arith) in
    rw (next, chunk-suc pkt_size bytes q)
      (
        λ marked. front ∙ agrees.0 marked,
        rw back (
            Agrees-store pkt_size (drop pkt_size bytes) (drop pkt_size buf) received q
              (omega (arith, length-drop pkt_size bytes, length-drop pkt_size buf))
              (omega (arith, length-drop pkt_size bytes)) agrees.1),
      )

marked_bytes-store :
    (pkt_size : ℕ) (bytes : List ℕ) (received : List Bool) (q : ℕ)
    → q < length received
    → get_or received q false ≡ false
    → marked_bytes pkt_size bytes (set received q true)
      ≡ marked_bytes pkt_size bytes received + length (chunk pkt_size bytes q)
unfolding marked_bytes
marked_bytes-store pkt_size bytes [] q inside unmarked = absurd (omega arith)
marked_bytes-store pkt_size bytes (r ∷ received) zero inside unmarked =
    rw (unmarked, chunk-zero pkt_size bytes) (omega arith)
marked_bytes-store pkt_size bytes (r ∷ received) (suc q) inside unmarked = omega (
  arith,
  marked_bytes-store pkt_size (drop pkt_size bytes) received q (omega arith) unmarked,
  ap length (chunk-suc pkt_size bytes q),
)

pub length-chunk :
    (pkt_size : ℕ) (bytes : List ℕ) (q : ℕ)
    → length (chunk pkt_size bytes q) ≡ min pkt_size (length bytes - q * pkt_size)
unfolding chunk
length-chunk pkt_size bytes q =
    omega
      (arith, length-take pkt_size (drop (q * pkt_size) bytes), length-drop (q * pkt_size) bytes)

pub length-copy_into :
    (buf : List ℕ) (off : ℕ) (payload : List ℕ)
    → off + length payload ≤ length buf
    → length (copy_into buf off payload) ≡ length buf
unfolding copy_into
length-copy_into buf off payload fits = omega (
  arith,
  length-append (take off buf) (payload ++ drop (off + length payload) buf),
  length-append payload (drop (off + length payload) buf),
  length-take off buf,
  length-drop (off + length payload) buf,
)

-- A chunk of the message is one of the bitmap's.
pub index-lt : (pkt_size size n q : ℕ) → q * pkt_size < size → size ≤ n * pkt_size → q < n
index-lt pkt_size size n q inside covers = grind arith

-- An honest chunk is accepted exactly if it has not come before.
pub accepts-chunk :
    (pkt_size : ℕ) (bytes : List ℕ) (m : InMsg) (q : ℕ)
    → 0 < pkt_size
    → q * pkt_size < length bytes
    → Holds pkt_size bytes m
    → accepts pkt_size m (length bytes) (q * pkt_size) (chunk pkt_size bytes q)
      ≡ not (get_or m.received q false)
unfolding accepts
accepts-chunk pkt_size bytes m q pos inside h =
    let idx : q * pkt_size / pkt_size ≡ q =
      div-eq (q * pkt_size) pkt_size q pos (omega arith) (omega arith) in
    let known = index-lt pkt_size (length bytes) (length m.received) q inside h.covers in
    rw
      (
        idx,
        lt→ltb _ _ known,
        le→leb (q * pkt_size + length (chunk pkt_size bytes q)) (length bytes)
            (omega (arith, length-chunk pkt_size bytes q)),
      )
      (ground arith)

pub store-Holds :
    (pkt_size : ℕ) (bytes : List ℕ) (now : ℕ) (m : InMsg) (q : ℕ)
    → 0 < pkt_size
    → q * pkt_size < length bytes
    → get_or m.received q false ≡ false
    → Holds pkt_size bytes m
    → Holds pkt_size bytes (store pkt_size m (q * pkt_size) (chunk pkt_size bytes q) now)
unfolding store
store-Holds pkt_size bytes now m q pos inside unmarked h =
    let idx : q * pkt_size / pkt_size ≡ q =
      div-eq (q * pkt_size) pkt_size q pos (omega arith) (omega arith) in
    let known = index-lt pkt_size (length bytes) (length m.received) q inside h.covers in
    rw idx (record {
      total = h.total;
      sized =
          length-copy_into m.buf (q * pkt_size) (chunk pkt_size bytes q)
            (omega (arith, length-chunk pkt_size bytes q, h.sized))
          ∙ h.sized;
      covers = rw (length-set m.received q true) h.covers;
      counted =
          omega (arith, h.counted, marked_bytes-store pkt_size bytes m.received q known unmarked);
      agrees = Agrees-store pkt_size bytes m.buf m.received q h.sized inside h.agrees;
    })

-- Whatever chunk of the message comes, the buffer still agrees with the message.
pub absorb-Holds :
    (pkt_size : ℕ) (bytes : List ℕ) (now : ℕ) (m : InMsg) (q : ℕ)
    → 0 < pkt_size
    → q * pkt_size < length bytes
    → Holds pkt_size bytes m
    → Holds pkt_size bytes (absorb pkt_size bytes now m q)
unfolding absorb
absorb-Holds pkt_size bytes now m q pos inside h = elim (Bool-cases (get_or m.received q false)) [
  | inl old ↦ rw (accepts-chunk pkt_size bytes m q pos inside h, old) h
  | inr new ↦
      rw (accepts-chunk pkt_size bytes m q pos inside h, new)
        (store-Holds pkt_size bytes now m q pos inside new h)
]

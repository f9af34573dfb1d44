-- ===== src/Packet/Rejects.antt =====
-- Which datagrams `decode` refuses, and with which error.
use agent_transport.Base.{
  ℕ, ◌-◌, ◌<◌, ◌≤◌, ◌≡◌, refl, ◌≢◌, ◌↔◌, List, length, take, drop, get_or, arith, Bool-cases,
  ltb→lt, ltb→le, inl, inr, length-drop, ltb,
}
use agent_transport.Base.Bytes.{from_le_bytes}
use agent_transport.Packet.{
  from_u8, decode, err, DecodeError, too_short, unknown_type, length_mismatch, header_len,
  read_header, read_typed, Decoded,
}

abbrev pub Rejects : DecodeError → List ℕ → Type 0
Rejects too_short datagram = length datagram < header_len
Rejects unknown_type datagram = (header_len ≤ length datagram) × (3 < get_or datagram 0 0)
Rejects length_mismatch datagram =
    (header_len ≤ length datagram)
    × (get_or datagram 0 0 ≡ 0)
    × (length datagram - header_len ≢ from_le_bytes (take 4 (drop 18 datagram)))

read_typed-err :
    (v : ℕ) (datagram : List ℕ) (e : DecodeError)
    → get_or datagram 0 0 ≡ v
    → header_len ≤ length datagram
    → (read_typed (from_u8 v) datagram ≡ err e) ↔ Rejects e datagram
unfolding from_u8 read_header
read_typed-err v datagram too_short first long = (λ h. ground arith, λ h. absurd (omega arith))
read_typed-err v datagram unknown_type first long = (λ h. ground arith, λ h. ground arith)
read_typed-err v datagram length_mismatch first long = (
  λ h. ground (arith, length-drop header_len datagram),
  λ h. ground (arith, length-drop header_len datagram),
)

short-err :
    (datagram : List ℕ) (e : DecodeError)
    → length datagram < header_len
    → (◌≡◌ {A = Decoded} (err too_short) (err e)) ↔ Rejects e datagram
short-err datagram too_short short = (λ h. short, λ h. refl)
short-err datagram unknown_type short = (λ h. cc, λ h. absurd (omega arith))
short-err datagram length_mismatch short = (λ h. cc, λ h. absurd (omega arith))

-- `decode` refuses a datagram with an error exactly when that error's condition holds: it is
-- shorter than a header; its first byte is no packet type; or it is a DATA packet whose payload
-- has another length than the header states.
pub decode-Rejects :
    (datagram : List ℕ) (e : DecodeError) → (decode datagram ≡ err e) ↔ Rejects e datagram
unfolding decode
decode-Rejects datagram e = elim (Bool-cases (ltb (length datagram) header_len)) [
  | inl short ↦ rw short (short-err datagram e (ltb→lt _ _ short))
  | inr long ↦ rw long (read_typed-err _ datagram e refl (ltb→le _ _ long))
]

-- ===== src/Packet/RoundTrip.antt =====
-- `encode` and `decode` against one another.
use agent_transport.Base.{
  ℕ, ◌+◌, ◌≤◌, ◌≡◌, refl, true, some, List, [], ◌∷◌, length, drop, All, arith, le→ltb, get_or,
  Option-cases, inl, inr,
}
use agent_transport.Base.Bytes.{IsByte, le_bytes, from_le_bytes-le_bytes, le_bytes-slice}
use agent_transport.Packet.{
  PacketType, «data», grant, resend, busy, as_u8, from_u8, Packet, IsPacket, encode, decode, ok,
  read_header, header_len, is_data, check_length,
}

pub from_u8-as_u8 : (t : PacketType) → from_u8 (as_u8 t) ≡ some t
unfolding as_u8 from_u8
from_u8-as_u8 «data» = refl
from_u8-as_u8 grant = refl
from_u8-as_u8 resend = refl
from_u8-as_u8 busy = refl

read_header-encode :
    (p : Packet) (payload : List ℕ) → IsPacket p → read_header p.typ (encode p payload) ≡ p
unfolding encode read_header le_bytes
read_header-encode p payload v = ground (
  arith,
  from_le_bytes-le_bytes 8 p.msg_id,
  from_le_bytes-le_bytes 4 p.msg_len,
  from_le_bytes-le_bytes 4 p.offset,
  from_le_bytes-le_bytes 4 p.length,
)

-- The length test of `decode`, passed.
abbrev pub LengthFits : Packet → List ℕ → Type 0
LengthFits p payload = is_data p.typ ≡ true → length payload ≡ p.length

module _ (p : Packet) (payload : List ℕ) where
  length-encode : length (encode p payload) ≡ header_len + length payload
  unfolding encode le_bytes
  length-encode = omega arith

  drop-encode : drop header_len (encode p payload) ≡ payload
  unfolding encode le_bytes
  drop-encode = refl

  get_or-encode : get_or (encode p payload) 0 0 ≡ as_u8 p.typ
  unfolding encode
  get_or-encode = refl

  check_length_lem : LengthFits p payload → check_length p payload ≡ ok p payload
  check_length_lem fits = ground arith

-- A header whose fields are in range, encoded with a payload, decodes to itself and that payload,
-- if a DATA packet's payload has the length that its header states.
pub decode-encode :
    (p : Packet) (payload : List ℕ)
    → IsPacket p
    → LengthFits p payload
    → decode (encode p payload) ≡ ok p payload
unfolding decode
decode-encode p payload v fits =
    rw
      (
        le→ltb (length (encode p payload)) header_len (omega (arith, length-encode p payload)),
        get_or-encode p payload,
        from_u8-as_u8 p.typ,
        read_header-encode p payload v,
        drop-encode p payload,
      )
      (check_length_lem p payload fits)

as_u8-from_u8 : (v : ℕ) (t : PacketType) → from_u8 v ≡ some t → as_u8 t ≡ v
unfolding from_u8
as_u8-from_u8 v «data» h = unfold as_u8 in ground arith
as_u8-from_u8 v grant h = unfold as_u8 in ground arith
as_u8-from_u8 v resend h = unfold as_u8 in ground arith
as_u8-from_u8 v busy h = unfold as_u8 in ground arith

first_two : (bs : List ℕ) → 2 ≤ length bs → get_or bs 0 0 ∷ (get_or bs 1 0 ∷ drop 2 bs) ≡ bs
first_two [] h = absurd (omega arith)
first_two (a ∷ []) h = absurd (omega arith)
first_two (a ∷ b ∷ bs) h = refl

-- A header that was read from bytes is written back as the same bytes.
encode-read_header :
    (t : PacketType) (datagram : List ℕ)
    → All IsByte datagram
    → header_len ≤ length datagram
    → as_u8 t ≡ get_or datagram 0 0
    → encode (read_header t datagram) (drop header_len datagram) ≡ datagram
unfolding encode read_header
encode-read_header t datagram bytes long first =
    rw
      (
        le_bytes-slice 18 4 datagram bytes (omega arith),
        le_bytes-slice 14 4 datagram bytes (omega arith),
        le_bytes-slice 10 4 datagram bytes (omega arith),
        le_bytes-slice 2 8 datagram bytes (omega arith),
        first,
      )
      (first_two datagram (omega arith))

-- What a datagram looks like that decodes.
abbrev pub Reads : List ℕ → Packet → List ℕ → Type 0
Reads datagram p payload =
    (header_len ≤ length datagram)
    × (from_u8 (get_or datagram 0 0) ≡ some p.typ)
    × (p ≡ read_header p.typ datagram)
    × (payload ≡ drop header_len datagram)
    × LengthFits p payload

check_length-Reads :
    (t : PacketType) (datagram payload : List ℕ) (p : Packet)
    → header_len ≤ length datagram
    → from_u8 (get_or datagram 0 0) ≡ some t
    → check_length (read_header t datagram) (drop header_len datagram) ≡ ok p payload
    → Reads datagram p payload
unfolding read_header
check_length-Reads t datagram payload p long first h = ground arith

pub decode-Reads :
    (datagram payload : List ℕ) (p : Packet)
    → decode datagram ≡ ok p payload
    → Reads datagram p payload
unfolding decode
decode-Reads datagram payload p h = elim (Option-cases (from_u8 (get_or datagram 0 0))) [
  | inl e ↦ ground (arith, e)
  | inr (t, e) ↦ check_length-Reads t datagram payload p (ground arith) e (ground (arith, e))
]

-- A datagram that decodes is the encoding of what it decodes to: no byte of it is lost.
pub encode-decode :
    (datagram payload : List ℕ) (p : Packet)
    → All IsByte datagram
    → decode datagram ≡ ok p payload
    → encode p payload ≡ datagram
encode-decode datagram payload p bytes h =
    let (long, first, whole, rest, _) = decode-Reads datagram payload p h in
    rw (whole, rest) (encode-read_header p.typ datagram bytes long (as_u8-from_u8 _ p.typ first))

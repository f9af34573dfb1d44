-- ===== src/Packet.antt =====
-- transport/packet.rs: the 22-byte little-endian header, and a datagram as a list of bytes.
pub mod RoundTrip
pub mod Rejects
use agent_transport.Base.{
  ℕ, ◌<◌, ◌≡◌, Bool, true, false, ◌&&◌, not, Option, none, some, List, [], ◌∷◌, ◌++◌, length,
  get_or, take, drop, ltb, ◌==◌, if◌then◌else◌,
}
use agent_transport.Base.Bytes.{IsByte, IsU32, IsU64, le_bytes, from_le_bytes}

abbrev pub header_len : ℕ
header_len = 22

pub data PacketType : Type 0 where
  «data» grant resend busy : PacketType

-- `typ as u8`
unfoldable pub as_u8 : PacketType → ℕ
as_u8 «data» = 0
as_u8 grant = 1
as_u8 resend = 2
as_u8 busy = 3

unfoldable pub from_u8 : ℕ → Option PacketType
from_u8 v =
    if v == 0
    then some «data»
    else if v == 1
    then some grant
    else if v == 2
    then some resend
    else if v == 3
    then some busy
    else none

pub record Packet : Type 0 where
  pub typ : PacketType
  pub priority : ℕ
  pub msg_id : ℕ
  pub msg_len : ℕ
  pub offset : ℕ
  pub length : ℕ

-- The ranges of the fields' types u8, u64 and u32.
pub record IsPacket (p : Packet) : Type 0 where
  pub priority_u8 : IsByte p.priority
  pub msg_id_u64 : IsU64 p.msg_id
  pub msg_len_u32 : IsU32 p.msg_len
  pub offset_u32 : IsU32 p.offset
  pub length_u32 : IsU32 p.length

unfoldable pub new : PacketType → ℕ → ℕ → ℕ → ℕ → ℕ → Packet
new typ priority msg_id msg_len offset length = record {
  typ = typ;
  priority = priority;
  msg_id = msg_id;
  msg_len = msg_len;
  offset = offset;
  length = length;
}

unfoldable pub encode : Packet → List ℕ → List ℕ
unfolding as_u8
encode p payload =
    as_u8 p.typ
    ∷ (p.priority
        ∷ (le_bytes 8 p.msg_id
            ++ (le_bytes 4 p.msg_len ++ (le_bytes 4 p.offset ++ (le_bytes 4 p.length ++ payload)))))

-- The three uses of `io::ErrorKind::InvalidData`, told apart by their messages.
pub data DecodeError : Type 0 where
  too_short unknown_type length_mismatch : DecodeError

pub data Decoded : Type 0 where
  ok : Packet → List ℕ → Decoded
  err : DecodeError → Decoded

abbrev pub is_data : PacketType → Bool
is_data «data» = true
is_data grant = false
is_data resend = false
is_data busy = false

-- The header that `decode` reads from a datagram of at least 22 bytes.
unfoldable pub read_header : PacketType → List ℕ → Packet
read_header typ datagram = record {
  typ = typ;
  priority = get_or datagram 1 0;
  msg_id = from_le_bytes (take 8 (drop 2 datagram));
  msg_len = from_le_bytes (take 4 (drop 10 datagram));
  offset = from_le_bytes (take 4 (drop 14 datagram));
  length = from_le_bytes (take 4 (drop 18 datagram));
}

abbrev pub check_length : Packet → List ℕ → Decoded
check_length pkt payload =
    if is_data pkt.typ && not (length payload == pkt.length)
    then err length_mismatch
    else ok pkt payload

abbrev pub read_typed : Option PacketType → List ℕ → Decoded
read_typed none datagram = err unknown_type
read_typed (some typ) datagram = check_length (read_header typ datagram) (drop header_len datagram)

unfoldable pub decode : List ℕ → Decoded
decode datagram =
    if ltb (length datagram) header_len
    then err too_short
    else read_typed (from_u8 (get_or datagram 0 0)) datagram

-- ===== src/Tests/Wire.antt =====
-- Tests of transport/packet.rs and transport/priority.rs.
use agent_transport.Base.{ℕ, ◌≤◌, ◌≡◌, ◌↔◌, refl, List, [], ◌∷◌, arith, get_or}
use agent_transport.Base.Bytes.{from_le_bytes}
use agent_transport.Packet.{
  Packet, «data», grant, encode, decode, ok, err, too_short, from_u8, read_header,
}
use agent_transport.Packet.RoundTrip.{decode-encode, encode-decode}
use agent_transport.Packet.Rejects.{Rejects, decode-Rejects}
use agent_transport.Priority.{priority_for_len, thresholds}
use agent_transport.Priority.Laws.{priority_for_len_first}

-- "hello world", and the header of the repository's own test.
abbrev hello : List ℕ
hello = 104 ∷ 101 ∷ 108 ∷ 108 ∷ 111 ∷ 32 ∷ 119 ∷ 111 ∷ 114 ∷ 108 ∷ 100 ∷ []

abbrev hello_packet : Packet
hello_packet = record {
  typ = «data»;
  priority = 3;
  msg_id = 0xdead_beef;
  msg_len = 5000;
  offset = 2400;
  length = 11;
}

decode-encode_example : decode (encode hello_packet hello) ≡ ok hello_packet hello
decode-encode_example = decode-encode hello_packet hello (omega arith) (λ _. refl)

abbrev grant_packet : Packet
grant_packet = record {
  typ = grant;
  priority = 2;
  msg_id = 7;
  msg_len = 0;
  offset = 300;
  length = 44;
}

abbrev grant_datagram : List ℕ
grant_datagram =
    1 ∷ 2 ∷ 7 ∷ 0 ∷ 0 ∷ 0 ∷ 0 ∷ 0 ∷ 0 ∷ 0 ∷ 0 ∷ 0 ∷ 0 ∷ 0 ∷ 44 ∷ 1 ∷ 0 ∷ 0 ∷ 44 ∷ 0 ∷ 0 ∷ 0 ∷ []

decode_grant : decode grant_datagram ≡ ok grant_packet []
unfolding decode from_u8 read_header from_le_bytes
decode_grant = refl

encode-decode_example : encode grant_packet [] ≡ grant_datagram
encode-decode_example = encode-decode grant_datagram [] grant_packet (omega arith) decode_grant

decode-Rejects_example : (decode (0 ∷ 0 ∷ []) ≡ err too_short) ↔ Rejects too_short (0 ∷ 0 ∷ [])
decode-Rejects_example = decode-Rejects (0 ∷ 0 ∷ []) too_short

levels : (priority_for_len 64 ≡ 0) × (priority_for_len 1024 ≡ 2) × (priority_for_len 1_048_576 ≡ 5)
unfolding priority_for_len
levels = (refl, refl, refl)

priority_for_len_first_example : 1024 ≤ get_or thresholds (priority_for_len 1024) 0
priority_for_len_first_example = (priority_for_len_first 1024 (omega arith)).0

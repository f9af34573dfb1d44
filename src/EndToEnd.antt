-- ===== src/EndToEnd.antt =====
-- From `start` of src/transport/sender.rs to `handle_data` of src/transport/receiver.rs: what the
-- receiver decodes from the packets of the sender, and that it delivers the message.
pub mod Network
pub mod Silent
pub mod Exchange
use agent_transport.Base.{
  ℕ, suc, ◌+◌, ◌-◌, ◌*◌, ◌^◌, ◌≤◌, ◌<◌, ◌≡◌, refl, sym, ap, ◌∙◌, min, List, [], ◌∷◌, length, take,
  drop, length-take, length-drop, take_all, arith, if◌then◌else◌, inl, inr, Bool-cases, leb, leb→le,
  leb→lt,
}
use native.Mathlib.Nat.{mod-eq_of_lt}
use agent_transport.Base.Bytes.{IsU32, IsU64}
use agent_transport.Base.Division.{mul_mono}
use agent_transport.Packet.{Packet, PacketType, «data», decode, ok, err, is_data, IsPacket}
use agent_transport.Packet
use agent_transport.Packet.RoundTrip.{decode-encode}
use agent_transport.Priority.Laws.{priority_for_len-lt}
use agent_transport.Config.{SocketAddr, MsgKey, msg_key, msg_key_eq, Action, send, deliver}
use agent_transport.Sender.{SenderCore, start, slice, data_header, data_packet}
use agent_transport.Sender.Pump.{Sends, done, chunk, Sends-le, start_whole}
use agent_transport.Receiver.State.{ReceiverCore}
use agent_transport.Receiver.Handlers.{returns}
use agent_transport.Receiver.Reassembly.{chunk as chunk_of}
use agent_transport.Receiver.Chunks.{IsChunk, Pending, deliveries}
use agent_transport.Receiver.Arrivals.{Arrival, feed, Honest, Comes, feed_all}

-- The DATA packets among what a sender pushes, as the peer decodes them.
unfoldable pub arrivals : ℕ → List Action → List Arrival
arrivals now [] = []
arrivals now (deliver src msg_id bytes ∷ actions) = arrivals now actions
arrivals now (send dest bytes ∷ actions) =
    let rest = arrivals now actions in
    elim (decode bytes) [
      | err e ↦ rest
      | ok pkt payload ↦
          if is_data pkt.typ
          then record { packet = pkt; payload = payload; now = now } ∷ rest
          else rest
    ]

take-min : (n : ℕ) (xs : List ℕ) → take (min n (length xs)) xs ≡ take n xs
take-min n xs = elim (Bool-cases (leb n (length xs))) [
  | inl within ↦ ap (λ (k : ℕ). take k xs) (omega (arith, leb→le _ _ within))
  | inr past ↦
      let lt = leb→lt _ _ past in
      ap (λ (k : ℕ). take k xs) (omega arith)
      ∙ (take_all (length xs) xs (omega arith) ∙ sym (take_all n xs (omega arith)))
]

-- The payload of a chunk that starts at a multiple of the packet size.
slice-chunk :
    (pkt_size : ℕ) (bytes : List ℕ) (q : ℕ)
    → q * pkt_size < length bytes
    → slice bytes (q * pkt_size) (min (q * pkt_size + pkt_size) (length bytes))
      ≡ chunk_of pkt_size bytes q
unfolding chunk_of
slice-chunk pkt_size bytes q inside =
    let rest = drop (q * pkt_size) bytes in
    ap (λ (k : ℕ). take k rest) (omega (arith, length-drop (q * pkt_size) bytes))
    ∙ take-min pkt_size rest

header_lem :
    (pkt_size : ℕ) (bytes : List ℕ) (msg_id q : ℕ)
    → IsU32 (length bytes)
    → IsU64 msg_id
    → q * pkt_size < length bytes
    → let start = q * pkt_size in
      let p = data_header bytes msg_id start (min (start + pkt_size) (length bytes)) in
      (p.typ ≡ «data»)
      × IsPacket p
      × (p.msg_id ≡ msg_id)
      × (p.msg_len ≡ length bytes)
      × (p.offset ≡ start)
      × (length (slice bytes start (min (start + pkt_size) (length bytes))) ≡ p.length)
unfolding data_header Packet.new
header_lem pkt_size bytes msg_id q short id inside =
    let rest = drop (q * pkt_size) bytes in
    let payload = slice bytes (q * pkt_size) (min (q * pkt_size + pkt_size) (length bytes)) in
    let small : length payload < 2 ^ 32 = omega (
      arith,
      length-take (min (q * pkt_size + pkt_size) (length bytes) - q * pkt_size) rest,
      length-drop (q * pkt_size) bytes,
    ) in
    let level = priority_for_len-lt (length bytes) in
    let whole = mod-eq_of_lt short in
    let here = mod-eq_of_lt {n = q * pkt_size} {m = 2 ^ 32} (omega arith) in
    let part = mod-eq_of_lt small in
    (
      refl,
      record {
        priority_u8 = omega arith;
        msg_id_u64 = id;
        msg_len_u32 = rw whole short;
        offset_u32 = rw here (omega arith);
        length_u32 = rw part small;
      },
      refl,
      whole,
      here,
      sym part,
    )

-- One chunk's packet, decoded.
pub record Decodes (pkt_size : ℕ) (bytes : List ℕ) (msg_id q : ℕ) (datagram : List ℕ) : Type 0 where
  pub packet : Packet
  pub payload : List ℕ
  pub decodes : decode datagram ≡ ok packet payload
  pub typ : packet.typ ≡ «data»
  pub named : packet.msg_id ≡ msg_id
  pub carried : IsChunk pkt_size bytes q packet payload

pub data_packet-Decodes :
    (pkt_size : ℕ) (bytes : List ℕ) (msg_id q : ℕ)
    → IsU32 (length bytes)
    → IsU64 msg_id
    → q * pkt_size < length bytes
    → Decodes pkt_size bytes msg_id q
        (data_packet bytes msg_id (q * pkt_size) (min (q * pkt_size + pkt_size) (length bytes)))
unfolding data_packet
data_packet-Decodes pkt_size bytes msg_id q short id inside =
    let end = min (q * pkt_size + pkt_size) (length bytes) in
    let p = data_header bytes msg_id (q * pkt_size) end in
    let payload = slice bytes (q * pkt_size) end in
    let (typ, valid, named, states, starts, fits) =
      header_lem pkt_size bytes msg_id q short id inside in
    record {
      packet = p;
      payload = payload;
      decodes = decode-encode p payload valid (λ h. fits);
      typ = typ;
      named = named;
      carried = record {
        states_length = states;
        starts = starts;
        carries = slice-chunk pkt_size bytes q inside;
        inside = inside;
      };
    }

arrivals-cons :
    (now : ℕ) (dest : SocketAddr) (datagram : List ℕ) (more : List Action) (pkt : Packet)
    (payload : List ℕ)
    → decode datagram ≡ ok pkt payload
    → pkt.typ ≡ «data»
    → arrivals now (send dest datagram ∷ more)
      ≡ record { packet = pkt; payload = payload; now = now } ∷ arrivals now more
unfolding arrivals
arrivals-cons now dest datagram more pkt payload e typ = rw (e, arrivals, typ) refl

-- What comes of the packets from chunk q on: honest packets, among them every chunk from q on.
abbrev AllFrom : ℕ → List ℕ → ℕ → ℕ → List Arrival → Type 0
AllFrom pkt_size bytes msg_id q arrived =
    Honest pkt_size bytes msg_id arrived
    × ((i : ℕ) → q ≤ i → i * pkt_size < length bytes → Comes pkt_size i arrived)

one_chunk :
    (pkt_size : ℕ) (bytes : List ℕ) (msg_id q now : ℕ) (dest : SocketAddr) (datagram : List ℕ)
    (more : List Action)
    → 0 < pkt_size
    → Decodes pkt_size bytes msg_id q datagram
    → AllFrom pkt_size bytes msg_id (suc q) (arrivals now more)
    → AllFrom pkt_size bytes msg_id q (arrivals now (send dest datagram ∷ more))
one_chunk pkt_size bytes msg_id q now dest datagram more pos d (honest, all) =
    rw (arrivals-cons now dest datagram more d.packet d.payload d.decodes d.typ) (
      ((d.named, (q, d.carried)), honest),
      λ i from inside. elim (Bool-cases (leb i q)) [
        | inl first ↦
            let same : i ≡ q = omega (arith, leb→le _ _ first) in
            inl (d.carried.starts ∙ ap (λ (j : ℕ). j * pkt_size) (sym same))
        | inr later ↦ inr (all i (omega (arith, leb→lt _ _ later)) inside)
      ],
    )

Sends-AllFrom :
    {pkt_size : ℕ} {key : MsgKey} {bytes : List ℕ} {b a : ℕ} {pushed : List Action} (now q : ℕ)
    → IsU32 (length bytes)
    → IsU64 key.id
    → 0 < pkt_size
    → b ≡ length bytes
    → a ≡ min (q * pkt_size) (length bytes)
    → Sends pkt_size key bytes b a pushed
    → AllFrom pkt_size bytes key.id q (arrivals now pushed)
Sends-AllFrom {pkt_size} {key} {bytes} {b} {a} now q short id pos end at done =
    unfold arrivals in (tt, λ i from inside. absurd (omega (arith, mul_mono q i pkt_size from)))
Sends-AllFrom {pkt_size} {key} {bytes} {b} {a} now q short id pos end at
      (chunk {e = e} {later = later} more size sent) =
    let here : a ≡ q * pkt_size = omega (arith, Sends-le sent) in
    let size' : e ≡ min (q * pkt_size + pkt_size) (length bytes) = rw here at size in
    one_chunk pkt_size bytes key.id q now key.addr (data_packet bytes key.id a e) later pos
      (rw (here, size')
        (data_packet-Decodes pkt_size bytes key.id q short id (omega (arith, Sends-le sent))))
      (Sends-AllFrom now (suc q) short id pos end (omega arith) sent)

-- A message that fits the sender's unscheduled window is delivered in one trip, without a GRANT:
-- the packets that `start` pushes, decoded by a receiver that has room for the message and the same
-- packet size, make it deliver the message once, with the sender's bytes. The message has between 1
-- and 2^32 - 1 bytes.
pub single_trip :
    (s : SenderCore) (r : ReceiverCore) (src dest : SocketAddr) (msg_id : ℕ) (bytes : List ℕ)
    (now later : ℕ)
    → 0 < s.cfg.packet_size
    → 0 < length bytes
    → length bytes ≤ s.cfg.unscheduled_bytes
    → IsU32 (length bytes)
    → IsU64 msg_id
    → Pending s.cfg.packet_size bytes (msg_key src msg_id) r
    → let sent = (start s dest msg_id bytes now).1 in
      (out : ReceiverCore × List Action) × (feed r src (arrivals later sent) ≡ returns out)
      × (deliveries out.1 ≡ deliver src msg_id bytes ∷ [])
single_trip s r src dest msg_id bytes now later pos some_bytes fits short id pending =
    let (sent, finished) = start_whole s dest msg_id bytes now pos fits in
    let (honest, all) = Sends-AllFrom later 0 short id pos refl (omega arith) sent in
    feed_all s.cfg.packet_size bytes r src msg_id _ some_bytes pending honest
      (λ i inside. inr (all i (omega arith) inside))

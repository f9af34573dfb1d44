-- ===== src/EndToEnd/Exchange/Flights.antt =====
-- The datagrams of an exchange: packets of chunks on their way down, GRANTs on their way up.
use agent_transport.Base.{
  ℕ, suc, ◌+◌, ◌-◌, ◌*◌, ◌≤◌, ◌<◌, ◌≡◌, refl, sym, ap, ◌∙◌, min, List, [], map, length, All, arith,
  inl, inr, Bool-cases, leb, leb→le, leb→lt,
}
use agent_transport.Base.Division.{mul_mono, mul_cancel}
use agent_transport.Base.Picks.{Any}
use agent_transport.Base.Bytes.{IsU32, IsU64, as_u32}
use native.Mathlib.Nat.{mod-eq_of_lt}
use agent_transport.Packet.{Packet, grant, decode, ok, err, IsPacket}
use agent_transport.Packet
use agent_transport.Packet.RoundTrip.{decode-encode}
use agent_transport.Priority.{priority_for_len}
use agent_transport.Priority.Laws.{priority_for_len-lt}
use agent_transport.Config.{SocketAddr, MsgKey, msg_key, Action}
use agent_transport.Sender.{data_packet}
use agent_transport.Sender.Pump.{Sends, done, chunk, Sends-le}
use agent_transport.Sender.Genuine.{OnGrid}
use agent_transport.Receiver.Single.{credit_datagram}
use agent_transport.Receiver.Arrivals.{same_chunk}
use agent_transport.EndToEnd.{Decodes, data_packet-Decodes}
use agent_transport.EndToEnd.Exchange.{Flight, down, up, datagrams}

module _ (packet_size : ℕ) (bytes : List ℕ) (key : MsgKey) where
  -- The packet of chunk q.
  abbrev pub packet_of : ℕ → List ℕ
  packet_of q =
      data_packet bytes key.id (q * packet_size)
        (min (q * packet_size + packet_size) (length bytes))

  abbrev pub Carries : ℕ → Flight → Type 0
  Carries q (down datagram) = datagram ≡ packet_of q
  Carries q (up datagram) = ⊥

  -- A GRANT up to `target`.
  abbrev pub Credits : ℕ → Flight → Type 0
  Credits target (down datagram) = ⊥
  Credits target (up datagram) =
      (added : ℕ) × (datagram ≡ credit_datagram key (length bytes) target added)

  -- A packet of what has been sent of the message, up to `sent`; or a GRANT.
  abbrev pub IsFlight : ℕ → Flight → Type 0
  IsFlight sent (down datagram) = (q : ℕ) × (q * packet_size < sent) × (datagram ≡ packet_of q)
  IsFlight sent (up datagram) =
      (target : ℕ) × (target ≤ length bytes) × Credits target (up datagram)

  pub IsFlight-more : (a b : ℕ) (flight : Flight) → a ≤ b → IsFlight a flight → IsFlight b flight
  IsFlight-more a b (down datagram) fwd (q, inside, e) = (q, omega arith, e)
  IsFlight-more a b (up datagram) fwd h = h

  -- What goes down when the bytes from `a` to `b` are sent.
  pub record Descends (a b : ℕ) (net : List Flight) : Type 0 where
    pub flights : All (IsFlight b) net
    pub covers : (i : ℕ) → a ≤ i * packet_size → i * packet_size < b → Any (Carries i) net
    pub few : length net ≤ b - a

  descend_from :
      {dest : SocketAddr} {b a : ℕ} {pushed : List Action} (q : ℕ)
      → 0 < packet_size
      → a ≡ min (q * packet_size) (length bytes)
      → Sends packet_size (msg_key dest key.id) bytes b a pushed
      → Descends a b (map (λ d. down d) (datagrams pushed))
  unfolding datagrams
  descend_from q pos at done = record {
    flights = tt;
    covers = λ i lo hi. absurd (omega arith);
    few = omega arith;
  }
  descend_from {b = b} q pos at (chunk {a = a} {e = e} more size sent) =
      let (fwd, bound) = Sends-le sent in
      let here : a ≡ q * packet_size = omega arith in
      let next : e ≡ min (q * packet_size + packet_size) (length bytes) = omega arith in
      let rest = descend_from (suc q) pos (omega arith) sent in
      record {
        flights = ((q, omega arith, rw (here, next) refl), rest.flights);
        covers = λ i lo hi. elim (Bool-cases (leb i q)) [
          | inl first ↦
              let same : i ≡ q =
                omega (arith, leb→le _ _ first, mul_cancel q i packet_size pos (omega arith)) in
              inl (rw (here, next, same) refl)
          | inr later ↦
              inr (
                rest.covers i (omega (arith, mul_mono (suc q) i packet_size (leb→lt _ _ later))) hi)
        ];
        few = omega (arith, rest.few);
      }

  descend_end :
      {dest : SocketAddr} {b a : ℕ} {pushed : List Action}
      → 0 < packet_size
      → length bytes ≤ a
      → Sends packet_size (msg_key dest key.id) bytes b a pushed
      → Descends a b (map (λ d. down d) (datagrams pushed))
  unfolding datagrams
  descend_end pos over done = record {
    flights = tt;
    covers = λ i lo hi. absurd (omega arith);
    few = omega arith;
  }
  descend_end pos over (chunk more size sent) = absurd (omega (arith, Sends-le sent))

  -- What is sent from a cut on ends at a cut.
  pub Sends-OnGrid :
      {dest : SocketAddr} {b a : ℕ} {pushed : List Action}
      → OnGrid packet_size (length bytes) a
      → Sends packet_size (msg_key dest key.id) bytes b a pushed
      → OnGrid packet_size (length bytes) b
  Sends-OnGrid at done = at
  Sends-OnGrid (inl all) (chunk more size sent) = absurd (omega (arith, Sends-le sent))
  Sends-OnGrid (inr (q, e)) (chunk more size sent) =
      Sends-OnGrid
        (elim (Bool-cases (leb (suc q * packet_size) (length bytes))) [
          | inl full ↦ inr (suc q, omega (arith, leb→le _ _ full))
          | inr short ↦ inl (omega (arith, leb→lt _ _ short))
        ])
        sent

  -- From a cut on.
  pub descend :
      {dest : SocketAddr} {b a : ℕ} {pushed : List Action}
      → 0 < packet_size
      → OnGrid packet_size (length bytes) a
      → Sends packet_size (msg_key dest key.id) bytes b a pushed
      → Descends a b (map (λ d. down d) (datagrams pushed))
  descend {b = b} {a = a} pos (inr (q, e)) sent = elim (Bool-cases (leb a (length bytes))) [
    | inl inside ↦ descend_from q pos (omega (arith, leb→le _ _ inside)) sent
    | inr past ↦ descend_end pos (omega (arith, leb→lt _ _ past)) sent
  ]
  descend pos (inl e) sent = descend_end pos (omega arith) sent

  module _ (pos : 0 < packet_size) (short : IsU32 (length bytes)) (id_u64 : IsU64 key.id) where
    pub decode-packet_of :
        (q : ℕ) → q * packet_size < length bytes → Decodes packet_size bytes key.id q (packet_of q)
    decode-packet_of q inside = data_packet-Decodes packet_size bytes key.id q short id_u64 inside

    -- Packets of two chunks differ.
    pub packet_of-injective :
        (i q : ℕ)
        → i * packet_size < length bytes
        → q * packet_size < length bytes
        → packet_of i ≡ packet_of q
        → i ≡ q
    packet_of-injective i q inside_i inside_q e =
        let d = decode-packet_of i inside_i in
        let f = decode-packet_of q inside_q in
        let same : ok d.packet d.payload ≡ ok f.packet f.payload =
          sym d.decodes ∙ (ap decode e ∙ f.decodes) in
        let offsets : d.packet.offset ≡ f.packet.offset =
          ap (λ r. elim r [ ok p b ↦ p.offset | err x ↦ d.packet.offset ]) same in
        same_chunk packet_size i q pos (sym f.carried.starts ∙ (sym offsets ∙ d.carried.starts))

    -- A GRANT, decoded.
    pub record Reads (target : ℕ) (datagram : List ℕ) : Type 0 where
      pub packet : Packet
      pub decodes : decode datagram ≡ ok packet []
      pub typ : packet.typ ≡ grant
      pub named : packet.msg_id ≡ key.id
      pub limit : packet.offset ≡ target

    pub decode-credit_datagram :
        (target added : ℕ)
        → target ≤ length bytes
        → Reads target (credit_datagram key (length bytes) target added)
    unfolding credit_datagram Packet.new
    decode-credit_datagram target added within =
        let p =
          Packet.new grant (priority_for_len (length bytes)) key.id 0 (as_u32 target)
            (as_u32 added) in
        let level = priority_for_len-lt (length bytes) in
        record {
          packet = p;
          decodes =
              decode-encode p []
                (record {
                  priority_u8 = omega arith;
                  msg_id_u64 = id_u64;
                  msg_len_u32 = omega arith;
                  offset_u32 = omega arith;
                  length_u32 = omega arith;
                })
                (λ h. absurd cc);
          typ = refl;
          named = refl;
          limit = mod-eq_of_lt (omega arith);
        }

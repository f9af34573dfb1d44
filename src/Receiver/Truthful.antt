-- ===== src/Receiver/Truthful.antt =====
-- The receiver among many senders at once, all of them honest: their packets come in any order, are
-- lost or repeated, and the receiver ticks at any time between them.
use agent_transport.Base.{
  ℕ, ◌<◌, ◌≡◌, refl, ◌∙◌, Option, none, some, List, [], ◌∷◌, ◌++◌, All, All-append, Bool-cases, inl,
  inr,
}
use agent_transport.Base.Dict.{get, insert, get-insert, get-remove}
use agent_transport.Packet.{Packet}
use agent_transport.Config.{MsgKey, msg_key, msg_key_eq, key_eq, key_eq_iff, Action, send, deliver}
use agent_transport.Receiver.State.{InMsg, ReceiverCore, complete}
use agent_transport.Receiver.Handlers.{returns, receive, settle, then_schedule, deliver_msg}
use agent_transport.Receiver.Reassembly.{Holds, absorb, complete-Holds}
use agent_transport.Receiver.Absorb.{absorb-Holds}
use agent_transport.Receiver.Frame.{SameEntry, IsSend}
use agent_transport.Receiver.Loses.{Loses, KeptOrGone, Quiet, schedule-Quiet}
use agent_transport.Receiver.Invariant.{Event, arrives, ticks}
use agent_transport.Receiver.Chunks.{IsChunk, HoldsIf, receive-chunk}
use agent_transport.Receiver.Delivery.{SameBytes-Holds, settle-complete, settle_incomplete}

module _ (sent : MsgKey → List ℕ) where
  -- All that the receiver has of each message is as it was sent.
  pub record IsTruthful (s : ReceiverCore) : Type 0 where
    pub pos : 0 < s.cfg.packet_size
    pub holds : (key : MsgKey) → HoldsIf s.cfg.packet_size (sent key) (get s.incoming key)

  -- A message that is delivered is as it was sent.
  abbrev pub IsTrue : Action → Type 0
  IsTrue (send dest bytes) = Unit
  IsTrue (deliver src msg_id bytes) = bytes ≡ sent (msg_key src msg_id)

  -- A packet that comes is a chunk of the message that its sender has sent.
  abbrev pub IsHonest : ℕ → Event → Type 0
  IsHonest pkt_size (ticks now) = Unit
  IsHonest pkt_size (arrives src pkt payload now) =
      (q : ℕ) × IsChunk pkt_size (sent (msg_key src pkt.msg_id)) q pkt payload

  -- What a call leaves and pushes.
  pub record Tells (s : ReceiverCore) (r : ReceiverCore × List Action) : Type 0 where
    pub config : r.0.cfg ≡ s.cfg
    pub truthful : IsTruthful r.0
    pub delivers : All IsTrue r.1

  IsSend-IsTrue : (xs : List Action) → All IsSend xs → All IsTrue xs
  IsSend-IsTrue [] h = tt
  IsSend-IsTrue (send dest bytes ∷ xs) h = (tt, IsSend-IsTrue xs h.1)
  IsSend-IsTrue (deliver src msg_id bytes ∷ xs) h = absurd h.0

  HoldsIf-SameEntry :
      (pkt_size : ℕ) (bytes : List ℕ) (o o' : Option InMsg)
      → SameEntry o o'
      → HoldsIf pkt_size bytes o
      → HoldsIf pkt_size bytes o'
  HoldsIf-SameEntry pkt_size bytes none none same h = tt
  HoldsIf-SameEntry pkt_size bytes none (some m') same h = absurd same
  HoldsIf-SameEntry pkt_size bytes (some m) none same h = tt
  HoldsIf-SameEntry pkt_size bytes (some m) (some m') same h =
      SameBytes-Holds pkt_size bytes m m' same h

  HoldsIf-KeptOrGone :
      (pkt_size : ℕ) (bytes : List ℕ) (o o' : Option InMsg)
      → KeptOrGone o o'
      → HoldsIf pkt_size bytes o
      → HoldsIf pkt_size bytes o'
  HoldsIf-KeptOrGone pkt_size bytes o o' (inl gone) h = rw gone tt
  HoldsIf-KeptOrGone pkt_size bytes o o' (inr same) h = HoldsIf-SameEntry pkt_size bytes o o' same h

  Loses-IsTruthful : (s s' : ReceiverCore) → Loses s s' → IsTruthful s → IsTruthful s'
  Loses-IsTruthful s s' l h = record {
    pos = rw l.config h.pos;
    holds = λ key. rw l.config (HoldsIf-KeptOrGone _ (sent key) _ _ (l.entries key) (h.holds key));
  }

  pub Quiet-Tells :
      (s : ReceiverCore) (r : ReceiverCore × List Action) → Quiet s r → IsTruthful s → Tells s r
  Quiet-Tells s r (loses, sends) h = record {
    config = loses.config;
    truthful = Loses-IsTruthful s r.0 loses h;
    delivers = IsSend-IsTrue r.1 sends;
  }

  pub Tells-trans :
      (s : ReceiverCore) (a b : ReceiverCore × List Action)
      → Tells s a
      → Tells a.0 b
      → Tells s (b.0, a.1 ++ b.1)
  Tells-trans s a b p q = record {
    config = q.config ∙ p.config;
    truthful = q.truthful;
    delivers = All-append IsTrue a.1 b.1 p.delivers q.delivers;
  }

  then_schedule-Tells :
      (now : ℕ) (s : ReceiverCore) (r : ReceiverCore × List Action)
      → Tells s r
      → Tells s (then_schedule now r)
  unfolding then_schedule
  then_schedule-Tells now s r p =
      Tells-trans s r _ p (Quiet-Tells r.0 _ (schedule-Quiet now r.0) p.truthful)

  write-Tells :
      (s : ReceiverCore) (key : MsgKey) (m : InMsg)
      → IsTruthful s
      → Holds s.cfg.packet_size (sent key) m
      → Tells s (record s { incoming = insert s.incoming key m }, [])
  write-Tells s key m h right = record {
    config = refl;
    truthful = record {
      pos = h.pos;
      holds = λ k. rw (get-insert s.incoming key k m) (elim (Bool-cases (key_eq key k)) [
        | inl here ↦ rw (here, ← (key_eq_iff key k).0 here) right
        | inr other ↦ rw other (h.holds k)
      ]);
    };
    delivers = tt;
  }

  deliver_msg-Tells :
      (s : ReceiverCore) (key : MsgKey) (bytes : List ℕ)
      → IsTruthful s
      → bytes ≡ sent key
      → Tells s (deliver_msg s key bytes)
  unfolding deliver_msg
  deliver_msg-Tells s key bytes h right = record {
    config = refl;
    truthful = record {
      pos = h.pos;
      holds = λ k. rw (get-remove s.incoming key k) (elim (Bool-cases (key_eq key k)) [
        | inl here ↦ rw here tt
        | inr other ↦ rw other (h.holds k)
      ]);
    };
    delivers = (right, tt);
  }

  settle-Tells :
      (s : ReceiverCore) (key : MsgKey) (m : InMsg)
      → IsTruthful s
      → Holds s.cfg.packet_size (sent key) m
      → Tells s (settle s key m)
  settle-Tells s key m h right =
      let written = write-Tells s key m h right in
      elim (Bool-cases (complete m)) [
        | inl all ↦ rw (settle-complete s key m all) (
            Tells-trans s (record s { incoming = insert s.incoming key m }, []) _ written
              (deliver_msg-Tells _ key m.buf written.truthful
                (complete-Holds s.cfg.packet_size (sent key) m h.pos right all)))
        | inr part ↦ rw (settle_incomplete s key m part) written
      ]

  pub receive-Tells :
      (s : ReceiverCore) (key : MsgKey) (m : InMsg) (q : ℕ) (pkt : Packet) (payload : List ℕ)
      (now : ℕ)
      → IsTruthful s
      → Holds s.cfg.packet_size (sent key) m
      → IsChunk s.cfg.packet_size (sent key) q pkt payload
      → (r : ReceiverCore × List Action) × (receive s key m pkt payload now ≡ returns r) × Tells s r
  receive-Tells s key m q pkt payload now h right c =
      let m' = absorb s.cfg.packet_size (sent key) now m q in
      (
        then_schedule now (settle s key m'),
        receive-chunk s key m (sent key) q pkt payload now h.pos c right,
        then_schedule-Tells now s _ (
            settle-Tells s key m' h
              (absorb-Holds s.cfg.packet_size (sent key) now m q h.pos c.inside right)),
      )

-- ===== src/Sender/Faithful.antt =====
-- What the sender pushes over any calls: packets of chunks of its messages, and nothing else.
use agent_transport.Base.{
  ℕ, ◌<◌, ◌≡◌, refl, sym, subst, ◌∙◌, Bool, List, [], ◌∷◌, All, All-append, Bool-cases, inl, inr,
  Option-cases,
}
use agent_transport.Base.Dict.{Dict, keys, get, Every-insert, Every-remove}
use agent_transport.Packet.{Packet}
use agent_transport.Config.{
  SocketAddr, MsgKey, msg_key, msg_key_eq, Action, TransportConfig, for_each-All,
}
use agent_transport.Sender.{
  OutMsg, SenderCore, handle_busy, tick_msg, tick_key, tick, retain, lingers, finish, new,
}
use agent_transport.Sender.Invariant.{
  Call, starts, grants, resends, busies, ticks, finishes, step-IsValid, new-IsValid,
  tick_key-IsValid, live-IsValid, found-IsOut,
}
use agent_transport.Sender.Genuine.{Genuine, IsCut, tick_msg-Cuts}
use agent_transport.Sender.Acts.{
  act, act-step, pushed_by, Cut, IsFaithful, Acts, Fair, AllFair, write-Acts, nothing-Acts,
  found-IsCut, start-Acts, handle_grant-Acts, handle_resend-Acts,
}

module _ (sent : MsgKey → List ℕ) where
  handle_busy-Cut :
      (s : SenderCore) (src : SocketAddr) (pkt : Packet) (now : ℕ)
      → Cut sent s.cfg.packet_size s.out
      → Acts sent s (handle_busy s src pkt now, [])
  unfolding handle_busy
  handle_busy-Cut s src pkt now h =
      let key = msg_key src pkt.msg_id in
      elim (Option-cases (get s.out key)) [
        | inl e ↦ rw (e, handle_busy) (nothing-Acts sent s h)
        | inr (m, e) ↦
            let c = found-IsCut sent s key m h e in
            rw (e, handle_busy)
              (record {
                config = refl;
                cut =
                    Every-insert (IsCut sent s.cfg.packet_size) s.out key
                      (record m { last_progress = now }) h
                      (record {
                        same = c.same;
                        id_u64 = c.id_u64;
                        length_u32 = c.length_u32;
                        grid = c.grid;
                      });
                genuine = tt;
              })
      ]

  finish-Acts :
      (s : SenderCore) (dest : SocketAddr) (msg_id : ℕ)
      → Cut sent s.cfg.packet_size s.out
      → Acts sent s (finish s dest msg_id, [])
  unfolding finish
  finish-Acts s dest msg_id h = record {
    config = refl;
    cut = Every-remove (IsCut sent s.cfg.packet_size) s.out (msg_key dest msg_id) h;
    genuine = tt;
  }

  retain-Cut :
      (packet_size : ℕ) (keep : OutMsg → Bool) (out : Dict MsgKey OutMsg)
      → Cut sent packet_size out
      → Cut sent packet_size (retain keep out)
  unfolding retain
  retain-Cut packet_size keep [] h = tt
  retain-Cut packet_size keep ((key, m) ∷ out) h = elim (Bool-cases (keep m)) [
    | inl kept ↦ rw kept (h.0, retain-Cut packet_size keep out h.1)
    | inr dropped ↦ rw dropped (retain-Cut packet_size keep out h.1)
  ]

  Cut-config :
      (a b : TransportConfig) (out : Dict MsgKey OutMsg)
      → a ≡ b
      → Cut sent a.packet_size out
      → Cut sent b.packet_size out
  Cut-config a b out e h = subst (λ (c : TransportConfig). Cut sent c.packet_size out) e h

  Genuine-config :
      (a b : TransportConfig) (pushed : List Action)
      → a ≡ b
      → All (Genuine sent a.packet_size) pushed
      → All (Genuine sent b.packet_size) pushed
  Genuine-config a b pushed e h =
      subst (λ (c : TransportConfig). All (Genuine sent c.packet_size) pushed) e h

  -- The state inside the loop of `tick`.
  record Ticking (cfg : TransportConfig) (s : SenderCore) : Type 0 where
    config : s.cfg ≡ cfg
    faithful : IsFaithful sent s

  tick_key-Acts :
      (now : ℕ) (s : SenderCore) (key : MsgKey)
      → IsFaithful sent s
      → Acts sent s (tick_key now s key)
  unfolding tick_key
  tick_key-Acts now s key h = elim (Option-cases (get s.out key)) [
    | inl e ↦ rw (e, tick_key) (nothing-Acts sent s h.cut)
    | inr (m, e) ↦
        rw (e, tick_key)
          (write-Acts sent s key (tick_msg s.cfg key now m) h.cut (
            tick_msg-Cuts sent s.cfg key now m h.valid.pos (found-IsOut s key m h.valid e)
              (found-IsCut sent s key m h.cut e)))
  ]

  tick_key-Ticking :
      (cfg : TransportConfig) (now : ℕ) (s : SenderCore) (key : MsgKey)
      → Ticking cfg s
      → Ticking cfg (tick_key now s key).0
        × All (Genuine sent cfg.packet_size) (tick_key now s key).1
  tick_key-Ticking cfg now s key t =
      let a = tick_key-Acts now s key t.faithful in
      (
        record {
          config = a.config ∙ t.config;
          faithful = record {
            valid = tick_key-IsValid now s key t.faithful.valid;
            cut = Cut-config s.cfg _ _ (sym a.config) a.cut;
          };
        },
        Genuine-config s.cfg cfg _ t.config a.genuine,
      )

  tick-Acts : (s : SenderCore) (now : ℕ) → IsFaithful sent s → Acts sent s (tick s now)
  unfolding tick
  tick-Acts s now h =
      let live = record s { out = retain (lingers now s.cfg.linger) s.out } in
      let (t, pushed) =
        for_each-All (Ticking s.cfg) (Genuine sent s.cfg.packet_size) (tick_key now)
          (tick_key-Ticking s.cfg now) live (keys live.out)
          (record {
            config = refl;
            faithful = record {
              valid = live-IsValid s now h.valid;
              cut = retain-Cut s.cfg.packet_size (lingers now s.cfg.linger) s.out h.cut;
            };
          }) in
      record {
        config = t.config;
        cut = Cut-config _ s.cfg _ t.config t.faithful.cut;
        genuine = pushed;
      }

  act-Acts : (s : SenderCore) (c : Call) → IsFaithful sent s → Fair sent s c → Acts sent s (act s c)
  unfolding act
  act-Acts s (starts dest msg_id bytes now) h fair = start-Acts sent s dest msg_id bytes now h fair
  act-Acts s (grants src pkt now) h fair = handle_grant-Acts sent s src pkt now h
  act-Acts s (resends src pkt now) h fair = handle_resend-Acts sent s src pkt now h fair
  act-Acts s (busies src pkt now) h fair = handle_busy-Cut s src pkt now h.cut
  act-Acts s (ticks now) h fair = tick-Acts s now h
  act-Acts s (finishes dest msg_id) h fair = finish-Acts s dest msg_id h.cut

  pushed_by-Genuine :
      (s : SenderCore) (calls : List Call)
      → IsFaithful sent s
      → AllFair sent s calls
      → All (Genuine sent s.cfg.packet_size) (pushed_by s calls)
  unfolding pushed_by
  pushed_by-Genuine s [] h fair = tt
  pushed_by-Genuine s (c ∷ calls) h (fair, later) =
      let a = act-Acts s c h fair in
      All-append (Genuine sent s.cfg.packet_size) (act s c).1 (pushed_by (act s c).0 calls)
        a.genuine
        (Genuine-config _ s.cfg _ a.config (
          pushed_by-Genuine (act s c).0 calls
            (record {
              valid = rw (act-step s c) (step-IsValid s c h.valid);
              cut = Cut-config s.cfg _ _ (sym a.config) a.cut;
            })
            later))

-- A sender pushes nothing but DATA packets of chunks of its messages, cut at the multiples of the
-- packet size, whatever calls come: sends, GRANTs, RESENDs, BUSYs, ticks and `finish`. The packet
-- size is positive; `sent` gives the message that is sent under each key, which is less than 2^32
-- bytes long; and each RESEND that moves `next_send` moves it to a multiple of the packet size or to
-- the end of the message.
pub sender_faithful :
    (sent : MsgKey → List ℕ) (cfg : TransportConfig) (calls : List Call)
    → 0 < cfg.packet_size
    → AllFair sent (new cfg) calls
    → All (Genuine sent cfg.packet_size) (pushed_by (new cfg) calls)
unfolding new
sender_faithful sent cfg calls pos fair =
    pushed_by-Genuine sent (new cfg) calls (record { valid = new-IsValid cfg pos; cut = tt }) fair

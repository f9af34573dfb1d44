-- ===== src/Receiver/Valid.antt =====
-- The invariant of the receiver, and that the scheduler and `deliver` keep it.
use agent_transport.Base.{
  ℕ, ◌+◌, ◌≤◌, ◌≡◌, max, Bool, false, some, List, [], ◌∷◌, length, length-drop, length-append, drop,
  leb→lt, arith, leb, Bool-cases, inl, inr, Option-cases,
}
use agent_transport.Base.Dict.{
  Dict, get, insert, remove, Every, Every-insert, Every-get, Every-remove, IsDistinct,
  IsDistinct-insert, IsDistinct-remove, length-insert_present, length-remove-le, remove-insert_self,
}
use agent_transport.Config.{MsgKey, msg_key_eq, key_eq, TransportConfig, for_each_inv}
use agent_transport.Receiver.Keys.{contains-append_one, contains-drop}
use agent_transport.Receiver.State.{
  InMsg, ReceiverCore, contains, complete, completed_cache, max_unanswered_resends,
}
use agent_transport.Receiver.Scheduler.{grant_msg, issue_grant, schedule}
use agent_transport.Receiver.Handlers.{remember, deliver_msg}

-- What holds of each message: a buffer of its length, credit within it and at most a window past
-- the bytes that came, not complete, and not given up.
pub record IsIn (cfg : TransportConfig) (m : InMsg) : Type 0 where
  pub sized : length m.buf ≡ m.total_len
  pub credit : m.granted_to ≤ m.total_len
  pub window : m.granted_to ≤ max cfg.unscheduled_bytes (m.received_bytes + cfg.grant_increment)
  pub unfinished : complete m ≡ false
  pub alive : m.unanswered_resends ≤ max_unanswered_resends

-- An entry of the map: its message, which is not one of those that are known to be delivered.
abbrev pub Entry : TransportConfig → List MsgKey → MsgKey → InMsg → Type 0
Entry cfg completed key m = IsIn cfg m × (contains completed key ≡ false)

pub record IsReceiver (s : ReceiverCore) : Type 0 where
  pub entries : Every (Entry s.cfg s.completed) s.incoming
  pub distinct : IsDistinct s.incoming
  pub bounded : length s.incoming ≤ s.cfg.max_incoming
  pub memory : length s.completed ≤ completed_cache

grant_msg-IsIn :
    (cfg : TransportConfig) (key : MsgKey) (now : ℕ) (force : Bool) (m : InMsg)
    → IsIn cfg m
    → IsIn cfg (grant_msg cfg.grant_increment key now force m).0
unfolding grant_msg
grant_msg-IsIn cfg key now force m h = record {
  sized = ground (arith, h.sized);
  credit = ground (arith, h.credit);
  window = ground (arith, h.window);
  unfinished = ground (arith, h.unfinished);
  alive = ground (arith, h.alive);
}

-- Writing a message in the place of one that is there.
pub rewrite-IsReceiver :
    (s : ReceiverCore) (key : MsgKey) (m m' : InMsg)
    → IsReceiver s
    → get s.incoming key ≡ some m
    → IsIn s.cfg m'
    → IsReceiver (record s { incoming = insert s.incoming key m' })
rewrite-IsReceiver s key m m' v e h = record {
  entries =
      Every-insert (Entry s.cfg s.completed) s.incoming key m' v.entries
        (h, (Every-get (Entry s.cfg s.completed) s.incoming key m v.entries e).1);
  distinct = IsDistinct-insert s.incoming key m' v.distinct;
  bounded = rw (length-insert_present s.incoming key m' m e) v.bounded;
  memory = v.memory;
}

-- Removing a message.
pub remove-IsReceiver :
    (s : ReceiverCore) (key : MsgKey) (granting : List MsgKey)
    → IsReceiver s
    → IsReceiver (record s { incoming = remove s.incoming key; granting = granting })
remove-IsReceiver s key granting v = record {
  entries = Every-remove (Entry s.cfg s.completed) s.incoming key v.entries;
  distinct = IsDistinct-remove s.incoming key v.distinct;
  bounded = omega (arith, v.bounded, length-remove-le s.incoming key);
  memory = v.memory;
}

pub found-IsIn :
    (s : ReceiverCore) (key : MsgKey) (m : InMsg)
    → IsReceiver s
    → get s.incoming key ≡ some m
    → IsIn s.cfg m
found-IsIn s key m v e = (Every-get (Entry s.cfg s.completed) s.incoming key m v.entries e).0

pub issue_grant-IsReceiver :
    (now : ℕ) (force : Bool) (s : ReceiverCore) (key : MsgKey)
    → IsReceiver s
    → IsReceiver (issue_grant key now force s).0
unfolding issue_grant
issue_grant-IsReceiver now force s key v = elim (Option-cases (get s.incoming key)) [
  | inl e ↦ rw (e, issue_grant) v
  | inr (m, e) ↦
      rw (e, issue_grant)
        (rewrite-IsReceiver s key m (grant_msg s.cfg.grant_increment key now force m).0 v e
          (grant_msg-IsIn s.cfg key now force m (found-IsIn s key m v e)))
]

pub schedule-IsReceiver :
    (now : ℕ) (s : ReceiverCore) → IsReceiver s → IsReceiver (schedule now s).0
unfolding schedule
schedule-IsReceiver now s v =
    for_each_inv IsReceiver (λ s' key. issue_grant key now false s')
      (issue_grant-IsReceiver now false) _ _
      (record {
        entries = v.entries;
        distinct = v.distinct;
        bounded = v.bounded;
        memory = v.memory;
      })

contains-remember :
    (completed : List MsgKey) (key k : MsgKey)
    → contains completed k ≡ false
    → key_eq key k ≡ false
    → contains (remember completed key) k ≡ false
unfolding remember
contains-remember completed key k h ne =
    elim (Bool-cases (leb completed_cache (length completed))) [
      | inl full ↦
          rw full
            (rw (contains-append_one (drop 1 completed) key k, contains-drop completed k h) ne)
      | inr more ↦ rw more (rw (contains-append_one completed key k, h) ne)
    ]

length-remember :
    (completed : List MsgKey) (key : MsgKey)
    → length completed ≤ completed_cache
    → length (remember completed key) ≤ completed_cache
unfolding remember
length-remember completed key h = elim (Bool-cases (leb completed_cache (length completed))) [
  | inl full ↦
      rw full (omega (arith, length-append (drop 1 completed) (key ∷ []), length-drop 1 completed))
  | inr more ↦ rw more (omega (arith, length-append completed (key ∷ []), leb→lt _ _ more))
]

-- The other messages, once the one of `key` is removed and remembered.
entries-remember :
    (cfg : TransportConfig) (completed : List MsgKey) (key : MsgKey) (d : Dict MsgKey InMsg)
    → Every (Entry cfg completed) d
    → Every (Entry cfg (remember completed key)) (remove d key)
unfolding remove
entries-remember cfg completed key [] h = tt
entries-remember cfg completed key ((k, m) ∷ d) ((good, new), h) =
    let rest = entries-remember cfg completed key d h in
    elim (Bool-cases (key_eq k key)) [
      | inl same ↦ rw same rest
      | inr other ↦
          rw other ((good, contains-remember completed key k new (ground (arith, other))), rest)
    ]

pub deliver_msg-IsReceiver :
    (s : ReceiverCore) (key : MsgKey) (bytes : List ℕ)
    → IsReceiver s
    → IsReceiver (deliver_msg s key bytes).0
unfolding deliver_msg
deliver_msg-IsReceiver s key bytes v = record {
  entries = entries-remember s.cfg s.completed key s.incoming v.entries;
  distinct = IsDistinct-remove s.incoming key v.distinct;
  bounded = omega (arith, v.bounded, length-remove-le s.incoming key);
  memory = length-remember s.completed key v.memory;
}

-- What the message was does not matter to `deliver`.
pub deliver_msg-insert :
    (s : ReceiverCore) (key : MsgKey) (m : InMsg) (bytes : List ℕ)
    → deliver_msg (record s { incoming = insert s.incoming key m }) key bytes
      ≡ deliver_msg s key bytes
unfolding deliver_msg
deliver_msg-insert s key m bytes = rw (remove-insert_self s.incoming key m)

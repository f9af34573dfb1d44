-- ===== src/Receiver/State.antt =====
-- transport/receiver.rs: the state of the receiver, and one message of it.
use agent_transport.Base.{
  ℕ, ◌+◌, ◌-◌, ◌*◌, ◌/◌, ◌%◌, ◌^◌, min, max, Bool, true, false, not, ◌&&◌, ◌||◌, Option, none, some,
  List, [], ◌∷◌, ◌++◌, length, take, drop, get_or, set, replicate, ltb, leb, ◌==◌, if◌then◌else◌,
}
use agent_transport.Base.Dict.{Dict}
use agent_transport.Config.{MsgKey, key_eq, TransportConfig}

pub record InMsg : Type 0 where
  pub total_len : ℕ
  pub buf : List ℕ
  pub received : List Bool
  pub received_bytes : ℕ
  pub granted_to : ℕ
  pub last_progress : ℕ
  pub last_grant : ℕ
  pub unanswered_resends : ℕ

abbrev pub max_unanswered_resends : ℕ
max_unanswered_resends = 40

-- The subtraction of usize, which wraps in a release build.
unfoldable pub remaining : InMsg → ℕ
remaining m = (m.total_len + 2 ^ 64 - m.received_bytes) % 2 ^ 64

abbrev pub complete : InMsg → Bool
complete m = m.received_bytes == m.total_len

-- self.received.iter().position(|&r| !r), from index i on
unfoldable pub first_missing : ℕ → List Bool → Option ℕ
first_missing i [] = none
first_missing i (true ∷ received) = first_missing (i + 1) received
first_missing i (false ∷ received) = some i

unfoldable pub first_missing_offset : InMsg → ℕ → Option ℕ
first_missing_offset m pkt_size = elim (first_missing 0 m.received) [
  | none ↦ none
  | some i ↦ some (i * pkt_size)
]

abbrev pub completed_cache : ℕ
completed_cache = 4096

pub record ReceiverCore : Type 0 where
  pub cfg : TransportConfig
  pub incoming : Dict MsgKey InMsg
  pub granting : List MsgKey
  pub completed : List MsgKey

unfoldable pub new : TransportConfig → ReceiverCore
new cfg = record { cfg = cfg; incoming = []; granting = []; completed = [] }

-- keys.contains(&key)
unfoldable pub contains : List MsgKey → MsgKey → Bool
contains [] key = false
contains (k ∷ keys) key = key_eq k key || contains keys key

-- keys.retain(|k| *k != key)
unfoldable pub without : List MsgKey → MsgKey → List MsgKey
without [] key = []
without (k ∷ keys) key = let rest = without keys key in if key_eq k key then rest else k ∷ rest

-- total_len.div_ceil(pkt_size)
abbrev pub div_ceil : ℕ → ℕ → ℕ
div_ceil n d = if n % d == 0 then n / d else n / d + 1

-- The message that the first packet of `total_len` bytes makes.
unfoldable pub fresh_msg : TransportConfig → ℕ → ℕ → InMsg
fresh_msg cfg total_len now = record {
  total_len = total_len;
  buf = replicate total_len 0;
  received = replicate (max (div_ceil total_len cfg.packet_size) 1) false;
  received_bytes = 0;
  granted_to = min cfg.unscheduled_bytes total_len;
  last_progress = now;
  last_grant = now;
  unanswered_resends = 0;
}

-- buf[offset..offset + payload.len()].copy_from_slice(payload), in bounds
unfoldable pub copy_into : List ℕ → ℕ → List ℕ → List ℕ
copy_into buf offset payload = take offset buf ++ (payload ++ drop (offset + length payload) buf)

-- The test before the payload is stored. `total_len` is the length that the packet states.
unfoldable pub accepts : ℕ → InMsg → ℕ → ℕ → List ℕ → Bool
accepts pkt_size m total_len offset payload =
    let idx = offset / pkt_size in
    ltb idx (length m.received)
    && (not (get_or m.received idx false) && leb (offset + length payload) total_len)

unfoldable pub store : ℕ → InMsg → ℕ → List ℕ → ℕ → InMsg
unfolding copy_into
store pkt_size m offset payload now = record m {
  buf = copy_into m.buf offset payload;
  received = set m.received (offset / pkt_size) true;
  received_bytes = m.received_bytes + length payload;
  last_progress = now;
  unanswered_resends = 0;
}

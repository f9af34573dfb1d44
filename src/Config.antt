-- ===== src/Config.antt =====
-- transport/mod.rs: the parameters of the transport and the actions of the state machines. An
-- `Instant` and a `Duration` are numbers of milliseconds; `duration_since` stops at zero, as `-`
-- on these numbers does.
use agent_transport.Base.{
  ℕ, ◌*◌, ◌^◌, ◌≡◌, Bool, true, ◌&&◌, List, [], ◌∷◌, ◌++◌, ◌==◌, Eq, All, All-append, arith, ◌↔◌,
}

-- A peer: the socket is bound in the IPv4 domain.
pub record SocketAddr : Type 0 where
  pub ip : ℕ
  pub port : ℕ

abbrev addr_eq : SocketAddr → SocketAddr → Bool
addr_eq a b = a.ip == b.ip && a.port == b.port

addr_eq_iff : (a b : SocketAddr) → (addr_eq a b ≡ true) ↔ (a ≡ b)
addr_eq_iff a b = (λ h. ground arith, λ h. ground arith)

-- The key of a message: the peer's address and the message id.
pub record MsgKey : Type 0 where
  pub addr : SocketAddr
  pub id : ℕ

abbrev pub msg_key : SocketAddr → ℕ → MsgKey
msg_key addr id = record { addr = addr; id = id }

abbrev pub key_eq : MsgKey → MsgKey → Bool
key_eq j k = j.addr.ip == k.addr.ip && j.addr.port == k.addr.port && j.id == k.id

pub key_eq_iff : (j k : MsgKey) → (key_eq j k ≡ true) ↔ (j ≡ k)
key_eq_iff j k = (λ h. ground arith, λ h. ground arith)

instance abbrev pub msg_key_eq : Eq MsgKey
msg_key_eq = record { beq = key_eq; beq_iff = key_eq_iff }

pub data Action : Type 0 where
  send : SocketAddr → List ℕ → Action
  deliver : SocketAddr → ℕ → List ℕ → Action

pub record TransportConfig : Type 0 where
  pub packet_size : ℕ
  pub unscheduled_bytes : ℕ
  pub grant_increment : ℕ
  pub resend_timeout : ℕ
  pub grant_timeout : ℕ
  pub poke_timeout : ℕ
  pub linger : ℕ
  pub send_timeout : ℕ
  pub max_incoming : ℕ
  pub overcommit : ℕ
  pub starve_threshold : ℕ
  pub socket_buf : ℕ

abbrev pub default : TransportConfig
default = record {
  packet_size = 1200;
  unscheduled_bytes = 10_240;
  grant_increment = 65_536;
  resend_timeout = 20;
  grant_timeout = 40;
  poke_timeout = 50;
  linger = 5_000;
  send_timeout = 30_000;
  max_incoming = 1024;
  overcommit = 2;
  starve_threshold = 200;
  socket_buf = 8 * 2 ^ 20;
}

-- `for key in keys { … }`, whose body changes the state and pushes actions.
unfoldable pub for_each {ℓ} :
    {S : Type ℓ} → (S → MsgKey → S × List Action) → S → List MsgKey → S × List Action
for_each body s [] = (s, [])
for_each body s (key ∷ keys) =
    let (s', pushed) = body s key in
    let (s'', later) = for_each body s' keys in (s'', pushed ++ later)

-- The loop keeps an invariant that its body keeps.
pub for_each_inv {ℓ κ} :
    {S : Type ℓ} (P : S → Type κ) (body : S → MsgKey → S × List Action)
    → ((s : S) (key : MsgKey) → P s → P (body s key).0)
    → (s : S) (keys : List MsgKey) → P s
    → P (for_each body s keys).0
unfolding for_each
for_each_inv P body keep s [] h = h
for_each_inv P body keep s (key ∷ keys) h =
    for_each_inv P body keep (body s key).0 keys (keep s key h)

-- The same, with what holds of all that the body pushes.
pub for_each-All {ℓ κ μ} :
    {S : Type ℓ} (P : S → Type κ) (Q : Action → Type μ) (body : S → MsgKey → S × List Action)
    → ((s : S) (key : MsgKey) → P s → P (body s key).0 × All Q (body s key).1)
    → (s : S) (keys : List MsgKey) → P s
    → P (for_each body s keys).0 × All Q (for_each body s keys).1
unfolding for_each
for_each-All P Q body keep s [] h = (h, tt)
for_each-All P Q body keep s (key ∷ keys) h =
    let (first, pushed) = keep s key h in
    let (rest, later) = for_each-All P Q body keep (body s key).0 keys first in
    (rest, All-append Q _ _ pushed later)

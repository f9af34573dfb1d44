-- ===== src/Rpc/Calls/Answered.antt =====
-- Calls at the same time: what each of them gets, and the numbers of their requests.
pub mod Moves
pub mod Routing
pub mod Runs
use agent_transport.Base.{
  ℕ, zero, suc, ◌+◌, ◌%◌, ◌^◌, ◌≤◌, ◌<◌, ◌≡◌, refl, sym, ap, ◌∙◌, Option, none, some, List, [], ◌∷◌,
  ◌++◌, map, length, get_elem?, set, All, All-set, All-mono, arith, nat_eq, ◌⊎◌, inl, inr,
}
use mathlib.Core.Option.{some-injective}
use agent_transport.Base.Picks.{Any}
use agent_transport.Base.Dict.{Dict, get}
use agent_transport.Rpc.{CallResult, returned, send_error, timed_out}
use agent_transport.Rpc.Attempts.{Answers}
use agent_transport.Rpc.Calls.{Stage, inserts, removes, sends, listens, ends, Call, Threads}

-- What a call tells by how it ended.
abbrev pub Told : List (List ℕ) → Call → Stage → Type 0
Told heard call (ends (returned body)) = Any (Answers call.rpc_id body) heard
Told heard call (ends timed_out) = call.attempt ≡ call.limit
Told heard call (ends send_error) = Unit
Told heard call inserts = Unit
Told heard call removes = Unit
Told heard call (sends channel inbox) = Unit
Told heard call (listens channel inbox) = Unit

-- The channel is this request's.
abbrev pub Open : Threads → ℕ → ℕ → Type 0
Open t rpc_id channel =
    (channel < t.next_channel)
    × ((id : ℕ) → get t.client.waiters id ≡ some channel → id ≡ rpc_id)
    × ((id : ℕ) (body : List ℕ) → t.held ≡ some (id, (channel, body)) → id ≡ rpc_id)

abbrev pub Got : List (List ℕ) → ℕ → Option (List ℕ) → Type 0
Got heard rpc_id none = Unit
Got heard rpc_id (some body) = Any (Answers rpc_id body) heard

abbrev pub Stands : Threads → Call → Stage → Type 0
Stands t call inserts = Unit
Stands t call removes = Unit
Stands t call (sends channel inbox) = Open t call.rpc_id channel × Got t.heard call.rpc_id inbox
Stands t call (listens channel inbox) = Open t call.rpc_id channel × Got t.heard call.rpc_id inbox
Stands t call (ends result) = Told t.heard call (ends result)

abbrev pub Right : Threads → Call → Type 0
Right t call = (call.attempt ≤ call.limit) × Stands t call call.stage

-- Requests are numbered in the order of the calls.
abbrev pub Numbered : ℕ → List Call → Type 0
Numbered k [] = Unit
Numbered k (call ∷ calls) = (call.rpc_id ≡ k % 2 ^ 64) × Numbered (suc k) calls

pub record Sound (t : Threads) : Type 0 where
  pub right : All (Right t) t.calls
  pub routed :
      (id to : ℕ) (body : List ℕ) → t.held ≡ some (id, (to, body)) → Any (Answers id body) t.heard
  pub held_old : (id to : ℕ) (body : List ℕ) → t.held ≡ some (id, (to, body)) → to < t.next_channel
  pub waiter_old : (id to : ℕ) → get t.client.waiters id ≡ some to → to < t.next_channel
  pub numbered : Numbered 1 t.calls
  pub next : t.client.next_id ≡ (1 + length t.calls) % 2 ^ 64

-- A step gives channels that were there to nobody else.
pub record Changes (t t' : Threads) : Type 0 where
  pub grows : t.next_channel ≤ t'.next_channel
  pub waiting :
      (id to : ℕ)
      → to < t.next_channel
      → get t'.client.waiters id ≡ some to
      → get t.client.waiters id ≡ some to
  pub taking :
      (id to : ℕ) (body : List ℕ)
      → t'.held ≡ some (id, (to, body))
      → (t.held ≡ some (id, (to, body))) ⊎ (get t.client.waiters id ≡ some to)
  pub hearing :
      (id : ℕ) (body : List ℕ) → Any (Answers id body) t.heard → Any (Answers id body) t'.heard

Open-keep :
    (t t' : Threads) (rpc_id channel : ℕ)
    → Changes t t'
    → Open t rpc_id channel
    → Open t' rpc_id channel
Open-keep t t' rpc_id channel c (below, named, due) = (
  omega (arith, c.grows),
  λ id e. named id (c.waiting id channel below e),
  λ id body e. elim (c.taking id channel body e) [
    | inl before ↦ due id body before
    | inr from ↦ named id from
  ],
)

Got-keep :
    (t t' : Threads) (rpc_id : ℕ) (inbox : Option (List ℕ))
    → Changes t t'
    → Got t.heard rpc_id inbox
    → Got t'.heard rpc_id inbox
Got-keep t t' rpc_id none c h = tt
Got-keep t t' rpc_id (some body) c h = c.hearing rpc_id body h

Stands-keep :
    (t t' : Threads) (call : Call) (stage : Stage)
    → Changes t t'
    → Stands t call stage
    → Stands t' call stage
Stands-keep t t' call inserts c h = tt
Stands-keep t t' call removes c h = tt
Stands-keep t t' call (sends channel inbox) c (o, g) =
    (Open-keep t t' call.rpc_id channel c o, Got-keep t t' call.rpc_id inbox c g)
Stands-keep t t' call (listens channel inbox) c (o, g) =
    (Open-keep t t' call.rpc_id channel c o, Got-keep t t' call.rpc_id inbox c g)
Stands-keep t t' call (ends (returned body)) c h = c.hearing call.rpc_id body h
Stands-keep t t' call (ends timed_out) c h = h
Stands-keep t t' call (ends send_error) c h = tt

-- The calls that a step does not concern.
pub Right-keep : (t t' : Threads) → Changes t t' → All (Right t) t.calls → All (Right t') t.calls
Right-keep t t' c h =
    All-mono (Right t) (Right t') t.calls (λ call r. (r.0, Stands-keep t t' call call.stage c r.1))
      h

pub Numbered-append :
    (k : ℕ) (calls : List Call) (call : Call)
    → Numbered k calls
    → call.rpc_id ≡ (k + length calls) % 2 ^ 64
    → Numbered k (calls ++ (call ∷ []))
Numbered-append k [] call h e = (e ∙ ap (λ (j : ℕ). j % 2 ^ 64) (omega arith), tt)
Numbered-append k (first ∷ calls) call h e =
    (h.0, Numbered-append (suc k) calls call h.1 (e ∙ ap (λ (j : ℕ). j % 2 ^ 64) (omega arith)))

pub Numbered-set :
    (k : ℕ) (calls : List Call) (n : ℕ) (call call' : Call)
    → get_elem? calls n ≡ some call
    → call'.rpc_id ≡ call.rpc_id
    → Numbered k calls
    → Numbered k (set calls n call')
Numbered-set k [] n call call' e same h = tt
Numbered-set k (first ∷ calls) zero call call' e same h =
    (same ∙ (ap (λ (c : Call). c.rpc_id) (sym (some-injective first call e)) ∙ h.0), h.1)
Numbered-set k (first ∷ calls) (suc n) call call' e same h =
    (h.0, Numbered-set (suc k) calls n call call' e same h.1)

pub Numbered-map :
    (k : ℕ) (f : Call → Call) (calls : List Call)
    → ((call : Call) → (f call).rpc_id ≡ call.rpc_id)
    → Numbered k calls
    → Numbered k (map f calls)
Numbered-map k f [] same h = tt
Numbered-map k f (call ∷ calls) same h = (same call ∙ h.0, Numbered-map (suc k) f calls same h.1)

pub Numbered-get :
    (k : ℕ) (calls : List Call) (i : ℕ) (call : Call)
    → Numbered k calls
    → get_elem? calls i ≡ some call
    → call.rpc_id ≡ (k + i) % 2 ^ 64
Numbered-get k [] i call h e = absurd cc
Numbered-get k (first ∷ calls) zero call h e =
    ap (λ (c : Call). c.rpc_id) (sym (some-injective first call e))
    ∙ h.0
    ∙ ap (λ (j : ℕ). j % 2 ^ 64) (omega arith)
Numbered-get k (first ∷ calls) (suc i) call h e =
    Numbered-get (suc k) calls i call h.1 e ∙ ap (λ (j : ℕ). j % 2 ^ 64) (omega arith)

-- ===== src/Transport/Given.antt =====
-- The numbers that a transport's messages have, over its events.
use agent_transport.Base.{
  ℕ, suc, ◌+◌, ◌-◌, ◌%◌, ◌^◌, ◌<◌, ◌≡◌, refl, sym, ◌++◌, All, All-append, All-mono, Option, none,
  some, List, [], ◌∷◌, length, arith, ◌==◌, Bool-cases, inl, inr,
}
use agent_transport.Base.Picks.{Pulled, first, later, pull-cases, Pulled-All}
use native.Mathlib.Nat.{mod-eq_of_lt}
use agent_transport.Config.{SocketAddr, msg_key_eq}
use agent_transport.Sender.{is_done}
use agent_transport.Transport.{
  State, Inner, continues, thread_dies, io_iteration, take_number, begin_send, dispatch, poll_send,
  poll_recv, recv_next, Node, Event, iterates, takes, begins, dispatches, polls_send, polls_recv,
  advance, run,
}
use agent_transport.Transport.Rounds.{IsSound, IfAlive, advance-IfAlive}
use agent_transport.Transport.Numbers.{Numbered, finish-Numbered, start-Numbered, Numbered-more}
use agent_transport.Transport.Counting.{drain-Numbered, AfterIteration, io_iteration-Numbered}

-- The numbers that have been given out and of which no one waits to start its message.
abbrev pub Used : ℕ → List ℕ → ℕ → Type 0
Used counter taken id = (id < counter) × All (λ t. ¬ (t ≡ id)) taken

abbrev pub AllDifferent : List ℕ → Type 0
AllDifferent [] = Unit
AllDifferent (t ∷ ts) = All (λ u. ¬ (u ≡ t)) ts × AllDifferent ts

Pulled-AllDifferent :
    {x : ℕ} {xs ys : List ℕ}
    → Pulled x xs ys
    → AllDifferent xs
    → All (λ u. ¬ (u ≡ x)) ys × AllDifferent ys
Pulled-AllDifferent first (others, rest) = (others, rest)
Pulled-AllDifferent {x = x} (later {x = z} p) (others, rest) =
    let (apart, rest') = Pulled-AllDifferent p rest in
    let (off, others') = Pulled-All (λ u. ¬ (u ≡ z)) p others in
    ((λ e. off (sym e), apart), (others', rest'))

AllDifferent-append :
    (ts : List ℕ) (n : ℕ) → All (λ t. t < n) ts → AllDifferent ts → AllDifferent (ts ++ (n ∷ []))
AllDifferent-append [] n below h = (tt, tt)
AllDifferent-append (t ∷ ts) n below h = (
  All-append (λ u. ¬ (u ≡ t)) ts (n ∷ []) h.0 ((λ e. omega (arith, below.0, e)), tt),
  AllDifferent-append ts n below.1 h.1,
)

-- What holds of the numbers of a node: those of the sender's messages are used ones, those that wait
-- have been given out and are all different, and `left` events do not exhaust u64.
pub record Holds (left : ℕ) (n : Node) : Type 0 where
  pub numbered : Numbered (Used n.inner.msg_counter n.taken) n.inner.state.sender
  pub below : All (λ t. t < n.inner.msg_counter) n.taken
  pub different : AllDifferent n.taken
  pub room : n.inner.msg_counter + left < 2 ^ 64

abbrev pub IfCounts : ℕ → Option Node → Type 0
IfCounts left none = Unit
IfCounts left (some n) = Holds left n

poll_send-Numbered :
    (P : ℕ → Type 0) (inner : Inner) (dest : SocketAddr) (msg_id deadline now : ℕ)
    → Numbered P inner.state.sender
    → let inner' = (poll_send inner dest msg_id deadline now).0 in
      Numbered P inner'.state.sender × (inner'.msg_counter ≡ inner.msg_counter)
unfolding poll_send
poll_send-Numbered P inner dest msg_id deadline now h =
    elim (Bool-cases (is_done inner.state.sender dest msg_id)) [
      | inl all ↦ rw all (h, refl)
      | inr more ↦ elim (Bool-cases (deadline - now == 0)) [
        | inl over ↦ rw (more, over) (finish-Numbered P inner.state.sender dest msg_id h, refl)
        | inr waits ↦ rw (more, waits) (h, refl)
      ]
    ]

recv_next_sender :
    (st : State) (deadline now : ℕ) (waiting : List (SocketAddr × List ℕ))
    → (recv_next st deadline now waiting).0.sender ≡ st.sender
unfolding recv_next
recv_next_sender st deadline now [] = refl
recv_next_sender st deadline now (m ∷ rest) = refl

-- An event that gives out no number.
same_numbers :
    (left : ℕ) (n : Node) (inner : Inner) (last_tick : ℕ)
    → Holds (suc left) n
    → inner.msg_counter ≡ n.inner.msg_counter
    → Numbered (Used n.inner.msg_counter n.taken) inner.state.sender
    → Holds left (record n { inner = inner; last_tick = last_tick })
same_numbers left n inner last_tick c same numbered = record {
  numbered = rw same numbered;
  below = rw same c.below;
  different = c.different;
  room = omega (arith, c.room, same);
}

takes-Holds :
    (left : ℕ) (n : Node)
    → Holds (suc left) n
    → Holds left (record n {
      inner = (take_number n.inner).0;
      taken = n.taken ++ ((take_number n.inner).1 ∷ []);
    })
unfolding take_number
takes-Holds left n c =
    let counter = n.inner.msg_counter in
    let next : (counter + 1) % 2 ^ 64 ≡ counter + 1 = mod-eq_of_lt (omega (arith, c.room)) in
    record {
      numbered = rw next (
          Numbered-more (Used counter n.taken) (Used (counter + 1) (n.taken ++ (counter ∷ [])))
            n.inner.state.sender
            (λ id (below, apart). (
              omega (arith, below),
              All-append (λ t. ¬ (t ≡ id)) n.taken (counter ∷ []) apart
                  ((λ e. omega (arith, below, e)), tt),
            ))
            c.numbered);
      below = rw next (
          All-append (λ t. t < counter + 1) n.taken (counter ∷ [])
            (All-mono (λ t. t < counter) (λ t. t < counter + 1) n.taken (λ t lo. omega (arith, lo))
              c.below)
            (omega arith, tt));
      different = AllDifferent-append n.taken counter c.below c.different;
      room = rw next (omega (arith, c.room));
    }

begins-Holds :
    (left : ℕ) (n : Node) (msg_id : ℕ) (rest : List ℕ) (dest : SocketAddr) (bytes : List ℕ)
    (now : ℕ)
    → Holds (suc left) n
    → Pulled msg_id n.taken rest
    → Holds left (record n { inner = (begin_send n.inner dest msg_id bytes now).0; taken = rest })
unfolding begin_send
begins-Holds left n msg_id rest dest bytes now c p =
    let counter = n.inner.msg_counter in
    let (apart, different) = Pulled-AllDifferent p c.different in
    let (given, below) = Pulled-All (λ t. t < counter) p c.below in
    record {
      numbered =
          start-Numbered (Used counter rest) n.inner.state.sender dest msg_id bytes now
            (given, apart)
            (Numbered-more (Used counter n.taken) (Used counter rest) n.inner.state.sender
              (λ id (lo, off). (lo, (Pulled-All (λ t. ¬ (t ≡ id)) p off).1)) c.numbered);
      below = below;
      different = different;
      room = omega (arith, c.room);
    }

advance-IfCounts :
    (left : ℕ) (n : Node) (e : Event)
    → IsSound n.inner.state
    → Holds (suc left) n
    → IfCounts left (advance n e)
unfolding advance
advance-IfCounts left n (iterates input now after) sound c =
    elim (io_iteration (record { state = n.inner.state; last_tick = n.last_tick }) input now after)
        as (λ i.
          AfterIteration (Used n.inner.msg_counter n.taken) i
          → IfCounts left (elim i [
            | continues l datagrams notified ↦
                some
                  (record n { inner = record n.inner { state = l.state }; last_tick = l.last_tick })
            | thread_dies ↦ none
          ])) [
            | continues l datagrams notified ↦
                λ h. same_numbers left n (record n.inner { state = l.state }) l.last_tick c refl h
            | thread_dies ↦ λ dead. tt
          ]
      (io_iteration-Numbered (Used n.inner.msg_counter n.taken)
        (record { state = n.inner.state; last_tick = n.last_tick }) input now after sound
        c.numbered)
advance-IfCounts left n takes sound c = takes-Holds left n c
advance-IfCounts left n (begins k dest bytes now) sound c = elim (pull-cases k n.taken) [
  | inl (empty, e) ↦ rw (e, advance) (same_numbers left n n.inner n.last_tick c refl c.numbered)
  | inr (msg_id, rest, e, p) ↦ rw (e, advance) (begins-Holds left n msg_id rest dest bytes now c p)
]
advance-IfCounts left n (dispatches actions) sound c =
    unfold dispatch in
    (same_numbers left n _ n.last_tick c refl (
      drain-Numbered (Used n.inner.msg_counter n.taken) n.inner.state actions sound.filed
        c.numbered))
advance-IfCounts left n (polls_send dest msg_id deadline now) sound c =
    let (numbered, same) =
      poll_send-Numbered (Used n.inner.msg_counter n.taken) n.inner dest msg_id deadline now
        c.numbered in
    same_numbers left n (poll_send n.inner dest msg_id deadline now).0 n.last_tick c same numbered
advance-IfCounts left n (polls_recv deadline now) sound c =
    unfold poll_recv in
    (same_numbers left n
      (record n.inner { state = (recv_next n.inner.state deadline now n.inner.state.completed).0 })
      n.last_tick c refl
      (rw (recv_next_sender n.inner.state deadline now n.inner.state.completed) c.numbered))

pub run-IfCounts :
    (n : Node) (events : List Event)
    → IsSound n.inner.state
    → Holds (length events) n
    → IfCounts 0 (run n events)
unfolding run
run-IfCounts n [] sound c = c
run-IfCounts n (e ∷ events) sound c =
    elim (advance n e)
        as (λ o.
          IfCounts (length events) o
          → IfAlive o
          → IfCounts 0 (elim o [ none ↦ none | some n' ↦ run n' events ])) [
            | none ↦ λ dead dead'. tt
            | some n' ↦ λ c' sound'. run-IfCounts n' events sound' c'
          ]
      (advance-IfCounts (length events) n e sound c) (advance-IfAlive n e sound)

-- ===== src/Transport/Waiting.antt =====
-- transport/mod.rs: the callers of `send_to` and `recv` do not wait for ever, and what they return.
use agent_transport.Base.{
  ℕ, ◌-◌, ◌≤◌, ◌<◌, ◌≡◌, refl, ap, ◌⊎◌, inl, inr, true, false, Option, none, some, List, [], ◌∷◌,
  ◌++◌, All, arith, ◌==◌, Bool-cases,
}
use agent_transport.Base.Loops.{first_answer}
use agent_transport.Base.Dict.{remove}
use agent_transport.Config.{SocketAddr, msg_key, msg_key_eq}
use agent_transport.Sender.{is_done, finish}
use agent_transport.Transport.{State, Inner, poll_send, recv_next, poll_recv}
use agent_transport.Transport.Lifecycle.{
  Wakeup, SendResult, sent_ok, timed_out_error, send_answer, send_wait, RecvResult, received_ok,
  would_block_error, recv_answer, recv_wait,
}

-- Some wake-up is at the deadline or after it.
abbrev pub Late : ℕ → List Wakeup → Type 0
Late deadline [] = ⊥
Late deadline (w ∷ wakes) = (deadline ≤ w.now) ⊎ Late deadline wakes

module _ (dest : SocketAddr) (msg_id deadline : ℕ) where
  -- The message has been sent, at some wake-up.
  abbrev pub IsSent : Wakeup → Type 0
  IsSent w = is_done w.inner.state.sender dest msg_id ≡ true

  -- It has not been sent, and there is still time.
  abbrev pub IsOpen : Wakeup → Type 0
  IsOpen w = (is_done w.inner.state.sender dest msg_id ≡ false) × (w.now < deadline)

  abbrev pub IsTimedOut : Wakeup → Type 0
  IsTimedOut w = (is_done w.inner.state.sender dest msg_id ≡ false) × (deadline ≤ w.now)

  -- The transport without the message.
  abbrev pub given_up : Inner → Inner
  given_up inner =
      let s = inner.state.sender in
      record inner {
        state = record inner.state {
          sender = record s { out = remove s.out (msg_key dest msg_id) };
        };
      }

  -- How a call of `send_to` ends: at the first wake-up that finds the message sent or is late.
  pub record SendEnds (wakes : List Wakeup) : Type 0 where
    pub result : SendResult
    pub left : Inner
    pub before : List Wakeup
    pub last : Wakeup
    pub after : List Wakeup
    pub returns : send_wait dest msg_id deadline wakes ≡ some (result, left)
    pub splits : wakes ≡ before ++ (last ∷ after)
    pub waited : All IsOpen before
    pub untouched : All (λ w. (poll_send w.inner dest msg_id deadline w.now).0 ≡ w.inner) before
    pub why :
        (IsSent last × (result ≡ sent_ok msg_id) × (left ≡ last.inner))
        ⊎ (IsTimedOut last × (result ≡ timed_out_error) × (left ≡ given_up last.inner))

  abbrev answer : Wakeup → Option (SendResult × Inner)
  answer w = send_answer (poll_send w.inner dest msg_id deadline w.now)

  data Polled (w : Wakeup) : Type 0 where
    found : IsSent w → answer w ≡ some (sent_ok msg_id, w.inner) → Polled w
    late : IsTimedOut w → answer w ≡ some (timed_out_error, given_up w.inner) → Polled w
    early :
        IsOpen w
        → answer w ≡ none
        → (poll_send w.inner dest msg_id deadline w.now).0 ≡ w.inner
        → Polled w

  poll_send-Polled : (w : Wakeup) → Polled w
  unfolding poll_send send_answer finish
  poll_send-Polled w = elim (Bool-cases (is_done w.inner.state.sender dest msg_id)) [
    | inl over ↦ found over (rw over refl)
    | inr unsent ↦ elim (Bool-cases (deadline - w.now == 0)) [
      | inl over ↦ late (unsent, ground (arith, over)) (rw (unsent, over) refl)
      | inr left ↦
          early (unsent, ground (arith, left)) (rw (unsent, left) refl) (rw (unsent, left) refl)
    ]
  ]

  -- `send_to` returns if a wake-up of its caller comes at the deadline or after it: at the first one
  -- that finds the message sent, with its number, or is late and does not, with a timeout. It changes
  -- nothing but on a timeout, where it drops the message.
  pub send_wait-Ends : (wakes : List Wakeup) → Late deadline wakes → SendEnds wakes
  unfolding send_wait first_answer
  send_wait-Ends [] h = absurd h
  send_wait-Ends (w ∷ wakes) h = elim (poll_send-Polled w) [
    | found over e ↦ record {
      result = sent_ok msg_id;
      left = w.inner;
      before = [];
      last = w;
      after = wakes;
      returns = rw (e, first_answer) refl;
      splits = refl;
      waited = tt;
      untouched = tt;
      why = inl (over, refl, refl);
    }
    | late over e ↦ record {
      result = timed_out_error;
      left = given_up w.inner;
      before = [];
      last = w;
      after = wakes;
      returns = rw (e, first_answer) refl;
      splits = refl;
      waited = tt;
      untouched = tt;
      why = inr (over, refl, refl);
    }
    | early still e same ↦
        let rest =
          send_wait-Ends wakes
            (elim h [ inl now ↦ absurd (omega (arith, still.1)) | inr later ↦ later ]) in
        record {
          result = rest.result;
          left = rest.left;
          before = w ∷ rest.before;
          last = rest.last;
          after = rest.after;
          returns = rw (e, first_answer) rest.returns;
          splits = ap (◌∷◌ w) rest.splits;
          waited = (still, rest.waited);
          untouched = (same, rest.untouched);
          why = rest.why;
        }
  ]

-- How a call of `recv` ends: at the first wake-up that finds a message or is late.
pub record RecvEnds (deadline : ℕ) (wakes : List Wakeup) : Type 0 where
  pub result : RecvResult
  pub left : State
  pub before : List Wakeup
  pub last : Wakeup
  pub after : List Wakeup
  pub returns : recv_wait deadline wakes ≡ some (result, left)
  pub splits : wakes ≡ before ++ (last ∷ after)
  pub waited : All (λ w. (w.inner.state.completed ≡ []) × (w.now < deadline)) before
  pub untouched : All (λ w. (poll_recv w.inner.state deadline w.now).0 ≡ w.inner.state) before
  pub why :
      ((src : SocketAddr) × (bytes : List ℕ) × (rest : List (SocketAddr × List ℕ))
        × (last.inner.state.completed ≡ (src, bytes) ∷ rest)
        × (result ≡ received_ok src bytes)
        × (left ≡ record last.inner.state { completed = rest }))
      ⊎ ((last.inner.state.completed ≡ [])
          × (deadline ≤ last.now)
          × (result ≡ would_block_error)
          × (left ≡ last.inner.state))

module _ (deadline : ℕ) where
  abbrev taken : Wakeup → Option (RecvResult × State)
  taken w = recv_answer (poll_recv w.inner.state deadline w.now)

  data Looked (w : Wakeup) : Type 0 where
    found :
        (src : SocketAddr) (bytes : List ℕ) (rest : List (SocketAddr × List ℕ))
        → w.inner.state.completed ≡ (src, bytes) ∷ rest
        → taken w ≡ some (received_ok src bytes, record w.inner.state { completed = rest })
        → Looked w
    late :
        w.inner.state.completed ≡ []
        → deadline ≤ w.now
        → taken w ≡ some (would_block_error, w.inner.state)
        → Looked w
    early :
        w.inner.state.completed ≡ []
        → w.now < deadline
        → taken w ≡ none
        → (poll_recv w.inner.state deadline w.now).0 ≡ w.inner.state
        → Looked w

  poll_recv-Looked :
      (w : Wakeup) (queue : List (SocketAddr × List ℕ)) → w.inner.state.completed ≡ queue → Looked w
  unfolding poll_recv recv_next recv_answer
  poll_recv-Looked w ((src, bytes) ∷ rest) e = found src bytes rest e (rw e refl)
  poll_recv-Looked w [] e = elim (Bool-cases (deadline - w.now == 0)) [
    | inl over ↦ late e (ground (arith, over)) (rw (e, over) refl)
    | inr left ↦
        early e (ground (arith, left)) (rw (e, left) refl)
          (ap (λ q. (recv_next w.inner.state deadline w.now q).0) e)
  ]

  -- `recv` returns if a wake-up of its caller comes at the deadline or after it: at the first one that
  -- finds a message or is late. It returns the message that has waited longest, and takes it and
  -- nothing else out of the queue; without one it returns that it would block, and changes nothing.
  pub recv_wait-Ends : (wakes : List Wakeup) → Late deadline wakes → RecvEnds deadline wakes
  unfolding recv_wait first_answer
  recv_wait-Ends [] h = absurd h
  recv_wait-Ends (w ∷ wakes) h = elim (poll_recv-Looked w w.inner.state.completed refl) [
    | found src bytes rest e got ↦ record {
      result = received_ok src bytes;
      left = record w.inner.state { completed = rest };
      before = [];
      last = w;
      after = wakes;
      returns = rw (got, first_answer) refl;
      splits = refl;
      waited = tt;
      untouched = tt;
      why = inl (src, bytes, rest, e, refl, refl);
    }
    | late empty over got ↦ record {
      result = would_block_error;
      left = w.inner.state;
      before = [];
      last = w;
      after = wakes;
      returns = rw (got, first_answer) refl;
      splits = refl;
      waited = tt;
      untouched = tt;
      why = inr (empty, over, refl, refl);
    }
    | early empty still got same ↦
        let rest =
          recv_wait-Ends wakes (elim h [ inl now ↦ absurd (omega arith) | inr later ↦ later ]) in
        record {
          result = rest.result;
          left = rest.left;
          before = w ∷ rest.before;
          last = rest.last;
          after = rest.after;
          returns = rw (got, first_answer) rest.returns;
          splits = ap (◌∷◌ w) rest.splits;
          waited = ((empty, still), rest.waited);
          untouched = (same, rest.untouched);
          why = rest.why;
        }
  ]

-- ===== src/Rpc/Echo.antt =====
-- The TCP echo server and its client: what goes in comes back, and the thread of a connection ends.
use agent_transport.Base.{
  ℕ, zero, suc, ◌+◌, ◌≤◌, ◌<◌, ◌≡◌, refl, sym, ap, ◌∙◌, Bool, true, false, none, some, List, [],
  ◌∷◌, ◌++◌, append_assoc, append-nil, map, length, length-append, All, take, drop, leb, le→leb,
  leb→le, Bool-cases, Option-cases, inl, inr, arith, length-drop, length-take, take-append,
  drop-append,
}
use native.Mathlib.Nat.{mod-eq_of_lt}
use mathlib.Core.Option.{some-injective}
use agent_transport.Base.Bytes.{
  IsU32, as_u32, le_bytes, from_le_bytes, length-le_bytes, from_le_bytes-le_bytes,
}
use agent_transport.Base.Loops.{ended, while_up-stops}
use agent_transport.Rpc.Tcp.{
  read_exact, tcp_frame, read_frame, conn_loop, handle_conn, call, Accepted, none_yet, accept_body,
  accept_loop, TcpEchoServer, drop_tcp,
}

read_exact-append :
    (xs ys : List ℕ) (n : ℕ) → n ≡ length xs → read_exact n (xs ++ ys) ≡ some (xs, ys)
unfolding read_exact
read_exact-append xs ys n e =
    rw
      (
        e,
        le→leb (length xs) (length (xs ++ ys)) (omega (arith, length-append xs ys)),
        take-append xs ys,
        drop-append xs ys,
      )
      refl

read_exact-long :
    (n : ℕ) (xs : List ℕ) → n ≤ length xs → read_exact n xs ≡ some (take n xs, drop n xs)
unfolding read_exact
read_exact-long n xs h = rw (le→leb _ _ h) refl

-- What a reader takes of a frame and what follows it: as many bytes as the header says.
read_frame-tcp_frame :
    (body more : List ℕ)
    → let n = as_u32 (length body) in
      read_frame (tcp_frame body ++ more) ≡ some (take n (body ++ more), drop n (body ++ more))
unfolding read_frame tcp_frame
read_frame-tcp_frame body more =
    let n = as_u32 (length body) in
    let hdr = le_bytes 4 n in
    let split : (hdr ++ body) ++ more ≡ hdr ++ (body ++ more) = append_assoc hdr body more in
    rw
      (
        split,
        read_frame,
        read_exact-append hdr (body ++ more) 4 (sym (length-le_bytes 4 n)),
        from_le_bytes-le_bytes 4 n (omega arith),
      )
      (read_exact-long n (body ++ more) (omega (arith, length-append body more)))

-- The frame of a body that its header has room for.
read_frame-short :
    (body more : List ℕ)
    → IsU32 (length body)
    → read_frame (tcp_frame body ++ more) ≡ some (body, more)
read_frame-short body more short =
    read_frame-tcp_frame body more
    ∙ (rw (mod-eq_of_lt short, take-append body more, drop-append body more) refl)

read_exact-length :
    (n : ℕ) (xs : List ℕ) (r : List ℕ × List ℕ)
    → read_exact n xs ≡ some r
    → n + length r.1 ≡ length xs
unfolding read_exact
read_exact-length n xs r e = elim (Bool-cases (leb n (length xs))) [
  | inr short ↦ absurd (cc (rw short at e))
  | inl long ↦
      let same = some-injective _ r (rw long at e) in
      rw (← ap (λ p. length p.1) same) (omega (arith, length-drop n xs, leb→le _ _ long))
]

read_frame-length :
    (xs : List ℕ) (r : List ℕ × List ℕ) → read_frame xs ≡ some r → 4 + length r.1 ≤ length xs
unfolding read_frame
read_frame-length xs r e = elim (Option-cases (read_exact 4 xs)) [
  | inl short ↦ absurd (cc (rw (short, read_frame) at e))
  | inr (a, first) ↦
      let second : read_exact (from_le_bytes a.0) a.1 ≡ some r = rw (first, read_frame) at e in
      omega (arith, read_exact-length 4 xs a first, read_exact-length _ a.1 r second)
]

conn_loop_returns :
    (fuel : ℕ) (writable : ℕ → Bool) (k : ℕ) (written stream : List ℕ)
    → length stream < fuel
    → (conn_loop fuel writable k written stream).returned ≡ true
unfolding conn_loop
conn_loop_returns zero writable k written stream h = absurd (omega arith)
conn_loop_returns (suc fuel) writable k written stream h = elim (Option-cases (read_frame stream)) [
  | inl over ↦ rw (over, conn_loop) refl
  | inr (r, e) ↦
      let rest =
        conn_loop_returns fuel writable (suc k) (written ++ tcp_frame r.0) r.1
          (omega (arith, read_frame-length stream r e)) in
      elim (Bool-cases (writable k)) [
        | inl good ↦ rw (e, conn_loop, good) rest
        | inr bad ↦ rw (e, conn_loop, bad) refl
      ]
]

-- The thread of a connection returns, whatever comes over the stream and whichever of its writes
-- fail: each round takes at least a header.
handle_conn_returns :
    (writable : ℕ → Bool) (stream : List ℕ) → (handle_conn writable stream).returned ≡ true
unfolding handle_conn
handle_conn_returns writable stream =
    conn_loop_returns (suc (length stream)) writable 0 [] stream (omega arith)

-- The frames of some bodies, one after the other, and what follows them.
unfoldable pub frames : List (List ℕ) → List ℕ → List ℕ
frames [] tail = tail
frames (body ∷ bodies) tail = tcp_frame body ++ frames bodies tail

conn_loop-frames :
    (fuel : ℕ) (writable : ℕ → Bool) (k : ℕ) (written : List ℕ) (bodies : List (List ℕ))
    (tail : List ℕ)
    → ((i : ℕ) → writable i ≡ true)
    → All (λ body. IsU32 (length body)) bodies
    → read_frame tail ≡ none
    → length (frames bodies tail) < fuel
    → conn_loop fuel writable k written (frames bodies tail)
      ≡ record { written = written ++ frames bodies []; returned = true }
unfolding conn_loop frames
conn_loop-frames zero writable k written bodies tail good short over h = absurd (omega arith)
conn_loop-frames (suc fuel) writable k written [] tail good short over h =
    rw (over, conn_loop)
      (ap (λ w. record { written = w; returned = true }) (sym (append-nil written)))
conn_loop-frames (suc fuel) writable k written (body ∷ bodies) tail good short over h =
    let e = read_frame-short body (frames bodies tail) short.0 in
    let rest =
      conn_loop-frames fuel writable (suc k) (written ++ tcp_frame body) bodies tail good short.1
        over (omega (arith, read_frame-length _ _ e)) in
    rw (e, conn_loop, good k)
      (rest
        ∙ ap (λ w. record { written = w; returned = true })
            (append_assoc written (tcp_frame body) (frames bodies [])))

-- The echo server writes back every complete frame that it gets, in order and without a change, and
-- returns when the stream ends within a frame or between two. Its writes succeed, and each body is
-- shorter than 2^32 bytes.
pub handle_conn_echoes :
    (writable : ℕ → Bool) (bodies : List (List ℕ)) (tail : List ℕ)
    → ((i : ℕ) → writable i ≡ true)
    → All (λ body. IsU32 (length body)) bodies
    → read_frame tail ≡ none
    → handle_conn writable (frames bodies tail)
      ≡ record { written = frames bodies []; returned = true }
unfolding handle_conn
handle_conn_echoes writable bodies tail good short over =
    conn_loop-frames _ writable 0 [] bodies tail good short over (omega arith)

-- What is written stays in front of what is written later.
conn_loop-written :
    (fuel : ℕ) (writable : ℕ → Bool) (k : ℕ) (written stream : List ℕ)
    → (more : List ℕ) × ((conn_loop fuel writable k written stream).written ≡ written ++ more)
unfolding conn_loop
conn_loop-written zero writable k written stream = ([], sym (append-nil written))
conn_loop-written (suc fuel) writable k written stream = elim (Option-cases (read_frame stream)) [
  | inl over ↦ ([], rw (over, conn_loop) (sym (append-nil written)))
  | inr (r, e) ↦
      let (more, rest) = conn_loop-written fuel writable (suc k) (written ++ tcp_frame r.0) r.1 in
      elim (Bool-cases (writable k)) [
        | inl good ↦ (
          tcp_frame r.0 ++ more,
          rw (e, conn_loop, good) (rest ∙ append_assoc written (tcp_frame r.0) more),
        )
        | inr bad ↦ ([], rw (e, conn_loop, bad) (sym (append-nil written)))
      ]
]

-- The echo server's answer to one frame starts with the frame of the bytes that it has read.
first_reply :
    (writable : ℕ → Bool) (payload : List ℕ)
    → writable 0 ≡ true
    → (more : List ℕ) × ((handle_conn writable (tcp_frame payload)).written
        ≡ tcp_frame (take (as_u32 (length payload)) payload) ++ more)
unfolding handle_conn conn_loop
first_reply writable payload good =
    let n = as_u32 (length payload) in
    let e : read_frame (tcp_frame payload) ≡ some (take n payload, drop n payload) =
      rw (append-nil (tcp_frame payload), append-nil payload) at
        (read_frame-tcp_frame payload []) in
    let (more, rest) =
      conn_loop-written (length (tcp_frame payload)) writable 1 (tcp_frame (take n payload))
        (drop n payload) in
    (more, rw (e, conn_loop, good) rest)

-- `call` of the echo server returns the first length % 2^32 bytes of the payload: all of it, if it is
-- shorter than 2^32 bytes. The connection and the writes of the request and the reply succeed.
pub call_echoes :
    (writable : ℕ → Bool) (payload : List ℕ)
    → writable 0 ≡ true
    → call true true (λ request. (handle_conn writable request).written) payload
      ≡ some (take (as_u32 (length payload)) payload)
unfolding call
call_echoes writable payload good =
    let n = as_u32 (length payload) in
    let (more, written) = first_reply writable payload good in
    let small : IsU32 (length (take n payload)) = omega (arith, length-take n payload) in
    rw (written, read_frame-short (take n payload) more small) refl

-- The accepting thread ends once it reads the flag, or before that if `accept` fails.
pub drop_tcp-ended :
    (s : TcpEchoServer) (served : List (List ℕ)) (left : List Accepted)
    → s.thread ≡ some served
    → (served' : List (List ℕ)) × ((drop_tcp s left).1 ≡ some (ended served'))
unfolding drop_tcp accept_loop
drop_tcp-ended s served left e =
    let (served', last, same) =
      while_up-stops accept_body served (map (λ a. record { stop = false; input = a }) left) []
        (record { stop = true; input = none_yet }) refl in
    (served', rw (e, drop_tcp, last) refl)

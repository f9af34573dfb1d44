-- ===== src/Transport/Working.antt =====
-- transport/mod.rs: what `io_loop` does over its turns, and where it ends.
use agent_transport.Base.{ℕ, ◌+◌, ◌≡◌, ◌⊎◌, Bool, true, false, List, [], ◌∷◌, ◌++◌, if◌then◌else◌}
use agent_transport.Base.Loops.{ended, Turn}
use agent_transport.TxQueue.{Outgoing}
use agent_transport.Transport.{IoLoop, Received, continues, thread_dies, tick_if_due, io_iteration}
use agent_transport.Transport.Lifecycle.{Input, hears, fails, IoThread, io_loop}

-- The thread after an iteration that leaves `l`, hands over `datagrams` and wakes waiters or not.
abbrev pub on_with : IoThread → IoLoop → List Outgoing → Bool → IoThread
on_with io l datagrams notified = record io {
  loop = l;
  datagrams = io.datagrams ++ datagrams;
  wake_ups = io.wake_ups + (if notified then 1 else 0);
}

-- What an input makes the thread do and go on: an iteration for a datagram or a timeout of the socket;
-- after another error, if the flag is not set, only the ticks that are due.
pub data Works (io : IoThread) : Input → IoThread → Type 0 where
  serves :
      {input : Received} {now later : ℕ} {l : IoLoop} {datagrams : List Outgoing} {notified : Bool}
      → io_iteration io.loop input now later ≡ continues l datagrams notified
      → Works io (hears input now later) (on_with io l datagrams notified)
  ticks_on :
      {later : ℕ} {l : IoLoop} {datagrams : List Outgoing} {notified : Bool}
      → tick_if_due io.loop [] false later ≡ continues l datagrams notified
      → Works io (fails false later) (on_with io l datagrams notified)

-- Turns that do not see the flag, one after the other.
pub data WorksThrough : IoThread → List (Turn Input) → IoThread → Type 0 where
  rests : {io : IoThread} → WorksThrough io [] io
  goes :
      {io mid io' : IoThread} {t : Turn Input} {turns : List (Turn Input)}
      → t.stop ≡ false
      → Works io t.input mid
      → WorksThrough mid turns io'
      → WorksThrough io (t ∷ turns) io'

-- Why a turn is the last: its head sees the flag; its socket fails and the flag is then set; or its
-- packet makes the thread panic.
pub data Stops (io : IoThread) (t : Turn Input) : IoThread → Type 0 where
  sees_flag : t.stop ≡ true → Stops io t io
  fails_stopped : {later : ℕ} → t.stop ≡ false → t.input ≡ fails true later → Stops io t io
  panics_in :
      {input : Received} {now later : ℕ}
      → t.stop ≡ false
      → t.input ≡ hears input now later
      → io_iteration io.loop input now later ≡ thread_dies
      → Stops io t (record io { dead = true })

-- How the loop ends.
pub record LoopEnds (io : IoThread) (turns : List (Turn Input)) : Type 0 where
  pub before : List (Turn Input)
  pub last : Turn Input
  pub after : List (Turn Input)
  pub splits : turns ≡ before ++ (last ∷ after)
  pub mid : IoThread
  pub result : IoThread
  pub worked : WorksThrough io before mid
  pub why : Stops mid last result
  pub ends : io_loop io turns ≡ ended result

-- Some turn sees the flag.
abbrev pub SeesFlag : List (Turn Input) → Type 0
SeesFlag [] = ⊥
SeesFlag (t ∷ turns) = (t.stop ≡ true) ⊎ SeesFlag turns

-- One turn: the loop ends here, or works on with the thread that it leaves.
data TurnCase (io : IoThread) (t : Turn Input) (turns : List (Turn Input)) : Type 0 where
  stops :
      (result : IoThread)
      → Stops io t result
      → io_loop io (t ∷ turns) ≡ ended result
      → TurnCase io t turns
  continues_on :
      (mid : IoThread)
      → t.stop ≡ false
      → Works io t.input mid
      → io_loop io (t ∷ turns) ≡ io_loop mid turns
      → TurnCase io t turns

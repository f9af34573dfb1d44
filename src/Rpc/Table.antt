-- ===== src/Rpc/Table.antt =====
-- The server's table and its calls of the handler, against its worker threads.
use agent_transport.Base.{
  ℕ, zero, suc, ◌≡◌, refl, ap, Option, none, some, List, [], ◌∷◌, ◌++◌, get_elem?, set, Bool-cases,
  inl, inr,
}
use mathlib.Core.Option.{some-injective}
use agent_transport.Base.Dict.{Dict, get, insert, get-insert, IsDistinct}
use agent_transport.Config.{MsgKey, msg_key_eq, key_eq, key_eq_iff}
use agent_transport.Rpc.{Work, Phase, waits, answered, recorded}

module _ {V : Type 0} where
  -- Pushing a new key is what `insert` does.
  pub push-insert :
      (d : Dict MsgKey V) (k : MsgKey) (v : V) → get d k ≡ none → d ++ ((k, v) ∷ []) ≡ insert d k v
  unfolding get insert
  push-insert [] k v absent = refl
  push-insert ((i, u) ∷ d) k v absent = elim (Bool-cases (key_eq i k)) [
    | inl same ↦ cc (rw same at absent)
    | inr other ↦ rw other (ap (◌∷◌ (i, u)) (push-insert d k v (rw other at absent)))
  ]

  pub get_elem?-get :
      (d : Dict MsgKey V) (n : ℕ) (k : MsgKey) (v : V)
      → IsDistinct d
      → get_elem? d n ≡ some (k, v)
      → get d k ≡ some v
  unfolding get
  get_elem?-get [] n k v distinct e = cc e
  get_elem?-get ((i, u) ∷ d) zero k v distinct e =
      let same = some-injective (i, u) (k, v) e in
      rw (ap (λ x. x.0) same, (key_eq_iff k k).1 refl) (ap some (ap (λ x. x.1) same))
  get_elem?-get ((i, u) ∷ d) (suc n) k v (absent, distinct) e =
      let there = get_elem?-get d n k v distinct e in
      elim (Bool-cases (key_eq i k)) [
        | inl same ↦ cc (there, absent, (key_eq_iff i k).0 same)
        | inr other ↦ rw other there
      ]

  -- Writing the value of an entry is what `insert` does.
  pub set-insert :
      (d : Dict MsgKey V) (n : ℕ) (k : MsgKey) (v w : V)
      → IsDistinct d
      → get_elem? d n ≡ some (k, v)
      → set d n (k, w) ≡ insert d k w
  unfolding insert
  set-insert [] n k v w distinct e = cc e
  set-insert ((i, u) ∷ d) zero k v w distinct e =
      let same = some-injective (i, u) (k, v) e in
      rw (ap (λ x. x.0) same, (key_eq_iff k k).1 refl) refl
  set-insert ((i, u) ∷ d) (suc n) k v w (absent, distinct) e =
      let there = get_elem?-get d n k v distinct e in
      elim (Bool-cases (key_eq i k)) [
        | inl same ↦ cc (there, absent, (key_eq_iff i k).0 same)
        | inr other ↦ rw other (ap (◌∷◌ (i, u)) (set-insert d n k v w distinct e))
      ]

-- What the table says of a request whose worker is at some point.
unfoldable pub entry_at : Phase → Option (List ℕ)
entry_at waits = none
entry_at (answered resp) = none
entry_at (recorded resp) = some resp

unfoldable pub entry_of : Option Work → Option (Option (List ℕ))
entry_of none = none
entry_of (some w) = some (entry_at w.phase)

-- The call of the handler that the worker has made.
unfoldable pub call_at : List ℕ → Phase → Option (List ℕ)
call_at body waits = none
call_at body (answered resp) = some body
call_at body (recorded resp) = some body

unfoldable pub call_of : Option Work → Option (List ℕ)
call_of none = none
call_of (some w) = call_at w.body w.phase

recorded_of : (p : Phase) (c : List ℕ) → entry_at p ≡ some c → p ≡ recorded c
unfolding entry_at
recorded_of waits c e = cc e
recorded_of (answered resp) c e = cc e
recorded_of (recorded resp) c e = ap recorded (some-injective resp c e)

pub entry_cached :
    (o : Option Work) (c : List ℕ)
    → entry_of o ≡ some (some c)
    → (w : Work) × (o ≡ some w) × (w.phase ≡ recorded c)
unfolding entry_of
entry_cached none c e = cc e
entry_cached (some w) c e =
    (w, refl, recorded_of w.phase c (some-injective (entry_at w.phase) (some c) e))

pub entry_none : (o : Option Work) → entry_of o ≡ none → o ≡ none
unfolding entry_of
entry_none none e = refl
entry_none (some w) e = cc e

abbrev pub Table : Dict MsgKey (Option (List ℕ)) → Dict MsgKey Work → Type 0
Table dedup workers = (k : MsgKey) → get dedup k ≡ entry_of (get workers k)

abbrev pub Called : Dict MsgKey (List ℕ) → Dict MsgKey Work → Type 0
Called calls workers = (k : MsgKey) → get calls k ≡ call_of (get workers k)

module _ (workers : Dict MsgKey Work) (key : MsgKey) (w : Work) where
  -- The table after a worker's step: written, or as it was where it says so already.
  pub Table-insert :
      (dedup : Dict MsgKey (Option (List ℕ))) (e : Option (List ℕ))
      → e ≡ entry_at w.phase
      → Table dedup workers
      → Table (insert dedup key e) (insert workers key w)
  unfolding entry_of
  Table-insert dedup e same h k =
      rw (get-insert dedup key k e, get-insert workers key k w)
        (elim (Bool-cases (key_eq key k)) [
          | inl here ↦ rw here (ap some same)
          | inr other ↦ rw other (h k)
        ])

  pub Table-keep :
      (dedup : Dict MsgKey (Option (List ℕ)))
      → get dedup key ≡ some (entry_at w.phase)
      → Table dedup workers
      → Table dedup (insert workers key w)
  unfolding entry_of
  Table-keep dedup same h k = rw (get-insert workers key k w) (elim (Bool-cases (key_eq key k)) [
    | inl here ↦ rw (here, ← (key_eq_iff key k).0 here) same
    | inr other ↦ rw other (h k)
  ])

  pub Called-insert :
      (calls : Dict MsgKey (List ℕ)) (body : List ℕ)
      → some body ≡ call_at w.body w.phase
      → Called calls workers
      → Called (insert calls key body) (insert workers key w)
  unfolding call_of
  Called-insert calls body same h k =
      rw (get-insert calls key k body, get-insert workers key k w)
        (elim (Bool-cases (key_eq key k)) [ inl here ↦ rw here same | inr other ↦ rw other (h k) ])

  pub Called-keep :
      (calls : Dict MsgKey (List ℕ))
      → get calls key ≡ call_at w.body w.phase
      → Called calls workers
      → Called calls (insert workers key w)
  unfolding call_of
  Called-keep calls same h k = rw (get-insert workers key k w) (elim (Bool-cases (key_eq key k)) [
    | inl here ↦ rw (here, ← (key_eq_iff key k).0 here) same
    | inr other ↦ rw other (h k)
  ])

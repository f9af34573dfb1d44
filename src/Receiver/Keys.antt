-- ===== src/Receiver/Keys.antt =====
-- Lists of message keys: what `contains` says of a longer or a shorter list.
use agent_transport.Base.{◌≡◌, ◌≢◌, refl, true, false, ◌||◌, List, [], ◌∷◌, ◌++◌, drop, arith}
use agent_transport.Config.{MsgKey, msg_key_eq, key_eq, key_eq_iff}
use agent_transport.Receiver.State.{contains}

pub contains-append :
    (xs ys : List MsgKey) (k : MsgKey) → contains (xs ++ ys) k ≡ (contains xs k || contains ys k)
unfolding contains
contains-append [] ys k = refl
contains-append (x ∷ xs) ys k = rw (contains-append xs ys k) (ground arith)

-- One more key.
pub contains-append_one :
    (keys : List MsgKey) (key k : MsgKey)
    → contains (keys ++ (key ∷ [])) k ≡ (contains keys k || key_eq key k)
unfolding contains
contains-append_one keys key k = rw (contains-append keys (key ∷ []) k) (ground arith)

pub contains-append_self :
    (keys : List MsgKey) (key : MsgKey) → contains (keys ++ (key ∷ [])) key ≡ true
contains-append_self keys key =
    rw (contains-append_one keys key key, (key_eq_iff key key).1 refl) (ground arith)

pub contains-drop :
    (keys : List MsgKey) (k : MsgKey) → contains keys k ≡ false → contains (drop 1 keys) k ≡ false
unfolding contains
contains-drop [] k h = h
contains-drop (j ∷ keys) k h = ground arith

pub other_key : (k key : MsgKey) → key_eq k key ≡ false → k ≢ key
other_key k key other e = cc (other, (key_eq_iff k key).1 e)

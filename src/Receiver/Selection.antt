-- ===== src/Receiver/Selection.antt =====
-- Which messages a round of scheduling selects: those with the fewest bytes left, and those that
-- have waited too long.
use agent_transport.Base.{
  ℕ, ◌-◌, ◌≡◌, refl, sym, ◌∙◌, min, max, Bool, true, false, not, ◌&&◌, ◌||◌, some, List, [], ◌∷◌,
  ◌++◌, map, append-nil, append_assoc, length, take, drop, take-append-drop, length-take, All,
  All-mono, arith, leb, if◌then◌else◌, Bool-cases, inl, inr,
}
use mathlib.Core.List.{Perm}
use agent_transport.Base.Dict.{Dict, get, Every, IsDistinct}
use agent_transport.Config.{MsgKey, msg_key_eq, key_eq, key_eq_iff, TransportConfig}
use agent_transport.Receiver.Keys.{contains-append, contains-append_self}
use agent_transport.Receiver.State.{InMsg, contains}
use agent_transport.Receiver.Scheduler.{
  wants_grant, candidates, sort_by_remaining, add_starving, shortest, select,
}
use agent_transport.Receiver.Sorting.{
  Candidate, Shorter, Shorter-take, sort_by_remaining-Perm, sort_by_remaining-IsSorted,
  length-sort_by_remaining,
}

-- The message wants credit, and has had none for too long.
unfoldable pub starves : ℕ → ℕ → InMsg → Bool
starves starve now m = wants_grant m && leb starve (now - m.last_grant)

-- A key of the map with a message that starves.
abbrev pub IsStarving : ℕ → ℕ → Dict MsgKey InMsg → MsgKey → Type 0
IsStarving starve now incoming key =
    (m : InMsg) × (get incoming key ≡ some m) × (starves starve now m ≡ true)

-- Every message of `d` that starves is among the keys.
abbrev pub Served : ℕ → ℕ → Dict MsgKey InMsg → List MsgKey → Type 0
Served starve now d keys = Every (λ k m. (not (starves starve now m) || contains keys k) ≡ true) d

record Adds (starve now : ℕ) (incoming d : Dict MsgKey InMsg) (selected keys : List MsgKey)
    : Type 0 where
  extra : List MsgKey
  adds : keys ≡ selected ++ extra
  starving : All (IsStarving starve now incoming) extra
  served : Served starve now d keys

add_starving-cons :
    (starve now : ℕ) (k : MsgKey) (m : InMsg) (d : Dict MsgKey InMsg) (selected : List MsgKey)
    → add_starving starve now ((k, m) ∷ d) selected
      ≡ add_starving starve now d (
          if starves starve now m && not (contains selected k)
          then selected ++ (k ∷ [])
          else selected)
unfolding add_starving starves
add_starving-cons starve now k m d selected = elim (Bool-cases (wants_grant m)) [
  | inl wants ↦ rw wants refl
  | inr content ↦ rw content refl
]

-- The first message of the map is served, if it is among the keys that are selected first.
served_first :
    (hungry : Bool) (selected extra keys : List MsgKey) (k : MsgKey)
    → keys ≡ selected ++ extra
    → (not hungry || contains selected k) ≡ true
    → (not hungry || contains keys k) ≡ true
served_first false selected extra keys k e h = refl
served_first true selected extra keys k e h = rw (e, contains-append selected extra k, h) refl

add_starving-Adds :
    (starve now : ℕ) (incoming d : Dict MsgKey InMsg) (selected : List MsgKey)
    → Every (λ k m. get incoming k ≡ some m) d
    → Adds starve now incoming d selected (add_starving starve now d selected)
add_starving-Adds starve now incoming [] selected within =
    unfold add_starving in
    record { extra = []; adds = sym (append-nil selected); starving = tt; served = tt }
add_starving-Adds starve now incoming ((k, m) ∷ d) selected (found, within) =
    rw (add_starving-cons starve now k m d selected)
      (elim (Bool-cases (starves starve now m && not (contains selected k))) [
        | inl joins ↦
            let r = add_starving-Adds starve now incoming d (selected ++ (k ∷ [])) within in
            rw joins (record {
              extra = k ∷ r.extra;
              adds = r.adds ∙ append_assoc selected (k ∷ []) r.extra;
              starving = ((m, found, ground (arith, joins)), r.starving);
              served = (
                served_first (starves starve now m) (selected ++ (k ∷ [])) r.extra _ k r.adds
                    (rw (contains-append_self selected k) (ground arith)),
                r.served,
              );
            })
        | inr stays ↦
            let r = add_starving-Adds starve now incoming d selected within in
            rw stays (record {
              extra = r.extra;
              adds = r.adds;
              starving = r.starving;
              served = (
                served_first (starves starve now m) selected r.extra _ k r.adds
                    (ground (arith, stays)),
                r.served,
              );
            })
      ])

Every-found : (d : Dict MsgKey InMsg) → IsDistinct d → Every (λ k m. get d k ≡ some m) d
unfolding get
Every-found [] h = tt
Every-found ((k, m) ∷ d) (absent, h) = (
  rw ((key_eq_iff k k).1 refl) refl,
  All-mono (λ entry. get d entry.0 ≡ some entry.1)
      (λ entry. get ((k, m) ∷ d) entry.0 ≡ some entry.1) d
      (λ entry e. elim (Bool-cases (key_eq k entry.0)) [
        | inl same ↦ cc (e, absent, (key_eq_iff k entry.0).0 same)
        | inr other ↦ rw other e
      ])
      (Every-found d h),
)

-- What a selection is to be.
pub record Selects (cfg : TransportConfig) (now : ℕ) (incoming : Dict MsgKey InMsg)
    (keys : List MsgKey) : Type 0 where
  pub chosen : List Candidate
  pub left : List Candidate
  pub extra : List MsgKey
  pub split : Perm (chosen ++ left) (candidates incoming)
  pub count : length chosen ≡ min (max cfg.overcommit 1) (length (candidates incoming))
  pub shorter : Shorter chosen left
  pub all : keys ≡ map (λ c. c.0) chosen ++ extra
  pub starving : All (IsStarving cfg.starve_threshold now incoming) extra
  pub served : Served cfg.starve_threshold now incoming keys

-- A round of scheduling selects, of the messages that want credit, `overcommit` (and at least one)
-- that miss the fewest bytes: none that is left over misses fewer. It adds to them messages that
-- want credit and have had none for the starvation threshold, and no others; and every such
-- message is selected.
pub select-Selects :
    (cfg : TransportConfig) (now : ℕ) (incoming : Dict MsgKey InMsg)
    → IsDistinct incoming
    → Selects cfg now incoming (select cfg now incoming)
unfolding select shortest
select-Selects cfg now incoming distinct =
    let k = max cfg.overcommit 1 in
    let sorted = sort_by_remaining (candidates incoming) in
    let r =
      add_starving-Adds cfg.starve_threshold now incoming incoming (shortest k incoming)
        (Every-found incoming distinct) in
    record {
      chosen = take k sorted;
      left = drop k sorted;
      extra = r.extra;
      split = rw (take-append-drop k sorted) (sort_by_remaining-Perm (candidates incoming));
      count = omega (arith, length-take k sorted, length-sort_by_remaining (candidates incoming));
      shorter = Shorter-take k sorted (sort_by_remaining-IsSorted (candidates incoming));
      all = r.adds;
      starving = r.starving;
      served = r.served;
    }

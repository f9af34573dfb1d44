-- ===== src/Base/Loops.antt =====
-- Loops that wait: until a flag is seen, or until a poll has an answer.
use mathlib.Core.Path.{◌≡◌, refl}
use mathlib.Core.Bool.{Bool, true}
use mathlib.Core.Option.{Option, none, some}
use mathlib.Core.List.{List, [], ◌∷◌, ◌++◌}
use agent_transport.Base.Tests.{if◌then◌else◌, Bool-cases}
use mathlib.Core.Logic.{inl, inr}

-- What the body of a loop does with one input: it goes on, or it breaks off.
pub data Step {ℓ} (S : Type ℓ) : Type ℓ where
  goes_on : S → Step S
  breaks : S → Step S

-- Where a loop stands after some turns: it has ended, or it waits for its next input.
pub data Standing {ℓ} (S : Type ℓ) : Type ℓ where
  ended : S → Standing S
  running : S → Standing S

-- One turn of a loop: the flag as its head reads it, and the input of its body.
pub record Turn {ℓ} (A : Type ℓ) : Type ℓ where
  pub stop : Bool
  pub input : A

module _ {ℓ κ} {S : Type ℓ} {A : Type κ} (body : S → A → Step S) where
  -- `while !stop.load() { body }`
  unfoldable pub while_up : S → List (Turn A) → Standing S
  while_up s [] = running s
  while_up s (t ∷ turns) =
      if t.stop
      then ended s
      else elim (body s t.input) [ goes_on s' ↦ while_up s' turns | breaks s' ↦ ended s' ]

  -- A turn at which the flag is seen is the last that counts, and the loop ends there at the latest.
  pub while_up-stops :
      (s : S) (before after : List (Turn A)) (t : Turn A)
      → t.stop ≡ true
      → (s' : S) × (while_up s (before ++ (t ∷ after)) ≡ ended s')
        × (while_up s (before ++ (t ∷ [])) ≡ ended s')
  unfolding while_up
  while_up-stops s [] after t seen = (s, rw seen refl, rw seen refl)
  while_up-stops s (t' ∷ before) after t seen = elim (Bool-cases t'.stop) [
    | inl up ↦ (s, rw up refl, rw up refl)
    | inr on ↦
        elim (body s t'.input)
          as (λ o.
            (s' : S) × ((if t'.stop then ended s else elim o [
              | goes_on s' ↦ while_up s' (before ++ (t ∷ after))
              | breaks s' ↦ ended s'
            ])
              ≡ ended s')
            × ((if t'.stop then ended s else elim o [
              | goes_on s' ↦ while_up s' (before ++ (t ∷ []))
              | breaks s' ↦ ended s'
            ])
                ≡ ended s')) [
                  | breaks s' ↦ (s', rw on refl, rw on refl)
                  | goes_on s' ↦ rw on (while_up-stops s' before after t seen)
                ]
  ]

-- The first answer that a poll gets.
module _ {ℓ} {W : Type ℓ} {R : Type 0} (poll : W → Option R) where
  unfoldable pub first_answer : List W → Option R
  first_answer [] = none
  first_answer (w ∷ wakes) =
      let later = first_answer wakes in elim (poll w) [ none ↦ later | some r ↦ some r ]

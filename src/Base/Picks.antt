-- ===== src/Base/Picks.antt =====
-- Elements taken out of a list, one after another and in any order.
use Prim.Native.Nat.{ℕ, zero, suc}
use mathlib.Core.Path.{◌≡◌, refl, ap, subst}
use mathlib.Core.Logic.{◌⊎◌, inl, inr}
use mathlib.Core.Option.{Option, none, some, some-injective}
use mathlib.Core.List.{List, [], ◌∷◌, ◌++◌, map}
use agent_transport.Base.Lists.{All, length, get_elem?, set}

module _ {ℓ} {A : Type ℓ} where
  -- Some element has the property.
  abbrev pub Any : (A → Type 0) → List A → Type 0
  Any P [] = ⊥
  Any P (x ∷ xs) = P x ⊎ Any P xs

  -- The element at position k and the others; the last element, if there are fewer.
  unfoldable pub pull : ℕ → List A → Option (A × List A)
  pull k [] = none
  pull zero (x ∷ xs) = some (x, xs)
  pull (suc k) (x ∷ xs) =
      let rest = pull k xs in elim rest [ none ↦ some (x, xs) | some (y, ys) ↦ some (y, x ∷ ys) ]

  -- The second list is the first without one `y`.
  pub data Pulled (y : A) : List A → List A → Type ℓ where
    first : {xs : List A} → Pulled y (y ∷ xs) xs
    later : {x : A} {xs ys : List A} → Pulled y xs ys → Pulled y (x ∷ xs) (x ∷ ys)

  pub pull-cases :
      (k : ℕ) (xs : List A)
      → ((xs ≡ []) × (pull k xs ≡ none))
        ⊎ ((y : A) × (ys : List A) × (pull k xs ≡ some (y, ys)) × Pulled y xs ys)
  unfolding pull
  pull-cases k [] = inl (refl, refl)
  pull-cases zero (x ∷ xs) = inr (x, xs, refl, first)
  pull-cases (suc k) (x ∷ xs) = elim (pull-cases k xs) [
    | inl (empty, e) ↦ inr (x, xs, rw (e, pull) refl, first)
    | inr (y, ys, e, p) ↦ inr (y, x ∷ ys, rw (e, pull) refl, later p)
  ]

  pub Pulled-length : {y : A} {xs ys : List A} → Pulled y xs ys → length xs ≡ suc (length ys)
  Pulled-length first = refl
  Pulled-length (later p) = ap suc (Pulled-length p)

module _ {ℓ} {A : Type ℓ} (P : A → Type 0) where
  pub Any-append_left : (xs ys : List A) → Any P xs → Any P (xs ++ ys)
  Any-append_left [] ys h = absurd h
  Any-append_left (x ∷ xs) ys (inl here) = inl here
  Any-append_left (x ∷ xs) ys (inr there) = inr (Any-append_left xs ys there)

  pub Any-append_right : (xs ys : List A) → Any P ys → Any P (xs ++ ys)
  Any-append_right [] ys h = h
  Any-append_right (x ∷ xs) ys h = inr (Any-append_right xs ys h)

  pub Any-set :
      (xs : List A) (n : ℕ) (x y : A)
      → get_elem? xs n ≡ some x
      → (P x → P y)
      → Any P xs
      → Any P (set xs n y)
  Any-set [] n x y e f h = absurd h
  Any-set (z ∷ xs) zero x y e f (inl here) = inl (f (subst P (some-injective z x e) here))
  Any-set (z ∷ xs) zero x y e f (inr there) = inr there
  Any-set (z ∷ xs) (suc n) x y e f (inl here) = inl here
  Any-set (z ∷ xs) (suc n) x y e f (inr there) = inr (Any-set xs n x y e f there)

  pub Any-set_there :
      (xs : List A) (n : ℕ) (x y : A) → get_elem? xs n ≡ some x → P y → Any P (set xs n y)
  Any-set_there [] n x y e h = absurd cc
  Any-set_there (z ∷ xs) zero x y e h = inl h
  Any-set_there (z ∷ xs) (suc n) x y e h = inr (Any-set_there xs n x y e h)

  pub Any-map : (f : A → A) (xs : List A) → ((x : A) → P x → P (f x)) → Any P xs → Any P (map f xs)
  Any-map f [] keeps h = h
  Any-map f (x ∷ xs) keeps (inl here) = inl (keeps x here)
  Any-map f (x ∷ xs) keeps (inr there) = inr (Any-map f xs keeps there)

  pub Pulled-All : {y : A} {xs ys : List A} → Pulled y xs ys → All P xs → P y × All P ys
  Pulled-All first h = h
  Pulled-All (later p) (here, there) = let (good, rest) = Pulled-All p there in (good, (here, rest))

  pub Pulled-Any : {y : A} {xs ys : List A} → Pulled y xs ys → Any P xs → P y ⊎ Any P ys
  Pulled-Any first h = h
  Pulled-Any (later p) (inl here) = inr (inl here)
  Pulled-Any (later p) (inr there) = elim (Pulled-Any p there) [
    | inl good ↦ inl good
    | inr rest ↦ inr (inr rest)
  ]

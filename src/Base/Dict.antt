-- ===== src/Base/Dict.antt =====
-- `HashMap<K, V>` of the standard library as the list of its entries, one for each key. The order
-- of the list stands for the map's iteration order, which the program does not choose.
use Prim.Native.Nat.{suc, ◌≤◌}
use mathlib.Core.Path.{◌≡◌, refl, subst}
use mathlib.Core.Logic.{inl, inr, ◌≢◌}
use mathlib.Core.Option.{Option, none, some, some-injective}
use mathlib.Core.List.{List, [], ◌∷◌, map}
use native.Mathlib.Omega.{arith}
use agent_transport.Base.Tests.{Eq, beq_refl, Bool-cases, if◌then◌else◌}
use agent_transport.Base.Lists.{length, All}

abbrev pub Dict {ℓ κ} : Type ℓ → Type κ → Type (ℓ ⊔ κ)
Dict K V = List (K × V)

module _ {ℓ κ} {K : Type ℓ} {V : Type κ} where
  -- map.keys(), in iteration order
  abbrev pub keys : Dict K V → List K
  keys = map (λ entry. entry.0)

  -- A property of every value.
  abbrev pub Every {μ} : (K → V → Type μ) → Dict K V → Type μ
  Every P d = All (λ entry. P entry.0 entry.1) d

module _ {ℓ κ} {K : Type ℓ} {V : Type κ} ⦃e : Eq K⦄ where
  -- map.get(&k)
  unfoldable pub get : Dict K V → K → Option V
  get [] k = none
  get ((j, v) ∷ d) k = if e.beq j k then some v else get d k

  -- map.insert(k, v); it also stands for a write through map.get_mut(&k)
  unfoldable pub insert : Dict K V → K → V → Dict K V
  insert [] k v = (k, v) ∷ []
  insert ((j, w) ∷ d) k v = if e.beq j k then (j, v) ∷ d else (j, w) ∷ insert d k v

  -- map.remove(&k)
  unfoldable pub remove : Dict K V → K → Dict K V
  remove [] k = []
  remove ((j, w) ∷ d) k = let rest = remove d k in if e.beq j k then rest else (j, w) ∷ rest

  -- No key has two entries.
  abbrev pub IsDistinct : Dict K V → Type κ
  IsDistinct [] = Unit
  IsDistinct ((k, v) ∷ d) = (get d k ≡ none) × IsDistinct d

  pub get-insert :
      (d : Dict K V) (k j : K) (v : V)
      → get (insert d k v) j ≡ (if e.beq k j then some v else get d j)
  unfolding get insert
  get-insert [] k j v = refl
  get-insert ((i, w) ∷ d) k j v =
      ground (arith, e.beq_iff i k, e.beq_iff i j, e.beq_iff k j, get-insert d k j v)

  pub get-insert_self : (d : Dict K V) (k : K) (v : V) → get (insert d k v) k ≡ some v
  get-insert_self d k v = rw (get-insert d k k v, beq_refl k)

  pub get-remove :
      (d : Dict K V) (k j : K) → get (remove d k) j ≡ (if e.beq k j then none else get d j)
  unfolding get remove
  get-remove [] k j = ground arith
  get-remove ((i, w) ∷ d) k j =
      ground (arith, e.beq_iff i k, e.beq_iff i j, e.beq_iff k j, get-remove d k j)

  pub get-remove_self : (d : Dict K V) (k : K) → get (remove d k) k ≡ none
  get-remove_self d k = rw (get-remove d k k, beq_refl k)

  pub length-insert_present :
      (d : Dict K V) (k : K) (v w : V) → get d k ≡ some w → length (insert d k v) ≡ length d
  unfolding get insert
  length-insert_present [] k v w h = ground arith
  length-insert_present ((i, u) ∷ d) k v w h = ground (arith, length-insert_present d k v w)

  pub length-insert_absent :
      (d : Dict K V) (k : K) (v : V) → get d k ≡ none → length (insert d k v) ≡ suc (length d)
  unfolding get insert
  length-insert_absent [] k v h = refl
  length-insert_absent ((i, u) ∷ d) k v h = ground (arith, length-insert_absent d k v)

  pub length-remove-le : (d : Dict K V) (k : K) → length (remove d k) ≤ length d
  unfolding remove
  length-remove-le [] k = omega arith
  length-remove-le ((i, u) ∷ d) k = ground (arith, length-remove-le d k)

  pub Every-insert {μ} :
      (P : K → V → Type μ) (d : Dict K V) (k : K) (v : V)
      → Every P d
      → P k v
      → Every P (insert d k v)
  unfolding insert
  Every-insert P [] k v h p = (p, tt)
  Every-insert P ((i, u) ∷ d) k v h p = elim (Bool-cases (e.beq i k)) [
    | inl same ↦ rw same (rw ((e.beq_iff i k).0 same) p, h.1)
    | inr other ↦ rw other (h.0, Every-insert P d k v h.1 p)
  ]

  pub Every-remove {μ} :
      (P : K → V → Type μ) (d : Dict K V) (k : K) → Every P d → Every P (remove d k)
  unfolding remove
  Every-remove P [] k h = tt
  Every-remove P ((i, u) ∷ d) k h = elim (Bool-cases (e.beq i k)) [
    | inl same ↦ rw same (Every-remove P d k h.1)
    | inr other ↦ rw other (h.0, Every-remove P d k h.1)
  ]

  pub Every-get {μ} :
      (P : K → V → Type μ) (d : Dict K V) (k : K) (v : V) → Every P d → get d k ≡ some v → P k v
  unfolding get
  Every-get P [] k v h g = cc g
  Every-get P ((i, u) ∷ d) k v h g = elim (Bool-cases (e.beq i k)) [
    | inl same ↦
        subst (λ w. P k w) (some-injective u v (rw same at g))
          (subst (λ j. P j u) ((e.beq_iff i k).0 same) h.0)
    | inr other ↦ Every-get P d k v h.1 (rw other at g)
  ]

  pub IsDistinct-insert : (d : Dict K V) (k : K) (v : V) → IsDistinct d → IsDistinct (insert d k v)
  unfolding insert
  IsDistinct-insert [] k v h = (unfold get in refl, tt)
  IsDistinct-insert ((i, u) ∷ d) k v h = elim (Bool-cases (e.beq i k)) [
    | inl same ↦ rw same h
    | inr other ↦ rw other (
      ground (arith, get-insert d k i v, e.beq_iff i k, e.beq_iff k i),
      IsDistinct-insert d k v h.1,
    )
  ]

  pub IsDistinct-remove : (d : Dict K V) (k : K) → IsDistinct d → IsDistinct (remove d k)
  unfolding remove
  IsDistinct-remove [] k h = tt
  IsDistinct-remove ((i, u) ∷ d) k h = elim (Bool-cases (e.beq i k)) [
    | inl same ↦ rw same (IsDistinct-remove d k h.1)
    | inr other ↦ rw other (ground (arith, get-remove d k i), IsDistinct-remove d k h.1)
  ]

module _ {ℓ κ} {K : Type ℓ} {V : Type κ} ⦃e : Eq K⦄ where
  pub get-insert_ne : (d : Dict K V) (k j : K) (v : V) → k ≢ j → get (insert d k v) j ≡ get d j
  get-insert_ne d k j v ne = elim (Bool-cases (e.beq k j)) [
    | inl same ↦ absurd (ne ((e.beq_iff k j).0 same))
    | inr other ↦ rw (get-insert d k j v, other)
  ]

  pub get-remove_ne : (d : Dict K V) (k j : K) → k ≢ j → get (remove d k) j ≡ get d j
  get-remove_ne d k j ne = elim (Bool-cases (e.beq k j)) [
    | inl same ↦ absurd (ne ((e.beq_iff k j).0 same))
    | inr other ↦ rw (get-remove d k j, other)
  ]

  pub insert-insert_self :
      (d : Dict K V) (k : K) (v w : V) → insert (insert d k v) k w ≡ insert d k w
  unfolding insert
  insert-insert_self [] k v w = rw (beq_refl k)
  insert-insert_self ((i, u) ∷ d) k v w = elim (Bool-cases (e.beq i k)) [
    | inl same ↦ rw (same, same)
    | inr other ↦ rw (other, other, insert-insert_self d k v w)
  ]

  pub remove-insert_self : (d : Dict K V) (k : K) (v : V) → remove (insert d k v) k ≡ remove d k
  unfolding insert remove
  remove-insert_self [] k v = rw (beq_refl k)
  remove-insert_self ((i, u) ∷ d) k v = elim (Bool-cases (e.beq i k)) [
    | inl same ↦ rw (same, same)
    | inr other ↦ rw (other, other, remove-insert_self d k v)
  ]

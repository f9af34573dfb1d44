-- ===== src/Receiver/Sorting.antt =====
-- The sort of the candidates by what they miss.
use agent_transport.Base.{
  ℕ, zero, suc, ◌≤◌, ◌≡◌, refl, ap, ◌∙◌, List, [], ◌∷◌, length, take, drop, All, All-mono, All-drop,
  arith, leb, leb→le, leb→lt, Bool-cases, inl, inr,
}
use mathlib.Core.List.{Perm}
use mathlib.Core.List.Perm
use agent_transport.Config.{MsgKey, msg_key_eq}
use agent_transport.Receiver.Scheduler.{insert_by, sort_by_remaining}

-- A candidate: a message and how many bytes it misses.
abbrev pub Candidate : Type 0
Candidate = MsgKey × ℕ

abbrev pub IsSorted : List Candidate → Type 0
IsSorted [] = Unit
IsSorted (c ∷ cands) = All (λ d. c.1 ≤ d.1) cands × IsSorted cands

insert_by-Perm : (c : Candidate) (cands : List Candidate) → Perm (insert_by c cands) (c ∷ cands)
unfolding insert_by
insert_by-Perm c [] = Perm.refl (c ∷ [])
insert_by-Perm c (d ∷ cands) = elim (Bool-cases (leb c.1 d.1)) [
  | inl first ↦ rw first (Perm.refl (c ∷ d ∷ cands))
  | inr later ↦ rw later (Perm.trans (Perm.cons d (insert_by-Perm c cands)) (Perm.swap c d cands))
]

pub sort_by_remaining-Perm : (cands : List Candidate) → Perm (sort_by_remaining cands) cands
unfolding sort_by_remaining
sort_by_remaining-Perm [] = Perm.refl []
sort_by_remaining-Perm (c ∷ cands) =
    Perm.trans (insert_by-Perm c (sort_by_remaining cands))
      (Perm.cons c (sort_by_remaining-Perm cands))

length-insert_by :
    (c : Candidate) (cands : List Candidate) → length (insert_by c cands) ≡ suc (length cands)
unfolding insert_by
length-insert_by c [] = refl
length-insert_by c (d ∷ cands) = ground (arith, length-insert_by c cands)

pub length-sort_by_remaining :
    (cands : List Candidate) → length (sort_by_remaining cands) ≡ length cands
unfolding sort_by_remaining
length-sort_by_remaining [] = refl
length-sort_by_remaining (c ∷ cands) =
    length-insert_by c (sort_by_remaining cands) ∙ ap suc (length-sort_by_remaining cands)

All-insert_by {κ} :
    (P : Candidate → Type κ) (c : Candidate) (cands : List Candidate)
    → P c
    → All P cands
    → All P (insert_by c cands)
unfolding insert_by
All-insert_by P c [] p h = (p, tt)
All-insert_by P c (d ∷ cands) p h = elim (Bool-cases (leb c.1 d.1)) [
  | inl first ↦ rw first (p, h)
  | inr later ↦ rw later (h.0, All-insert_by P c cands p h.1)
]

insert_by-IsSorted :
    (c : Candidate) (cands : List Candidate) → IsSorted cands → IsSorted (insert_by c cands)
unfolding insert_by
insert_by-IsSorted c [] h = (tt, tt)
insert_by-IsSorted c (d ∷ cands) (low, h) = elim (Bool-cases (leb c.1 d.1)) [
  | inl first ↦ rw first (
    (
      leb→le _ _ first,
      All-mono (λ x. d.1 ≤ x.1) (λ x. c.1 ≤ x.1) cands (λ x le. omega (arith, leb→le _ _ first))
          low,
    ),
    (low, h),
  )
  | inr later ↦ rw later (
    All-insert_by (λ x. d.1 ≤ x.1) c cands (omega (arith, leb→lt _ _ later)) low,
    insert_by-IsSorted c cands h,
  )
]

pub sort_by_remaining-IsSorted : (cands : List Candidate) → IsSorted (sort_by_remaining cands)
unfolding sort_by_remaining
sort_by_remaining-IsSorted [] = tt
sort_by_remaining-IsSorted (c ∷ cands) =
    insert_by-IsSorted c (sort_by_remaining cands) (sort_by_remaining-IsSorted cands)

-- No candidate that is taken misses more bytes than one that is left.
abbrev pub Shorter : List Candidate → List Candidate → Type 0
Shorter chosen left = All (λ c. All (λ d. c.1 ≤ d.1) left) chosen

pub Shorter-take :
    (k : ℕ) (cands : List Candidate) → IsSorted cands → Shorter (take k cands) (drop k cands)
Shorter-take zero cands h = tt
Shorter-take (suc k) [] h = tt
Shorter-take (suc k) (c ∷ cands) (low, h) =
    (All-drop (λ (d : Candidate). c.1 ≤ d.1) k cands low, Shorter-take k cands h)

-- ===== src/TxQueue/Filed.antt =====
-- Every packet stands in the queue of its level, so that the queues are in order of priority.
use agent_transport.Base.{
  Bool, ℕ, zero, suc, ◌-◌, ◌+◌, ◌≤◌, ◌<◌, All-take, All-drop, All-mono, ◌≡◌, refl, ap, ◌∙◌, true,
  false, Option, none, some, List, [], ◌∷◌, ◌++◌, length, take-nil, take-append_more,
  drop-append_more, take, drop, All, All-append, arith, drop_all, leb, leb→le, leb→lt, append_assoc,
  Bool-cases, inl, inr, ◌==◌,
}
use agent_transport.Priority.{num_priorities}
use agent_transport.Config.{SocketAddr}
use agent_transport.TxQueue.{
  Outgoing, TxQueues, new, push_back, is_data_packet, level, classify, pop_queue, pop_queues,
  pop_batch,
}
use agent_transport.TxQueue.Order.{concat, contents, pop_batch_lem, pop_queue_lem}

-- Queue i holds packets of level i only.
abbrev pub Filed : ℕ → List (List Outgoing) → Type 0
Filed i [] = Unit
Filed i (q ∷ qs) = All (λ item. level item.1 ≡ i) q × Filed (suc i) qs

-- The eight queues, each with the packets of its level.
pub record IsFiled (tx : TxQueues) : Type 0 where
  pub eight : length tx.queues ≡ num_priorities
  pub filed : Filed 0 tx.queues

pub IsFiled-new : IsFiled new
unfolding new
IsFiled-new = record { eight = refl; filed = omega arith }

push_back-Filed :
    (prio i : ℕ) (item : Outgoing) (qs : List (List Outgoing))
    → level item.1 ≡ i + prio
    → Filed i qs
    → Filed i (push_back prio item qs)
unfolding push_back
push_back-Filed prio i item [] e h = tt
push_back-Filed zero i item (q ∷ qs) e h =
    (All-append (λ o. level o.1 ≡ i) q (item ∷ []) h.0 (omega arith, tt), h.1)
push_back-Filed (suc prio) i item (q ∷ qs) e h =
    (h.0, push_back-Filed prio (suc i) item qs (omega arith) h.1)

length-push_back :
    (prio : ℕ) (item : Outgoing) (qs : List (List Outgoing))
    → length (push_back prio item qs) ≡ length qs
unfolding push_back
length-push_back prio item [] = refl
length-push_back zero item (q ∷ qs) = refl
length-push_back (suc prio) item (q ∷ qs) = ap suc (length-push_back prio item qs)

-- `classify` files a packet under its level.
pub classify-IsFiled :
    (tx : TxQueues) (dest : SocketAddr) (bytes : List ℕ)
    → IsFiled tx
    → IsFiled (classify tx dest bytes).0
unfolding classify
classify-IsFiled tx dest bytes h = elim (Bool-cases (is_data_packet bytes)) [
  | inl queued ↦ rw queued (record {
    eight = length-push_back (level bytes) (dest, bytes) tx.queues ∙ h.eight;
    filed = push_back-Filed (level bytes) 0 (dest, bytes) tx.queues (omega arith) h.filed;
  })
  | inr direct ↦ rw direct h
]

pop_queues-Filed :
    (room i : ℕ) (qs : List (List Outgoing))
    → Filed i qs
    → Filed i (pop_queues room qs).1 × (length (pop_queues room qs).1 ≡ length qs)
unfolding pop_queues
pop_queues-Filed room i [] h = (tt, refl)
pop_queues-Filed room i (q ∷ qs) (hq, hqs) =
    let (filed, same) = pop_queues-Filed (room - length (pop_queue room q).0) (suc i) qs hqs in
    let kept : All (λ item. level item.1 ≡ i) (pop_queue room q).1 =
      rw (pop_queue_lem room q) (All-drop (λ (o : Outgoing). level o.1 ≡ i) room q hq) in
    elim (Bool-cases (room - length (pop_queue room q).0 == 0)) [
      | inl full ↦ rw full ((kept, hqs), refl)
      | inr more ↦ rw more ((kept, filed), ap suc same)
    ]

-- `pop_batch` keeps every packet in the queue of its level.
pub pop_batch-IsFiled : (tx : TxQueues) (budget : ℕ) → IsFiled tx → IsFiled (pop_batch tx budget).1
unfolding pop_batch
pop_batch-IsFiled tx budget h =
    let (filed, same) = pop_queues-Filed budget 0 tx.queues h.filed in
    record { eight = same ∙ h.eight; filed = filed }

concat-above :
    (i : ℕ) (qs : List (List Outgoing)) → Filed i qs → All (λ item. i ≤ level item.1) (concat qs)
unfolding concat
concat-above i [] h = tt
concat-above i (q ∷ qs) h =
    All-append (λ o. i ≤ level o.1) q (concat qs)
      (All-mono (λ o. level o.1 ≡ i) (λ o. i ≤ level o.1) q (λ o e. omega arith) h.0)
      (All-mono (λ o. suc i ≤ level o.1) (λ o. i ≤ level o.1) (concat qs) (λ o e. omega arith)
        (concat-above (suc i) qs h.1))

-- What the first n packets are to the others.
abbrev pub Outranks : List Outgoing → List Outgoing → Type 0
Outranks ahead behind = All (λ first. All (λ later. level first.1 ≤ level later.1) behind) ahead

take-Outranks-drop :
    (n i : ℕ) (qs : List (List Outgoing))
    → Filed i qs
    → Outranks (take n (concat qs)) (drop n (concat qs))
unfolding concat
take-Outranks-drop n i [] h = rw take-nil tt
take-Outranks-drop n i (q ∷ qs) h = rw (take-append_more n q (concat qs)) (
    All-append _ (take n q) _
      (All-mono (λ o. level o.1 ≡ i) _ (take n q) (λ o e. rw e left_above)
        (All-take (λ o. level o.1 ≡ i) n q h.0))
      (elim (Bool-cases (leb (length q) n)) [
        | inl past ↦
            rw (drop-append_more n q (concat qs), drop_all n q (leb→le _ _ past))
              (take-Outranks-drop (n - length q) (suc i) qs h.1)
        | inr within ↦ rw (none_over (leb→lt _ _ within)) tt
      ]))
  where
    left_above : All (λ later. i ≤ level later.1) (drop n (q ++ concat qs))
    left_above = All-drop (λ o. i ≤ level o.1) n (q ++ concat qs) (concat-above i (q ∷ qs) h)

    none_over : n < length q → n - length q ≡ 0
    none_over short = omega arith

-- Highest priority first: no packet that `pop_batch` takes has a lower priority (a larger level)
-- than one that it leaves.
pub pop_batch-Outranks :
    (tx : TxQueues) (budget : ℕ)
    → IsFiled tx
    → Outranks (pop_batch tx budget).0 (contents (pop_batch tx budget).1)
pop_batch-Outranks tx budget h =
    let (out, rest) = pop_batch_lem tx budget in
    rw (out, rest) (take-Outranks-drop budget 0 tx.queues h.filed)

-- A packet of this level goes behind all of its own or a higher priority, and before the others.
abbrev pub Enters : ℕ → Outgoing → List Outgoing → List Outgoing → Type 0
Enters lvl item before after =
    (ahead : List Outgoing) × (behind : List Outgoing) × (before ≡ ahead ++ behind)
    × (after ≡ ahead ++ (item ∷ behind))
    × All (λ o. level o.1 ≤ lvl) ahead
    × All (λ o. lvl < level o.1) behind

push_back-Enters :
    (prio i lvl : ℕ) (item : Outgoing) (qs : List (List Outgoing))
    → lvl ≡ i + prio
    → prio < length qs
    → Filed i qs
    → Enters lvl item (concat qs) (concat (push_back prio item qs))
unfolding push_back concat
push_back-Enters prio i lvl item [] e short h = absurd (omega arith)
push_back-Enters zero i lvl item (q ∷ qs) e short h = (
  q,
  concat qs,
  refl,
  append_assoc q (item ∷ []) (concat qs),
  All-mono (λ o. level o.1 ≡ i) (λ o. level o.1 ≤ lvl) q (λ o p. omega arith) h.0,
  All-mono (λ o. suc i ≤ level o.1) (λ o. lvl < level o.1) (concat qs) (λ o p. omega arith)
      (concat-above (suc i) qs h.1),
)
push_back-Enters (suc prio) i lvl item (q ∷ qs) e short h =
    let (ahead, behind, before, after, low, high) =
      push_back-Enters prio (suc i) lvl item qs (omega arith) (omega arith) h.1 in
    (
      q ++ ahead,
      behind,
      rw (append_assoc q ahead behind) (ap (◌++◌ q) before),
      rw (append_assoc q ahead (item ∷ behind)) (ap (◌++◌ q) after),
      All-append (λ o. level o.1 ≤ lvl) q ahead
          (All-mono (λ o. level o.1 ≡ i) (λ o. level o.1 ≤ lvl) q (λ o p. omega arith) h.0) low,
      high,
    )

-- What `classify` does with a datagram that is a DATA packet, or is not.
abbrev pub Classified : Bool → TxQueues → SocketAddr → List ℕ → TxQueues × Option Outgoing → Type 0
Classified true tx dest bytes r =
    (r.1 ≡ none) × Enters (level bytes) (dest, bytes) (contents tx) (contents r.0)
Classified false tx dest bytes r = r ≡ (tx, some (dest, bytes))

-- A DATA packet is queued: it goes behind every packet of its level or a higher priority, before
-- every packet of a lower one, and the others keep their order. Any other datagram is handed back
-- to be sent at once, and the queues stay as they were.
pub classify-Classified :
    (tx : TxQueues) (dest : SocketAddr) (bytes : List ℕ)
    → IsFiled tx
    → Classified (is_data_packet bytes) tx dest bytes (classify tx dest bytes)
unfolding classify
classify-Classified tx dest bytes h = elim (Bool-cases (is_data_packet bytes)) [
  | inl queued ↦ rw queued (
    refl,
    push_back-Enters (level bytes) 0 (level bytes) (dest, bytes) tx.queues (omega arith)
        (unfold level in omega (arith, h.eight)) h.filed,
  )
  | inr direct ↦ rw direct refl
]

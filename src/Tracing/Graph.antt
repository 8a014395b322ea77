-- ===== src/Tracing/Graph.antt =====
-- What a tracing collection computes, without headers, blocks or lines: the nodes of a graph that can be
-- reached from the roots. A node is black when it was visited.
use libimmixcons.Base.{
  ℕ, zero, suc, ◌+◌, ◌≤◌, ◌<◌, ◌≡◌, refl, ◌↔◌, ◌⊎◌, inl, inr, Bool, true, false, Option, none, some,
  List, [], ◌∷◌, ◌==◌, if◌then◌else◌, push, count, count-append, length, arith, Bool-cases, ==_iff,
}

abbrev pub blacken : (ℕ → Bool) → ℕ → ℕ → Bool
blacken black o a = if a == o then true else black a

-- The queue with the nodes of a list that are not black at its end.
abbrev pub enqueue : (ℕ → Bool) → List ℕ → List ℕ → List ℕ
enqueue black queue [] = queue
enqueue black queue (o ∷ os) = enqueue black (if black o then queue else push queue o) os

module _ (children : ℕ → List ℕ) where
  -- The nodes that are reached from the roots by following children.
  pub data Reach (roots : List ℕ) : ℕ → Type 0 where
    root : (o : ℕ) → 0 < count o roots → Reach roots o
    child : (o c : ℕ) → Reach roots o → 0 < count c (children o) → Reach roots c

  -- The worklist algorithm, on fuel.
  abbrev pub mark_from : ℕ → (ℕ → Bool) → List ℕ → Option (ℕ → Bool)
  mark_from zero black queue = none
  mark_from (suc fuel) black [] = some black
  mark_from (suc fuel) black (o ∷ queue) =
      if black o
      then mark_from fuel black queue
      else mark_from fuel (blacken black o) (enqueue (blacken black o) queue (children o))

  -- The edges that leave the nodes of a list that are not black.
  abbrev pub white_edges : (ℕ → Bool) → List ℕ → ℕ
  white_edges black [] = 0
  white_edges black (o ∷ os) = (if black o then 0 else length (children o)) + white_edges black os

  length-enqueue :
      (black : ℕ → Bool) (queue os : List ℕ)
      → length (enqueue black queue os) ≤ length queue + length os
  length-enqueue black queue [] = omega arith
  length-enqueue black queue (o ∷ os) = elim (Bool-cases (black o)) [
    | inl e ↦ rw e (omega (arith, length-enqueue black queue os))
    | inr e ↦ rw e (omega (arith, length-enqueue black (push queue o) os, length-push queue o))
  ]
    where
      length-push : (q : List ℕ) (o : ℕ) → length (push q o) ≡ length q + 1
      length-push [] o = refl
      length-push (x ∷ q) o = omega (arith, length-push q o)

  white_edges-blacken-le :
      (black : ℕ → Bool) (o : ℕ) (os : List ℕ)
      → white_edges (blacken black o) os ≤ white_edges black os
  white_edges-blacken-le black o [] = omega arith
  white_edges-blacken-le black o (x ∷ os) = ground (arith, white_edges-blacken-le black o os)

  -- A node that turns black takes its edges away.
  white_edges-blacken :
      (black : ℕ → Bool) (o : ℕ) (os : List ℕ)
      → black o ≡ false
      → 0 < count o os
      → white_edges (blacken black o) os + length (children o) ≤ white_edges black os
  white_edges-blacken black o [] e h = absurd (omega arith)
  white_edges-blacken black o (x ∷ os) e h =
      ground (arith, white_edges-blacken black o os e, white_edges-blacken-le black o os)

  -- Nothing in the queue is lost, and all nodes of the list are black or queued; nothing else is queued.
  enqueue-keeps :
      (black : ℕ → Bool) (queue os : List ℕ) (c : ℕ)
      → 0 < count c queue
      → 0 < count c (enqueue black queue os)
  enqueue-keeps black queue [] c h = h
  enqueue-keeps black queue (o ∷ os) c h = elim (Bool-cases (black o)) [
    | inl e ↦ rw e (enqueue-keeps black queue os c h)
    | inr e ↦
        rw e
          (enqueue-keeps black (push queue o) os c (omega (arith, count-append c queue (o ∷ []))))
  ]

  enqueue-has :
      (black : ℕ → Bool) (queue os : List ℕ) (c : ℕ)
      → 0 < count c os
      → (black c ≡ true) ⊎ (0 < count c (enqueue black queue os))
  enqueue-has black queue [] c h = absurd (omega arith)
  enqueue-has black queue (o ∷ os) c h = elim (Bool-cases (o == c)) [
    | inl e ↦ elim (Bool-cases (black c)) [
      | inl b ↦ inl b
      | inr b ↦
          let white : black o ≡ false = rw ((==_iff o c).0 e) b in
          inr (
            rw white (
              enqueue-keeps black (push queue o) os c
                (ground (arith, count-append c queue (o ∷ [])))))
    ]
    | inr e ↦ enqueue-has black (if black o then queue else push queue o) os c (ground arith)
  ]

  pub enqueue-only :
      (black : ℕ → Bool) (queue os : List ℕ) (c : ℕ)
      → 0 < count c (enqueue black queue os)
      → (0 < count c queue) ⊎ (0 < count c os)
  enqueue-only black queue [] c h = inl h
  enqueue-only black queue (o ∷ os) c h = elim (Bool-cases (black o)) [
    | inl e ↦ elim (enqueue-only black queue os c (rw e at h)) [
      | inl q ↦ inl q
      | inr r ↦ inr (omega arith)
    ]
    | inr e ↦ elim (enqueue-only black (push queue o) os c (rw e at h)) [
      | inl q ↦ pushed q
      | inr r ↦ inr (omega arith)
    ]
  ]
    where
      pushed : 0 < count c (push queue o) → (0 < count c queue) ⊎ (0 < count c (o ∷ os))
      pushed q = ground (arith, count-append c queue (o ∷ []))

  -- The invariant of the worklist: the black and the queued nodes are reachable, each child of a black
  -- node is black or queued, and so is each root.
  pub record Inv (roots : List ℕ) (black : ℕ → Bool) (queue : List ℕ) : Type 0 where
    pub black_reached : (o : ℕ) → black o ≡ true → Reach roots o
    pub queue_reached : (o : ℕ) → 0 < count o queue → Reach roots o
    pub children_known :
        (o c : ℕ)
        → black o ≡ true
        → 0 < count c (children o)
        → (black c ≡ true) ⊎ (0 < count c queue)
    pub roots_known : (o : ℕ) → 0 < count o roots → (black o ≡ true) ⊎ (0 < count o queue)

  -- A black node at the head is dropped.
  Inv-drop :
      {roots : List ℕ} {black : ℕ → Bool} {o : ℕ} {queue : List ℕ}
      → Inv roots black (o ∷ queue)
      → black o ≡ true
      → Inv roots black queue
  Inv-drop {roots} {black} {o} {queue} v e = record {
    black_reached = v.black_reached;
    queue_reached = λ a h. v.queue_reached a (omega arith);
    children_known = λ a c b h. known c (v.children_known a c b h);
    roots_known = λ a h. known a (v.roots_known a h);
  }
    where
      known :
          (a : ℕ)
          → (black a ≡ true) ⊎ (0 < count a (o ∷ queue))
          → (black a ≡ true) ⊎ (0 < count a queue)
      known a (inl b) = inl b
      known a (inr h) = elim (Bool-cases (o == a)) [
        | inl s ↦ inl (rw (← (==_iff o a).0 s) e)
        | inr d ↦ inr (ground arith)
      ]

  -- A white node at the head turns black, and its children that are not black are queued.
  Inv-blacken :
      {roots : List ℕ} {black : ℕ → Bool} {o : ℕ} {queue : List ℕ}
      → Inv roots black (o ∷ queue)
      → Inv roots (blacken black o) (enqueue (blacken black o) queue (children o))
  Inv-blacken {roots} {black} {o} {queue} v =
      let reached : Reach roots o = v.queue_reached o (ground arith) in
      record {
        black_reached = λ a b. elim (Bool-cases (a == o)) [
          | inl s ↦ rw ((==_iff a o).0 s) reached
          | inr d ↦ v.black_reached a (ground arith)
        ];
        queue_reached = λ a h. elim (enqueue-only (blacken black o) queue (children o) a h) [
          | inl q ↦ v.queue_reached a (omega arith)
          | inr c ↦ child o a reached c
        ];
        children_known = λ a c b h. elim (Bool-cases (a == o)) [
          | inl s ↦ enqueue-has (blacken black o) queue (children o) c (rw ((==_iff a o).0 s) at h)
          | inr d ↦ known c (v.children_known a c (ground arith) h)
        ];
        roots_known = λ a h. known a (v.roots_known a h);
      }
    where
      known :
          (a : ℕ)
          → (black a ≡ true) ⊎ (0 < count a (o ∷ queue))
          → (blacken black o a ≡ true)
            ⊎ (0 < count a (enqueue (blacken black o) queue (children o)))
      known a k = elim (Bool-cases (a == o)) [
        | inl s ↦ inl (ground arith)
        | inr d ↦ elim k [
          | inl b ↦ inl (ground arith)
          | inr q ↦
              inr
                (enqueue-keeps (blacken black o) queue (children o) a (ground (arith, ==_iff a o)))
        ]
      ]

  -- With no more work, the black nodes are the reachable ones.
  Reach-black :
      {roots : List ℕ} {black : ℕ → Bool} {o : ℕ}
      → Inv roots black []
      → Reach roots o
      → black o ≡ true
  Reach-black v (root o h) = elim (v.roots_known o h) [ inl b ↦ b | inr q ↦ absurd (omega arith) ]
  Reach-black v (child p o r h) = elim (v.children_known p o (Reach-black v r) h) [
    | inl b ↦ b
    | inr q ↦ absurd (omega arith)
  ]

  -- A finite set of nodes that no edge leaves.
  pub record IsClosed (roots nodes : List ℕ) : Type 0 where
    pub has_roots : (o : ℕ) → 0 < count o roots → 0 < count o nodes
    pub has_children : (o c : ℕ) → 0 < count o nodes → 0 < count c (children o) → 0 < count c nodes

  pub Reach-IsClosed :
      {roots nodes : List ℕ} {o : ℕ} → IsClosed roots nodes → Reach roots o → 0 < count o nodes
  Reach-IsClosed v (root o h) = v.has_roots o h
  Reach-IsClosed v (child p o r h) = v.has_children p o (Reach-IsClosed v r) h

  -- The worklist runs dry.
  pub mark_from-Reach :
      {roots nodes : List ℕ}
      → IsClosed roots nodes
      → (fuel : ℕ) (black : ℕ → Bool) (queue : List ℕ) → Inv roots black queue
      → length queue + white_edges black nodes < fuel
      → (black' : ℕ → Bool) × (mark_from fuel black queue ≡ some black')
        × ((o : ℕ) → (black' o ≡ true) ↔ Reach roots o)
  mark_from-Reach closed zero black queue v h = absurd (omega arith)
  mark_from-Reach closed (suc fuel) black [] v h =
      (black, refl, λ o. (v.black_reached o, Reach-black v))
  mark_from-Reach {roots} {nodes} closed (suc fuel) black (o ∷ queue) v h =
      elim (Bool-cases (black o)) [
        | inl e ↦
            let ih = mark_from-Reach closed fuel black queue (Inv-drop v e) (omega arith) in
            (ih.0, rw e ih.1, ih.2)
        | inr e ↦
            let ih =
              mark_from-Reach closed fuel (blacken black o)
                (enqueue (blacken black o) queue (children o)) (Inv-blacken v)
                (omega (
                  arith,
                  length-enqueue (blacken black o) queue (children o),
                  white_edges-blacken black o nodes e
                      (Reach-IsClosed closed (v.queue_reached o (ground arith))),
                )) in
            (ih.0, rw e ih.1, ih.2)
      ]

  pub Inv-roots : (roots : List ℕ) → Inv roots (λ o. false) roots
  Inv-roots roots = record {
    black_reached = λ o h. cc;
    queue_reached = λ o h. root o h;
    children_known = λ o c h. cc;
    roots_known = λ o h. inr h;
  }

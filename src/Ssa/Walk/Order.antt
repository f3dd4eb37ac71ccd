-- ===== src/Ssa/Walk/Order.antt =====
-- In a graph without cycles a traversal comes to a block for the second time when all successors of
-- the block are done.
use mathlib.Core.Path.{subst}
use qbt.Prelude.{
  true_or_false, ℕ, ◌<◌, ◌≡◌, ◌≢◌, ap, sym, ◌∙◌, ◌⊎◌, inl, inr, List, [], ◌∷◌, true, false,
  Bool-cases, Result, ok, ok-injective, arith, ◌==◌, Has,
}
use qbt.Nodes.{Blk}
use qbt.Nodes.Blocks.{blk_of, put_blk}
use qbt.Ssa.Walk.{entered, done}
use qbt.Ssa.Walk.Steps.{Edge, SameShape, lookup_self, lookup-ne}
use qbt.Ssa.Walk.Visits.{Traversal, written}

-- The blocks above one of the stack, as a predicate.
abbrev pub Nothing : ℕ → Type 0
Nothing y = ⊥

abbrev pub Also : ℕ → (ℕ → Type 0) → ℕ → Type 0
Also x above y = (y ≡ x) ⊎ above y

module _ (prepare : Blk → Blk) (work : List Blk → Blk → Result Blk) (base : ℕ)
    (t : Traversal prepare work) (rank : ℕ → ℕ) where
  abbrev pub Busy : List Blk → ℕ → Type 0
  Busy s z = (b : Blk) × (blk_of s z ≡ ok b) × (entered b base ≡ true) × (done b base ≡ false)

  abbrev pub Over : List Blk → ℕ → Type 0
  Over s q = (c : Blk) × (blk_of s q ≡ ok c) × (done c base ≡ true)

  abbrev pub Next : List Blk → ℕ → ℕ → Type 0
  Next s z q = (b : Blk) × (blk_of s z ≡ ok b) × Edge (prepare b) q

  -- Jumps go down in rank.
  abbrev pub Ranked : List Blk → Type 0
  Ranked s = (z q : ℕ) → Next s z q → rank q < rank z

  -- What lies above the topmost entry of a block that was met is lower in rank, and every successor
  -- of the block is done or above.
  abbrev pub Settled : List Blk → (ℕ → Type 0) → ℕ → Type 0
  Settled s above z =
      ((y : ℕ) → above y → rank y < rank z) × ((q : ℕ) → Next s z q → Over s q ⊎ above q)

  abbrev pub Ordered : List Blk → (ℕ → Type 0) → List ℕ → Type 0
  Ordered s above [] = Unit
  Ordered s above (x ∷ stack) =
      (Busy s x → (above x → ⊥) → Settled s above x) × Ordered s (Also x above) stack

  module _ (s r : List Blk) where
    -- The blocks in question and what is above them change.
    abbrev pub Lower : (ℕ → Type 0) → (ℕ → Type 0) → Type 0
    Lower u v =
        (z : ℕ)
        → Busy r z
        → (v z → ⊥)
        → Busy s z
          × (u z → ⊥)
          × (((y : ℕ) → u y → rank y < rank z) → (y : ℕ) → v y → rank y < rank z)

    abbrev pub Nearer : (ℕ → Type 0) → (ℕ → Type 0) → Type 0
    Nearer u v = (q : ℕ) → Over s q ⊎ u q → Over r q ⊎ v q

    Lower-Also : (x : ℕ) (u v : ℕ → Type 0) → Lower u v → Lower (Also x u) (Also x v)
    Lower-Also x u v h z busy off =
        let (was, not_u, lower) = h z busy (λ hv. off (inr hv)) in
        (
          was,
          λ hu. elim hu [ inl e ↦ off (inl e) | inr k ↦ not_u k ],
          λ all y hv. elim hv [
            | inl e ↦ all y (inl e)
            | inr k ↦ lower (λ w hw. all w (inr hw)) y k
          ],
        )

    Nearer-Also : (x : ℕ) (u v : ℕ → Type 0) → Nearer u v → Nearer (Also x u) (Also x v)
    Nearer-Also x u v h q (inl over) = elim (h q (inl over)) [ inl o ↦ inl o | inr k ↦ inr (inr k) ]
    Nearer-Also x u v h q (inr (inl e)) = inr (inl e)
    Nearer-Also x u v h q (inr (inr k)) = elim (h q (inr k)) [ inl o ↦ inl o | inr l ↦ inr (inr l) ]

    pub Ordered-change :
        ((z q : ℕ) → Busy r z → Next r z q → Next s z q)
        → (stack : List ℕ) (u v : ℕ → Type 0) → Lower u v
        → Nearer u v
        → Ordered s u stack
        → Ordered r v stack
    Ordered-change next [] u v low near h = tt
    Ordered-change next (x ∷ stack) u v low near (settled, h) = (
      λ busy off.
          let (was, not_u, lower) = low x busy off in
          let (below, succs) = settled was not_u in
          (lower below, λ q n. near q (succs q (next x q busy n))),
      Ordered-change next stack (Also x u) (Also x v) (Lower-Also x u v low)
          (Nearer-Also x u v near) h,
    )

  -- What is above a block of the stack that was met is lower in rank.
  pub above-lower :
      (s : List Blk) (stack : List ℕ) (u : ℕ → Type 0) (z : ℕ)
      → Ordered s u stack
      → Has z stack
      → Busy s z
      → (u z → ⊥)
      → (y : ℕ) → u y
      → rank y < rank z
  above-lower s (x ∷ stack) u z (settled, h) has busy off y hy = elim (Bool-cases (z == x)) [
    | inl e ↦
        let same : x ≡ z = ground arith in
        subst (λ i. rank y < rank i) same
          ((settled (subst (Busy s) (sym same) busy) (λ k. off (subst u same k))).0 y hy)
    | inr e ↦ elim has [
      | inl zx ↦ absurd (ground arith)
      | inr deep ↦
          above-lower s stack (Also x u) z h deep busy
            (λ k. elim k [ inl zx ↦ ground arith | inr l ↦ off l ]) y (inr hy)
    ]
  ]
  above-lower s [] u z h has busy off y hy = absurd has

  -- With a block on top that was met, its successors are done.
  pub top_settled :
      (s : List Blk) (p : ℕ) (rest : List ℕ)
      → Ordered s Nothing (p ∷ rest)
      → Busy s p
      → (q : ℕ) → Next s p q
      → Over s q
  top_settled s p rest (settled, h) busy q n = elim ((settled busy (λ k. k)).1 q n) [
    | inl o ↦ o
    | inr k ↦ absurd k
  ]

  module _ (s : List Blk) (p : ℕ) (b c : Blk) (at : blk_of s p ≡ ok b)
      (shape : SameShape c (prepare b)) where
    abbrev pub after : List Blk
    after = put_blk (put_blk s (prepare b)) c

    same_id : c.id ≡ b.id
    same_id = shape.id ∙ t.prepare_id b

    pub Next-back : (z q : ℕ) → Next after z q → Next s z q
    Next-back z q (d, e, edge) = elim (written prepare work base t s p z b c d at same_id e) [
      | inl (pz, dc) ↦ (
        b,
        ap (blk_of s) (sym pz) ∙ at,
        t.stable b c shape q (subst (λ x. Edge (prepare x) q) dc edge),
      )
      | inr (ne, old) ↦ (d, old, edge)
    ]

    pub Ranked-written : Ranked s → Ranked after
    Ranked-written h z q n = h z q (Next-back z q n)

    pub Busy-back : (z : ℕ) → p ≢ z → Busy after z → Busy s z
    Busy-back z ne (d, e, met, busy) = elim (written prepare work base t s p z b c d at same_id e) [
      | inl (pz, dc) ↦ absurd (ne pz)
      | inr (other, old) ↦ (d, old, met, busy)
    ]

    pub Over-forth : done b base ≡ false → (q : ℕ) → Over s q → Over after q
    Over-forth busy q (d, e, over) =
        let ne : p ≢ q = λ pq.
          let same : b ≡ d = ok-injective (sym at ∙ ap (blk_of s) pq ∙ e) in
          true_or_false (ap (λ x. done x base) same ∙ over) busy in
        (
          d,
          lookup-ne prepare work base t.prepare_id t.prepare_visited s p q b c at same_id ne ∙ e,
          over,
        )

    pub stored_here : blk_of after p ≡ ok c
    stored_here = lookup_self prepare work base t.prepare_id t.prepare_visited s p b c at same_id

    -- The block on top is done with.
    pub Ordered-second :
        done b base ≡ false
        → done c base ≡ true
        → (rest : List ℕ) → Ordered s (Also p Nothing) rest
        → Ordered after Nothing rest
    Ordered-second busy over rest h =
        Ordered-change s after (λ z q bz n. Next-back z q n) rest (Also p Nothing) Nothing
          (λ z bz off.
            let ne : p ≢ z = λ pz. finished (subst (Busy after) (sym pz) bz) in
            (
              Busy-back z ne bz,
              λ k. elim k [ inl zp ↦ ne (sym zp) | inr l ↦ l ],
              λ all y hy. absurd hy,
            ))
          (λ q k. elim k [
            | inl o ↦ inl (Over-forth busy q o)
            | inr (inl qp) ↦ inl (c, ap (blk_of after) qp ∙ stored_here, over)
            | inr (inr l) ↦ absurd l
          ])
          h
      where
        finished : Busy after p → ⊥
        finished (d, e, met, not_over) =
            let same : d ≡ c = ok-injective (sym e ∙ stored_here) in
            true_or_false (ap (λ x. done x base) same ∙ over) not_over

-- ===== src/Ssa/Walk/Acyclic.antt =====
-- A round keeps the order of the stack in a graph without cycles.
use mathlib.Core.Path.{subst}
use qbt.Prelude.{
  true_or_false, ℕ, ◌<◌, ◌≡◌, ◌≢◌, refl, ap, sym, ◌∙◌, ◌⊎◌, inl, inr, List, ◌∷◌, true, false,
  Option, none, some, Result, ok, ok-injective, arith,
}
use qbt.Nodes.{Blk}
use qbt.Nodes.Blocks.{blk_of, put_blk}
use qbt.Ssa.Params.{other_target}
use qbt.Ssa.Walk.{done, mark, push}
use qbt.Ssa.Walk.Steps.{Edge, SameShape}
use qbt.Ssa.Walk.Visits.{Traversal, Visits, other_target-s2, Edge-targets}
use qbt.Ssa.Walk.Order.{
  Busy, Over, Next, Ranked, Ordered, Also, Nothing, Ordered-change, above-lower, Next-back,
  Busy-back, Over-forth,
}

module _ (prepare : Blk → Blk) (work : List Blk → Blk → Result Blk) (base : ℕ)
    (t : Traversal prepare work) (rank : ℕ → ℕ) where
  abbrev pub Ord : List Blk → (ℕ → Type 0) → List ℕ → Type 0
  Ord = Ordered prepare work base t rank

  -- Only which blocks are above matters.
  Ordered-ext :
      (s : List Blk) (stack : List ℕ) (u v : ℕ → Type 0)
      → ((y : ℕ) → u y → v y)
      → ((y : ℕ) → v y → u y)
      → Ord s u stack
      → Ord s v stack
  Ordered-ext s stack u v to from h =
      Ordered-change prepare work base t rank s s (λ z q busy n. n) stack u v
        (λ z busy off. (busy, λ hu. off (to z hu), λ all y hv. all y (from y hv)))
        (λ q k. elim k [ inl o ↦ inl o | inr hu ↦ inr (to q hu) ]) h

  abbrev WithTarget : Option ℕ → (ℕ → Type 0) → ℕ → Type 0
  WithTarget o u y = (o ≡ some y) ⊎ u y

  Ordered-push :
      (s : List Blk) (stack : List ℕ) (u : ℕ → Type 0) (o : Option ℕ)
      → ((q : ℕ) → o ≡ some q → Busy prepare work base t rank s q → ⊥)
      → Ord s (WithTarget o u) stack
      → Ord s u (push o stack)
  Ordered-push s stack u none idle h =
      Ordered-ext s stack (WithTarget none u) u
        (λ y k. elim k [ inl e ↦ absurd (no_some y e) | inr l ↦ l ]) (λ y l. inr l) h
    where
      no_some : (y : ℕ) → none ≡ some y → ⊥
      no_some y e = cc
  Ordered-push s stack u (some q) idle h = (
    λ busy off. absurd (idle q refl busy),
    Ordered-ext s stack (WithTarget (some q) u) (Also q u)
        (λ y k. elim k [ inl e ↦ inl (the_same y e) | inr l ↦ inr l ])
        (λ y k. elim k [ inl e ↦ inl (ap some (sym e)) | inr l ↦ inr l ]) h,
  )
    where
      the_same : (y : ℕ) → some q ≡ some y → y ≡ q
      the_same y e = cc

  module _ (all : List ℕ) (s : List Blk) (p : ℕ) (rest : List ℕ) (b : Blk)
      (at : blk_of s p ≡ ok b) where
    same_shape : SameShape (mark (prepare b)) (prepare b)
    same_shape = record { id = refl; btype = refl; s1 = refl; s2 = refl }

    abbrev entered_blks : List Blk
    entered_blks = put_blk (put_blk s (prepare b)) (mark (prepare b))

    -- No successor of the block is met and not done.
    idle :
        Visits prepare work base t all (p ∷ rest) s
        → Ranked prepare work base t rank s
        → Ord s Nothing (p ∷ rest)
        → (q : ℕ) → Edge (prepare b) q
        → Busy prepare work base t rank entered_blks q
        → ⊥
    idle v ranked (settled, h) q edge busy =
        let low = ranked p q (b, at, edge) in
        let ne : p ≢ q = λ pq. absurd (omega (arith, ap rank pq)) in
        let was =
          Busy-back prepare work base t rank s p b (mark (prepare b)) at same_shape q ne busy in
        let (d, e, met, not_over) = was in
        elim (v.waiting q d e met not_over) [
          | inl qp ↦ ne (sym qp)
          | inr deep ↦
              let high =
                above-lower prepare work base t rank s rest (Also p Nothing) q h deep was
                  (λ k. elim k [ inl qp ↦ ne (sym qp) | inr l ↦ l ]) p (inl refl) in
              omega arith
        ]

    -- A block that is met for the first time.
    pub Ordered-first :
        done b base ≡ false
        → Visits prepare work base t all (p ∷ rest) s
        → Ranked prepare work base t rank s
        → Ord s Nothing (p ∷ rest)
        → Ord entered_blks Nothing
            (push (other_target (prepare b)) (push (prepare b).s1 (p ∷ rest)))
    Ordered-first busy v ranked ordered =
        let o1 = (prepare b).s1 in
        let o2 = other_target (prepare b) in
        let top = WithTarget o2 Nothing in
        let both = WithTarget o1 top in
        Ordered-push entered_blks (push o1 (p ∷ rest)) Nothing o2
          (λ q e. idle v ranked ordered q (inr (other_target-s2 (prepare b) q e)))
          (Ordered-push entered_blks (p ∷ rest) top o1 (λ q e. idle v ranked ordered q (inl e))
            ((λ met off. (above_rank, reached), deeper ordered.1)))
      where
        above_rank :
            (y : ℕ)
            → WithTarget (prepare b).s1 (WithTarget (other_target (prepare b)) Nothing) y
            → rank y < rank p
        above_rank y (inl e) = ranked p y (b, at, inl e)
        above_rank y (inr (inl e)) = ranked p y (b, at, inr (other_target-s2 (prepare b) y e))
        above_rank y (inr (inr l)) = absurd l

        reached :
            (q : ℕ)
            → Next prepare work base t rank entered_blks p q
            → Over prepare work base t rank entered_blks q
              ⊎ WithTarget (prepare b).s1 (WithTarget (other_target (prepare b)) Nothing) q
        reached q n =
            let (d, e, edge) =
              Next-back prepare work base t rank s p b (mark (prepare b)) at same_shape p q n in
            let same : d ≡ b = ok-injective (sym e ∙ at) in
            elim (Edge-targets (prepare b) q (subst (λ x. Edge (prepare x) q) same edge)) [
              | inl e2 ↦ inr (inr (inl e2))
              | inr e1 ↦ inr (inl e1)
            ]

        deeper :
            Ord s (Also p Nothing) rest
            → Ord entered_blks
                (Also p (WithTarget (prepare b).s1 (WithTarget (other_target (prepare b)) Nothing)))
                rest
        deeper h =
            let both = WithTarget (prepare b).s1 (WithTarget (other_target (prepare b)) Nothing) in
            Ordered-change prepare work base t rank s entered_blks
              (λ z q bz n.
                Next-back prepare work base t rank s p b (mark (prepare b)) at same_shape z q n)
              rest (Also p Nothing) (Also p both)
              (λ z bz off.
                let ne : p ≢ z = λ pz. off (inl (sym pz)) in
                (
                  Busy-back prepare work base t rank s p b (mark (prepare b)) at same_shape z ne bz,
                  λ k. elim k [ inl zp ↦ ne (sym zp) | inr l ↦ l ],
                  λ lower y k. elim k [
                    | inl yp ↦ lower y (inl yp)
                    | inr hy ↦
                        let one = above_rank y hy in let two = lower p (inl refl) in omega arith
                  ],
                ))
              (λ q k. elim k [
                | inl o ↦ inl (
                    Over-forth prepare work base t rank s p b (mark (prepare b)) at same_shape busy
                      q o)
                | inr (inl qp) ↦ inr (inl qp)
                | inr (inr l) ↦ absurd l
              ])
              h

    -- A block that is done already.
    pub Ordered-skip : done b base ≡ true → Ord s (Also p Nothing) rest → Ord s Nothing rest
    Ordered-skip over h =
        Ordered-change prepare work base t rank s s (λ z q bz n. n) rest (Also p Nothing) Nothing
          (λ z bz off.
            let ne : z ≢ p = λ zp. waiting (subst (Busy prepare work base t rank s) zp bz) in
            (bz, λ k. elim k [ inl zp ↦ ne zp | inr l ↦ l ], λ lower y k. absurd k))
          (λ q k. elim k [
            | inl o ↦ inl o
            | inr (inl qp) ↦ inl (b, ap (blk_of s) qp ∙ at, over)
            | inr (inr l) ↦ absurd l
          ])
          h
      where
        waiting : Busy prepare work base t rank s p → ⊥
        waiting (d, e, met, not_over) =
            let same : d ≡ b = ok-injective (sym e ∙ at) in
            true_or_false (ap (λ x. done x base) same ∙ over) not_over

-- ===== src/Ssa/Walk/Reaches.antt =====
-- The blocks that a traversal meets are those that jumps lead to from where it starts.
use mathlib.Core.Path.{subst}
use qbt.Prelude.{
  ℕ, ◌≡◌, ◌≢◌, refl, ap, sym, ◌∙◌, ◌⊎◌, inl, inr, List, [], ◌∷◌, Bool-cases, Result, ok,
  ok-injective, arith, ◌==◌, Has,
}
use qbt.Nodes.{Blk}
use qbt.Nodes.Blocks.{blk_of, put_blk}
use qbt.Ssa.Params.{other_target}
use qbt.Ssa.Walk.{mark, Walking, push}
use qbt.Ssa.Walk.Steps.{Edge, SameShape, Round, skip, first, second, lookup_self, lookup-ne}
use qbt.Ssa.Walk.Visits.{Has-push, other_target-s2, Met, Reached, Traversal, Visits, written}

module _ (prepare : Blk → Blk) where
  -- A jump from a stored block.
  abbrev pub Jump : List Blk → ℕ → ℕ → Type 0
  Jump s z q = (b : Blk) × (blk_of s z ≡ ok b) × Edge (prepare b) q

  -- The blocks that jumps lead to from some.
  pub data From (s : List Blk) (roots : ℕ → Type 0) : ℕ → Type 0 where
    root : (q : ℕ) → roots q → From s roots q
    jump : (z q : ℕ) → From s roots z → Jump s z q → From s roots q

module _ (prepare : Blk → Blk) (work : List Blk → Blk → Result Blk) (base : ℕ)
    (t : Traversal prepare work) where
  -- With the jumps of the store `s0`, every block that was met or will be is led to.
  pub record Sound (s0 : List Blk) (roots : ℕ → Type 0) (stack : List ℕ) (s : List Blk)
      : Type 0 where
    pub back : (z q : ℕ) → Jump prepare s z q → Jump prepare s0 z q
    pub forth : (z q : ℕ) → Jump prepare s0 z q → Jump prepare s z q
    pub led : (q : ℕ) → Reached base s stack q → From prepare s0 roots q

  module _ (s : List Blk) (p : ℕ) (b c : Blk) (at : blk_of s p ≡ ok b)
      (shape : SameShape c (prepare b)) where
    abbrev after : List Blk
    after = put_blk (put_blk s (prepare b)) c

    same_id : c.id ≡ b.id
    same_id = shape.id ∙ t.prepare_id b

    Jump-back : (z q : ℕ) → Jump prepare after z q → Jump prepare s z q
    Jump-back z q (d, e, edge) = elim (written prepare work base t s p z b c d at same_id e) [
      | inl (pz, dc) ↦ (
        b,
        ap (blk_of s) (sym pz) ∙ at,
        t.stable b c shape q (subst (λ x. Edge (prepare x) q) dc edge),
      )
      | inr (ne, old) ↦ (d, old, edge)
    ]

    Jump-forth : (z q : ℕ) → Jump prepare s z q → Jump prepare after z q
    Jump-forth z q (d, e, edge) = elim (Bool-cases (p == z)) [
      | inl h ↦
          let equal : p ≡ z = ground arith in
          let same : d ≡ b = ok-injective (sym e ∙ ap (blk_of s) (sym equal) ∙ at) in
          (
            c,
            ap (blk_of after) (sym equal)
                ∙ lookup_self prepare work base t.prepare_id t.prepare_visited s p b c at same_id,
            t.kept b c shape q (subst (λ x. Edge (prepare x) q) same edge),
          )
      | inr h ↦
          let ne : p ≢ z = λ equal. ground arith in
          (
            d,
            lookup-ne prepare work base t.prepare_id t.prepare_visited s p z b c at same_id ne ∙ e,
            edge,
          )
    ]

    Sound-written :
        (s0 : List Blk) (roots : ℕ → Type 0) (rest stack : List ℕ)
        → Sound s0 roots (p ∷ rest) s
        → ((q : ℕ) → Has q stack → Has q (p ∷ rest) ⊎ Edge (prepare b) q)
        → Sound s0 roots stack after
    Sound-written s0 roots rest stack h grown = record {
      back = λ z q n. h.back z q (Jump-back z q n);
      forth = λ z q n. Jump-forth z q (h.forth z q n);
      led = λ q reached. elim reached [
        | inl (d, e, met) ↦ elim (written prepare work base t s p q b c d at same_id e) [
          | inl (pq, dc) ↦ h.led q (inr (inl (sym pq)))
          | inr (ne, old) ↦ h.led q (inl (d, old, met))
        ]
        | inr has ↦ elim (grown q has) [
          | inl was ↦ h.led q (inr was)
          | inr edge ↦ jump p q (h.led p (inr (inl refl))) (h.back p q (b, at, edge))
        ]
      ];
    }

  same_again : (b c : Blk) → SameShape c b → SameShape (mark c) b
  same_again b c h = record { id = h.id; btype = h.btype; s1 = h.s1; s2 = h.s2 }

  pub Round-Sound :
      (s0 : List Blk) (roots : ℕ → Type 0) (p : ℕ) (rest : List ℕ) (s : List Blk) (w : Walking)
      → Sound s0 roots (p ∷ rest) s
      → Round prepare work base p rest s w
      → Sound s0 roots w.stack w.blks
  Round-Sound s0 roots p rest s _ h (skip b at over) = record {
    back = h.back;
    forth = h.forth;
    led = λ q reached. elim reached [
      | inl met ↦ h.led q (inl met)
      | inr has ↦ h.led q (inr (inr has))
    ];
  }
  Round-Sound s0 roots p rest s _ h (first b at new) =
      Sound-written s p b (mark (prepare b)) at
        (same_again (prepare b) (prepare b)
          (record { id = refl; btype = refl; s1 = refl; s2 = refl }))
        s0 roots rest (push (other_target (prepare b)) (push (prepare b).s1 (p ∷ rest))) h
        (λ q has.
          elim (Has-push q (other_target (prepare b)) (push (prepare b).s1 (p ∷ rest)) has) [
            | inl e ↦ inr (inr (other_target-s2 (prepare b) q e))
            | inr h1 ↦ elim (Has-push q (prepare b).s1 (p ∷ rest) h1) [
              | inl e ↦ inr (inl e)
              | inr h2 ↦ inl h2
            ]
          ])
  Round-Sound s0 roots p rest s _ h (second b c at old busy did) =
      Sound-written s p b (mark c) at
        (same_again (prepare b) c (t.work_shape (put_blk s (prepare b)) (prepare b) c did)) s0 roots
        rest rest h (λ q has. inl (inr has))

  -- What jumps lead to is met, when everything that was to be met is.
  pub From-Met :
      (all : List ℕ) (s0 r : List Blk) (roots : ℕ → Type 0)
      → Visits prepare work base t all [] r
      → Sound s0 roots [] r
      → ((q : ℕ) → roots q → Met base r q)
      → (q : ℕ) → From prepare s0 roots q
      → Met base r q
  From-Met all s0 r roots v h start q (root _ h0) = start q h0
  From-Met all s0 r roots v h start q (jump z _ f n) =
      let (d, e, met) = From-Met all s0 r roots v h start z f in
      let (x, ex, edge) = h.forth z q n in
      let same : x ≡ d = ok-injective (sym ex ∙ e) in
      elim (v.explored z q d e met (subst (λ y. Edge (prepare y) q) same edge)) [
        | inl m ↦ m
        | inr none_left ↦ absurd none_left
      ]

-- ===== src/Ssa/Walk/Kept.antt =====
-- A round keeps the invariant of a traversal and lowers its measure.
use qbt.Prelude.{
  true_or_false, ℕ, ◌+◌, ◌≤◌, ◌≡◌, ◌≢◌, refl, ap, sym, ◌∙◌, ◌⊎◌, inl, inr, List, ◌∷◌, true,
  Bool-cases, Result, ok, ok-injective, arith, ◌==◌, Has,
}
use mathlib.Core.Path.{subst}
use qbt.Nodes.{Blk}
use qbt.Nodes.Blocks.{blk_of, put_blk}
use qbt.Nodes.Blocks.Laws.{ids-put_blk}
use qbt.Ssa.Params.{other_target}
use qbt.Ssa.Walk.{entered, done, mark, Walking, push}
use qbt.Ssa.Walk.Steps.{Edge, SameShape, Round, skip, first, second, lookup_self, lookup-ne}
use qbt.Ssa.Walk.Visits.{
  Has-push, push_under, other_target-s2, Edge-pushed, Met, Reached, Traversal, Visits, written,
}

module _ (prepare : Blk → Blk) (work : List Blk → Blk → Result Blk) (base : ℕ)
    (t : Traversal prepare work) (all : List ℕ) where
  module _ (p : ℕ) (rest stack : List ℕ) (s : List Blk) (b c : Blk) (at : blk_of s p ≡ ok b)
      (shape : SameShape c (prepare b)) where
    same_id : c.id ≡ b.id
    same_id = shape.id ∙ t.prepare_id b

    Met-written :
        entered c base ≡ true
        → (q : ℕ) → Met base s q
        → Met base (put_blk (put_blk s (prepare b)) c) q
    Met-written met q (d, e, h) = elim (Bool-cases (p == q)) [
      | inl same ↦
          let equal : p ≡ q = ground arith in
          (
            c,
            ap (blk_of (put_blk (put_blk s (prepare b)) c)) (sym equal)
                ∙ lookup_self prepare work base t.prepare_id t.prepare_visited s p b c at same_id,
            met,
          )
      | inr other ↦
          let ne : p ≢ q = λ equal. ground arith in
          (
            d,
            lookup-ne prepare work base t.prepare_id t.prepare_visited s p q b c at same_id ne ∙ e,
            h,
          )
    ]

    -- The block at `p` is written and the stack is changed.
    Visits-written :
        Visits prepare work base t all (p ∷ rest) s
        → entered c base ≡ true
        → c.visited ≤ base + 2
        → ((q : ℕ) → Has q rest → Has q stack)
        → (done c base ≡ true) ⊎ Has p stack
        → ((q : ℕ) → Edge (prepare b) q → Met base s q ⊎ ((p ≡ q) ⊎ Has q stack))
        → ((q : ℕ) → Has q stack → Has q all)
        → Visits prepare work base t all stack (put_blk (put_blk s (prepare b)) c)
    Visits-written v met most sub back next inside = record {
      same_ids = ids-put_blk (put_blk s (prepare b)) c ∙ ids-put_blk s (prepare b) ∙ v.same_ids;
      on_stack = inside;
      edges = λ q r d e edge. elim (written prepare work base t s p q b c d at same_id e) [
        | inl (pq, dc) ↦
            v.edges p r b at (t.stable b c shape r (subst (λ x. Edge (prepare x) r) dc edge))
        | inr (ne, old) ↦ v.edges q r d old edge
      ];
      marks = λ q d e. elim (written prepare work base t s p q b c d at same_id e) [
        | inl (pq, dc) ↦
            subst (λ x. (base ≤ x.visited) × (x.visited ≤ base + 2)) (sym dc) (ground arith, most)
        | inr (ne, old) ↦ v.marks q d old
      ];
      waiting = λ q d e hd nd. elim (written prepare work base t s p q b c d at same_id e) [
        | inl (pq, dc) ↦ elim back [
          | inl over ↦ (true_or_false (ap (λ x. done x base) dc ∙ over) nd)
          | inr on ↦ subst (λ x. Has x stack) pq on
        ]
        | inr (ne, old) ↦ elim (v.waiting q d old hd nd) [
          | inl qp ↦ absurd (ne (sym qp))
          | inr h ↦ sub q h
        ]
      ];
      explored = λ q r d e hd edge. elim (written prepare work base t s p q b c d at same_id e) [
        | inl (pq, dc) ↦
            elim (next r (t.stable b c shape r (subst (λ x. Edge (prepare x) r) dc edge))) [
              | inl m ↦ inl (Met-written met r m)
              | inr (inl pr) ↦ inl (here met r pr)
              | inr (inr h) ↦ inr h
            ]
        | inr (ne, old) ↦ elim (v.explored q r d old hd edge) [
          | inl m ↦ inl (Met-written met r m)
          | inr (inl rp) ↦ inl (here met r (sym rp))
          | inr (inr h) ↦ inr (sub r h)
        ]
      ];
    }
      where
        here :
            entered c base ≡ true → (r : ℕ) → p ≡ r → Met base (put_blk (put_blk s (prepare b)) c) r
        here met r pr = (
          c,
          ap (blk_of (put_blk (put_blk s (prepare b)) c)) (sym pr)
              ∙ lookup_self prepare work base t.prepare_id t.prepare_visited s p b c at same_id,
          met,
        )

  mark-SameShape : (c b : Blk) → SameShape c b → SameShape (mark c) b
  mark-SameShape c b h = record { id = h.id; btype = h.btype; s1 = h.s1; s2 = h.s2 }

  same-SameShape : (b : Blk) → SameShape b b
  same-SameShape b = record { id = refl; btype = refl; s1 = refl; s2 = refl }

  -- Every round keeps the invariant.
  pub Round-Visits :
      (p : ℕ) (rest : List ℕ) (s : List Blk) (w : Walking)
      → Visits prepare work base t all (p ∷ rest) s
      → Round prepare work base p rest s w
      → Visits prepare work base t all w.stack w.blks
  Round-Visits p rest s _ v (skip b at over) = record {
    same_ids = v.same_ids;
    on_stack = λ q h. v.on_stack q (inr h);
    edges = v.edges;
    marks = v.marks;
    waiting = λ q d e hd nd. elim (v.waiting q d e hd nd) [
      | inl qp ↦
          let equal : d ≡ b = ok-injective (sym e ∙ ap (blk_of s) qp ∙ at) in
          (true_or_false (ap (λ x. done x base) equal ∙ over) nd)
      | inr h ↦ h
    ];
    explored = λ q r d e hd edge. elim (v.explored q r d e hd edge) [
      | inl m ↦ inl m
      | inr (inl rp) ↦ inl (b, ap (blk_of s) rp ∙ at, ground arith)
      | inr (inr h) ↦ inr h
    ];
  }
  Round-Visits p rest s _ v (first b at new) =
      let c = mark (prepare b) in
      let stack = push (other_target (prepare b)) (push (prepare b).s1 (p ∷ rest)) in
      let under : (q : ℕ) → Has q (p ∷ rest) → Has q stack = λ q h.
        push_under q (other_target (prepare b)) (push (prepare b).s1 (p ∷ rest))
          (push_under q (prepare b).s1 (p ∷ rest) h) in
      Visits-written p rest stack s b c at
        (mark-SameShape (prepare b) (prepare b) (same-SameShape (prepare b))) v
        (ground (arith, t.prepare_visited b, v.marks p b at))
        (ground (arith, t.prepare_visited b, v.marks p b at)) (λ q h. under q (inr h))
        (inr (under p (inl refl))) (λ q edge. inr (inr (Edge-pushed (prepare b) q (p ∷ rest) edge)))
        (λ q h. elim (Has-push q (other_target (prepare b)) (push (prepare b).s1 (p ∷ rest)) h) [
          | inl e ↦ v.edges p q b at (inr (other_target-s2 (prepare b) q e))
          | inr h1 ↦ elim (Has-push q (prepare b).s1 (p ∷ rest) h1) [
            | inl e ↦ v.edges p q b at (inl e)
            | inr h2 ↦ v.on_stack q h2
          ]
        ])
  Round-Visits p rest s _ v (second b c at old busy did) =
      let seen : c.visited ≡ b.visited =
        t.work_visited (put_blk s (prepare b)) (prepare b) c did ∙ t.prepare_visited b in
      Visits-written p rest rest s b (mark c) at
        (mark-SameShape c (prepare b) (t.work_shape (put_blk s (prepare b)) (prepare b) c did)) v
        (ground (arith, seen)) (ground (arith, seen)) (λ q h. h) (inl (ground (arith, seen)))
        (λ q edge. elim (v.explored p q b at old edge) [
          | inl m ↦ inl m
          | inr (inl qp) ↦ inr (inl (sym qp))
          | inr (inr h) ↦ inr (inr h)
        ])
        (λ q h. v.on_stack q (inr h))

  -- Every round keeps the blocks that were met or are on the stack.
  pub Round-Reached :
      (p : ℕ) (rest : List ℕ) (s : List Blk) (w : Walking) (q : ℕ)
      → Visits prepare work base t all (p ∷ rest) s
      → Round prepare work base p rest s w
      → Reached base s (p ∷ rest) q
      → Reached base w.blks w.stack q
  Round-Reached p rest s _ q v (skip b at over) (inl met) = inl met
  Round-Reached p rest s _ q v (skip b at over) (inr (inl qp)) =
      inl (b, ap (blk_of s) qp ∙ at, ground arith)
  Round-Reached p rest s _ q v (skip b at over) (inr (inr h)) = inr h
  Round-Reached p rest s _ q v (first b at new) (inl met) =
      let c = mark (prepare b) in
      inl (
        Met-written p rest rest s b c at
          (mark-SameShape (prepare b) (prepare b) (same-SameShape (prepare b)))
          (ground (arith, t.prepare_visited b, v.marks p b at)) q met)
  Round-Reached p rest s _ q v (first b at new) (inr h) = inr (
      push_under q (other_target (prepare b)) (push (prepare b).s1 (p ∷ rest))
        (push_under q (prepare b).s1 (p ∷ rest) h))
  Round-Reached p rest s _ q v (second b c at old busy did) reached =
      let seen : c.visited ≡ b.visited =
        t.work_visited (put_blk s (prepare b)) (prepare b) c did ∙ t.prepare_visited b in
      let shape =
        mark-SameShape c (prepare b) (t.work_shape (put_blk s (prepare b)) (prepare b) c did) in
      let met : entered (mark c) base ≡ true = ground (arith, seen) in
      elim reached [
        | inl was ↦ inl (Met-written p rest rest s b (mark c) at shape met q was)
        | inr (inl qp) ↦
            inl
              (Met-written p rest rest s b (mark c) at shape met q (b, ap (blk_of s) qp ∙ at, old))
        | inr (inr h) ↦ inr h
      ]

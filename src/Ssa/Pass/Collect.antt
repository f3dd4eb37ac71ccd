-- ===== src/Ssa/Pass/Collect.antt =====
-- `collect_params` ends on every graph, and each block that it meets passes the parameters of its
-- successors.
use mathlib.Core.Path.{subst}
use qbt.Prelude.{
  true_or_false, ℕ, ◌+◌, ◌*◌, ◌≡◌, refl, ap, sym, ◌∙◌, inl, inr, List, [], ◌∷◌, ◌++◌, true, false,
  Bool-cases, Option, none, some, ok, arith, ◌==◌, length, Has,
}
use qbt.Nodes.{Val, Blk}
use qbt.Nodes.Blocks.{blk_of, put_blk}
use qbt.Nodes.Blocks.Laws.{ids, blk_of-id, blk_of-put_blk, Has-ids-Stored}
use qbt.Ssa.Params.{params_of, collect_args, other_target}
use qbt.Ssa.Walk.{entered, done, mark, push, Walking}
use qbt.Ssa.Walk.Steps.{Round, skip, first, second}
use qbt.Ssa.Walk.Visits.{Met, Reached, Visits, written}
use qbt.Ssa.Walk.Reaches.{From}
use qbt.Ssa.Walk.Ends.{walk_ends, round_cases}
use qbt.Ssa.Pass.{as_is, collect_params}
use qbt.Ssa.Pass.Traversals.{collect_Traversal}

-- The block but for its arguments and its mark.
abbrev pub bare : Blk → Blk
bare b = record b { args1 = []; args2 = []; visited = 0 }

module _ (base : ℕ) (s0 : List Blk) where
  -- What has become of a block of the store `s0`.
  pub record Passing (b d : Blk) : Type 0 where
    pub same : bare b ≡ bare d
    pub passed :
        done b base ≡ true → (params_of s0 d.s1 ≡ ok b.args1) × (params_of s0 d.s2 ≡ ok b.args2)
    pub unset : done b base ≡ false → (b.args1 ≡ []) × (b.args2 ≡ [])

  abbrev pub Collecting : List ℕ → List Blk → Type 0
  Collecting stack s =
      (p : ℕ) (b : Blk) → blk_of s p ≡ ok b → (d : Blk) × (blk_of s0 p ≡ ok d) × Passing b d

  abbrev Visiting : List ℕ → List ℕ → List Blk → Type 0
  Visiting all stack s = Visits as_is collect_args base collect_Traversal all stack s

  module _ (all : List ℕ) (p : ℕ) (rest : List ℕ) (s : List Blk) (b : Blk) (at : blk_of s p ≡ ok b)
      (v : Visiting all (p ∷ rest) s) (h : Collecting (p ∷ rest) s) where
    Collecting-written :
        (c : Blk)
        → c.id ≡ b.id
        → ((d : Blk) → Passing b d → Passing c d)
        → (stack : List ℕ) → Collecting stack (put_blk (put_blk s (as_is b)) c)
    Collecting-written c same_id change stack q x e =
        elim (written as_is collect_args base collect_Traversal s p q b c x at same_id e) [
          | inl (pq, xc) ↦
              let (d, ed, pd) = h p b at in
              (d, ap (blk_of s0) (sym pq) ∙ ed, subst (λ y. Passing y d) (sym xc) (change d pd))
          | inr (ne, old) ↦ h q x old
        ]

    -- Written back as it is, the block changes nothing.
    read_back : (q : ℕ) → blk_of (put_blk s (as_is b)) q ≡ blk_of s q
    read_back q =
        let here : b.id ≡ p = blk_of-id s p b at in
        blk_of-put_blk s b q (b, ap (blk_of s) here ∙ at) ∙ elim (Bool-cases (b.id == q)) [
          | inl e ↦ let equal : p ≡ q = ground arith in rw e (sym at ∙ ap (blk_of s) equal)
          | inr e ↦ rw e refl
        ]

    -- The parameters of a successor are those that it has in `s0`.
    params_there :
        (o : Option ℕ)
        → ((q : ℕ) → o ≡ some q → Has q all)
        → (ps : List Val) × (params_of (put_blk s (as_is b)) o ≡ ok ps) × (params_of s0 o ≡ ok ps)
    unfolding params_of
    params_there none f = ([], refl, refl)
    params_there (some q) f =
        let (x, e) = Has-ids-Stored s q (subst (λ l. Has q l) (sym v.same_ids) (f q refl)) in
        let (d, ed, pd) = h q x e in
        let equal : d.params ≡ x.params = sym (ap (λ y. y.params) pd.same) in
        (x.params, rw (read_back q ∙ e) refl, rw ed (ap ok equal))

    abbrev Outcome : Type 0
    Outcome = (w : Walking) × Round as_is collect_args base p rest s w × Collecting w.stack w.blks

    leaving : entered b base ≡ true → done b base ≡ false → Outcome
    unfolding collect_args
    leaving old busy =
        let (ps, e1, f1) = params_there b.s1 (λ q e. v.edges p q b at (inl e)) in
        let (qs, e2, f2) = params_there b.s2 (λ q e. v.edges p q b at (inr e)) in
        let c = record b { args1 = b.args1 ++ ps; args2 = b.args2 ++ qs } in
        let over : done (mark c) base ≡ true = ground arith in
        (
          record { blks = put_blk (put_blk s (as_is b)) (mark c); stack = rest },
          second b c at old busy (rw (e1, e2) refl),
          Collecting-written (mark c) refl
              (λ d pd.
                let s1_same : d.s1 ≡ b.s1 = sym (ap (λ y. y.s1) pd.same) in
                let s2_same : d.s2 ≡ b.s2 = sym (ap (λ y. y.s2) pd.same) in
                let (no1, no2) = pd.unset busy in
                record {
                  same = pd.same;
                  passed = λ _. (
                    ap (params_of s0) s1_same ∙ f1 ∙ ap (λ l. ok (l ++ ps)) (sym no1),
                    ap (params_of s0) s2_same ∙ f2 ∙ ap (λ l. ok (l ++ qs)) (sym no2),
                  );
                  unset = λ nd. (true_or_false over nd);
                })
              rest,
        )

    entering : entered b base ≡ false → Outcome
    entering new =
        let busy : done b base ≡ false = ground arith in
        (
          record {
            blks = put_blk (put_blk s (as_is b)) (mark b);
            stack = push (other_target b) (push b.s1 (p ∷ rest));
          },
          first b at new,
          Collecting-written (mark b) refl
              (λ d pd. record {
                same = pd.same;
                passed = λ over. absurd (not_done over);
                unset = λ nd. pd.unset busy;
              })
              (push (other_target b) (push b.s1 (p ∷ rest))),
        )
      where
        not_done : done (mark b) base ≡ true → ⊥
        not_done over = ground arith

  make-Round :
      (all : List ℕ) (p : ℕ) (rest : List ℕ) (s : List Blk)
      → Visiting all (p ∷ rest) s
      → Collecting (p ∷ rest) s
      → (w : Walking) × Round as_is collect_args base p rest s w × Collecting w.stack w.blks
  make-Round all p rest s v h =
      let (b, at, which) = round_cases as_is collect_args base collect_Traversal all p rest s v in
      elim which [
        | inl over ↦ (record { blks = s; stack = rest }, skip b at over, h)
        | inr (inl new) ↦ entering all p rest s b at v h new
        | inr (inr (old, busy)) ↦ leaving all p rest s b at v h old busy
      ]

  -- Where no block was met or has arguments, the traversal ends; the blocks that it meets are those
  -- that jumps lead to, and pass the parameters of their successors.
  pub collect_params-passes :
      (p : ℕ)
      → Visiting (ids s0) (p ∷ []) s0
      → ((q : ℕ) (b : Blk)
          → blk_of s0 q ≡ ok b
          → (done b base ≡ false) × ((b.args1 ≡ []) × (b.args2 ≡ [])))
      → (r : List Blk) × (collect_params s0 p base ≡ ok r)
        × Visiting (ids s0) [] r
        × Collecting [] r
        × ((q : ℕ) → Met base r q → From as_is s0 (Reached base s0 (p ∷ [])) q)
        × ((q : ℕ) → From as_is s0 (Reached base s0 (p ∷ [])) q → Met base r q)
  unfolding collect_params
  collect_params-passes p v start =
      let (r, e, vr, hr, met, led, back, forth) =
        walk_ends as_is collect_args base collect_Traversal (ids s0) Collecting
          (make-Round (ids s0)) (3 * length s0 + 1) (p ∷ []) s0 v
          (λ q b e. (
            b,
            e,
            record {
              same = refl;
              passed = λ over. (true_or_false over (start q b e).0);
              unset = λ _. (start q b e).1;
            },
          ))
          (omega arith) in
      (r, e, vr, hr, met, led)

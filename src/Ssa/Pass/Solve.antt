-- ===== src/Ssa/Pass/Solve.antt =====
-- In a graph without cycles `build_params` ends, and every block that it meets satisfies the equation
-- of liveness.
use mathlib.Core.Path.{subst}
use qbt.Prelude.{
  true_or_false, ℕ, ◌+◌, ◌*◌, ◌≡◌, refl, ap, sym, ◌∙◌, inl, inr, List, [], ◌∷◌, ◌++◌, true, false,
  Option, none, some, ok, arith, length, All,
}
use qbt.Nodes.{Val, Blk}
use qbt.Nodes.Blocks.{blk_of, put_blk}
use qbt.Nodes.Blocks.Laws.{ids}
use qbt.Ssa.Scope.{IsTmp}
use qbt.Ssa.Params.{params_of, require_params, other_target}
use qbt.Ssa.Params.Tables.{among}
use qbt.Ssa.Params.Equation.{require_params-live}
use qbt.Ssa.Walk.{entered, done, mark, push, Walking}
use qbt.Ssa.Walk.Steps.{Edge, SameShape, Round, skip, first, second}
use qbt.Ssa.Walk.Visits.{Met, Reached, Visits}
use qbt.Ssa.Walk.Reaches.{Jump, From}
use qbt.Ssa.Walk.Ends.{walk_ends, round_cases}
use qbt.Ssa.Walk.Order.{Ranked, Nothing, Ranked-written, Ordered-second, top_settled}
use qbt.Ssa.Walk.Acyclic.{Ord, Ordered-first, Ordered-skip}
use qbt.Ssa.Pass.{drop_ret, build_params}
use qbt.Ssa.Pass.Traversals.{build_Traversal, drop_ret-visited}
use qbt.Ssa.Pass.Content.{Content, SameBody, Content-written, Finished, prepared_elsewhere}

pub drop_ret-params : (b : Blk) → (drop_ret b).params ≡ b.params
unfolding drop_ret
drop_ret-params b = ground arith

drop_ret-args : (b : Blk) → ((drop_ret b).args1 ≡ b.args1) × ((drop_ret b).args2 ≡ b.args2)
unfolding drop_ret
drop_ret-args b = (ground arith, ground arith)

drop_ret-SameBody : (b : Blk) → SameBody (drop_ret b) b
unfolding drop_ret
drop_ret-SameBody b = (ground arith, ground arith, ground arith)

with_params-shape : (b : Blk) (ps : List Val) → SameShape (mark (record b { params = ps })) b
with_params-shape b ps = record { id = refl; btype = refl; s1 = refl; s2 = refl }

mark-shape : (b : Blk) → SameShape (mark b) b
mark-shape b = record { id = refl; btype = refl; s1 = refl; s2 = refl }

module _ (s0 : List Blk) (base : ℕ) (rank : ℕ → ℕ) where
  abbrev Descending : List Blk → Type 0
  Descending s = Ranked drop_ret require_params base build_Traversal rank s

  abbrev Stacked : List Blk → (ℕ → Type 0) → List ℕ → Type 0
  Stacked s u stack = Ord drop_ret require_params base build_Traversal rank s u stack

  abbrev pub Solving : List ℕ → List Blk → Type 0
  Solving stack s = Content s0 base rank s × Descending s × Stacked s Nothing stack

  abbrev Visiting : List ℕ → List ℕ → List Blk → Type 0
  Visiting all stack s = Visits drop_ret require_params base build_Traversal all stack s

  module _ (all : List ℕ) (p : ℕ) (rest : List ℕ) (s : List Blk) (b : Blk) (at : blk_of s p ≡ ok b)
      (v : Visiting all (p ∷ rest) s) (h : Solving (p ∷ rest) s) where
    abbrev Outcome : Type 0
    Outcome = (w : Walking) × Round drop_ret require_params base p rest s w × Solving w.stack w.blks

    skipped : done b base ≡ true → Outcome
    skipped over = (
      record { blks = s; stack = rest },
      skip b at over,
      (
        h.0,
        h.1,
        Ordered-skip drop_ret require_params base build_Traversal rank all s p rest b at over h.2.1,
      ),
    )

    entering : entered b base ≡ false → Outcome
    entering new =
        let busy : done b base ≡ false = ground arith in
        let c = mark (drop_ret b) in
        let open_block : done c base ≡ true → ⊥ = λ over. not_done over in
        let shape = mark-shape (drop_ret b) in
        (
          record {
            blks = put_blk (put_blk s (drop_ret b)) c;
            stack = push (other_target (drop_ret b)) (push (drop_ret b).s1 (p ∷ rest));
          },
          first b at new,
          (
            Content-written s0 base rank s p b c at shape busy h.0
                (subst (All IsTmp) (sym (drop_ret-params b)) (h.0.tmps p b at))
                (λ nd. drop_ret-params b ∙ h.0.unset p b at busy)
                (
                  (drop_ret-args b).0 ∙ (h.0.no_args p b at).0,
                  (drop_ret-args b).1 ∙ (h.0.no_args p b at).1,
                )
                (λ over. absurd (open_block over)) (λ over. absurd (open_block over))
                (drop_ret-SameBody b),
            Ranked-written drop_ret require_params base build_Traversal rank s p b c at shape h.1,
            Ordered-first drop_ret require_params base build_Traversal rank all s p rest b at busy v
                h.1 h.2,
          ),
        )
      where
        not_done : done (mark (drop_ret b)) base ≡ true → ⊥
        not_done over = ground (arith, drop_ret-visited b)

    module _ (busy : done b base ≡ false) where
      -- The parameters of a successor that is done.
      params_there :
          (o : Option ℕ)
          → ((q : ℕ) → o ≡ some q → Finished s0 base rank s q)
          → (ps : List Val) × (params_of (put_blk s (drop_ret b)) o ≡ ok ps)
            × (params_of s o ≡ ok ps)
            × All IsTmp ps
      unfolding params_of
      params_there none f = ([], refl, refl, tt)
      params_there (some q) f =
          let (d, e, over) = f q refl in
          let same =
            prepared_elsewhere s0 base rank s p b (mark (drop_ret b)) at (mark-shape (drop_ret b))
              busy q (d, e, over) in
          (d.params, rw (same ∙ e) refl, rw e refl, h.0.tmps q d e)

      leaving : entered b base ≡ true → Outcome
      leaving old =
          let succs : (q : ℕ) → Edge (drop_ret b) q → Finished s0 base rank s q = λ q edge.
            top_settled drop_ret require_params base build_Traversal rank s p rest h.2
              (b, at, old, busy) q (b, at, edge) in
          let (ps, e1, f1, h1) = params_there (drop_ret b).s1 (λ q e. succs q (inl e)) in
          let (qs, e2, f2, h2) = params_there (drop_ret b).s2 (λ q e. succs q (inr e)) in
          let (new, did, tmps, eq) =
            require_params-live (put_blk s (drop_ret b)) (drop_ret b) ps qs e1 e2 h1 h2 in
          let none_yet : (drop_ret b).params ≡ [] = drop_ret-params b ∙ h.0.unset p b at busy in
          let all_new : (drop_ret b).params ++ new ≡ new = ap (λ l. l ++ new) none_yet in
          let c = mark (record (drop_ret b) { params = (drop_ret b).params ++ new }) in
          let shape = with_params-shape (drop_ret b) ((drop_ret b).params ++ new) in
          let over : done c base ≡ true = ground (arith, drop_ret-visited b) in
          (
            record { blks = put_blk (put_blk s (drop_ret b)) c; stack = rest },
            second b (record (drop_ret b) { params = (drop_ret b).params ++ new }) at old busy did,
            (
              Content-written s0 base rank s p b c at shape busy h.0
                  (subst (All IsTmp) (sym all_new) tmps) (λ nd. (true_or_false over nd))
                  (
                    (drop_ret-args b).0 ∙ (h.0.no_args p b at).0,
                    (drop_ret-args b).1 ∙ (h.0.no_args p b at).1,
                  )
                  (λ _. succs) (λ _. (ps, qs, f1, f2, λ u. ap (λ l. among l u) all_new ∙ eq u))
                  (drop_ret-SameBody b),
              Ranked-written drop_ret require_params base build_Traversal rank s p b c at shape h.1,
              Ordered-second drop_ret require_params base build_Traversal rank s p b c at shape busy
                  over rest h.2.1,
            ),
          )

  make-Round :
      (all : List ℕ) (p : ℕ) (rest : List ℕ) (s : List Blk)
      → Visiting all (p ∷ rest) s
      → Solving (p ∷ rest) s
      → (w : Walking) × Round drop_ret require_params base p rest s w × Solving w.stack w.blks
  make-Round all p rest s v h =
      let (b, at, which) =
        round_cases drop_ret require_params base build_Traversal all p rest s v in
      elim which [
        | inl over ↦ skipped all p rest s b at v h over
        | inr (inl new) ↦ entering all p rest s b at v h new
        | inr (inr (old, busy)) ↦ leaving all p rest s b at v h busy old
      ]

  -- Where no block was met or has parameters or arguments, and jumps go down in rank and lead to
  -- blocks of the store, the traversal ends; the equation holds of the blocks that were met.
  pub build_params-solved :
      (s : List Blk) (p : ℕ)
      → Visiting (ids s) (p ∷ []) s
      → Content s0 base rank s
      → Descending s
      → (Met base s p → ⊥)
      → (r : List Blk) × (build_params s p base ≡ ok r)
        × Visiting (ids s) [] r
        × (Content s0 base rank r × Descending r)
        × ((q : ℕ) → Met base r q → From drop_ret s (Reached base s (p ∷ [])) q)
        × ((q : ℕ) → From drop_ret s (Reached base s (p ∷ [])) q → Met base r q)
        × ((z q : ℕ) → Jump drop_ret r z q → Jump drop_ret s z q)
        × ((z q : ℕ) → Jump drop_ret s z q → Jump drop_ret r z q)
  unfolding build_params
  build_params-solved s p v h ranked unmet =
      let (r, e, vr, (hr, rr, _), met, led, back, forth) =
        walk_ends drop_ret require_params base build_Traversal (ids s) Solving (make-Round (ids s))
          (3 * length s + 1) (p ∷ []) s v
          (h, ranked, ((λ (b, at, old, nd) off. absurd (unmet (b, at, old))), tt)) (omega arith) in
      (r, e, vr, (hr, rr), met, led, back, forth)

-- ===== src/Ssa/Pass/Join.antt =====
-- The two traversals of src/ssa.c and the removal between them bring a function without cycles into
-- form.
use mathlib.Core.Path.{subst}
use qbt.Prelude.{
  true_or_false, ℕ, ◌+◌, ◌≡◌, refl, ap, sym, ◌∙◌, inl, inr, List, [], ◌∷◌, true, false, ◌||◌, ok,
  ok-injective, arith, Has, All,
}
use qbt.Nodes.{Blk}
use qbt.Nodes.Blocks.{blk_of}
use qbt.Nodes.Blocks.Laws.{ids, Apart, blk_of-id, blk_of-Has-ids, Has-ids-Stored}
use qbt.Ssa.Scope.{IsTmp}
use qbt.Ssa.Params.{params_of, require_params, collect_args}
use qbt.Ssa.Params.Tables.{among}
use qbt.Ssa.Params.Live.{live}
use qbt.Ssa.Walk.{entered, done}
use qbt.Ssa.Walk.Steps.{Edge}
use qbt.Ssa.Walk.Visits.{Met, Reached, Visits}
use qbt.Ssa.Walk.Reaches.{Jump, From, root, jump}
use qbt.Ssa.Walk.Ends.{met_done}
use qbt.Ssa.Pass.{drop_ret, as_is, build_params, remove_unvisited, collect_params}
use qbt.Ssa.Pass.Traversals.{build_Traversal, collect_Traversal, drop_ret-Edge}
use qbt.Ssa.Pass.Content.{Content, Solved}
use qbt.Ssa.Pass.Solve.{build_params-solved}
use qbt.Ssa.Pass.Collect.{Collecting, collect_params-passes}
use qbt.Ssa.Pass.Remove.{remove_unvisited-Apart, remove_unvisited-keeps, remove_unvisited-only}
use qbt.Ssa.Pass.Form.{
  Acyclic, Reachable, Form, params_of-carried, start_Visits, start_Content, start_ranked,
  roots_only, roots_all, unmet,
}

module _ (s : List Blk) (base : ℕ) (rank : ℕ → ℕ) (h : Acyclic s base rank) (p : ℕ) where
  -- Behind the first traversal.
  pub record Built (r : List Blk) : Type 0 where
    pub visits : Visits drop_ret require_params base build_Traversal (ids s) [] r
    pub content : Content s base rank r
    pub met : (q : ℕ) → Met base r q → Reachable s p q
    pub led : (q : ℕ) → Reachable s p q → Met base r q
    pub forth : (z q : ℕ) → Jump drop_ret s z q → Jump drop_ret r z q

  pub build_params-Built : Has p (ids s) → (r : List Blk) × (build_params s p base ≡ ok r) × Built r
  build_params-Built has =
      let (r, e, v, (c, _), met, led, back, forth) =
        build_params-solved s base rank s p (start_Visits s base h.plain p has)
          (start_Content s base rank h) (start_ranked s base rank h)
          (λ (b, at, old). true_or_false old (unmet s base h.plain p b at)) in
      (
        r,
        e,
        record {
          visits = v;
          content = c;
          met = λ q m. roots_only s base h.plain p q (met q m);
          led = λ q f. led q (roots_all s base h.plain p q f);
          forth = forth;
        },
      )

  module _ (r : List Blk) (b : Built r) where
    abbrev pub kept : List Blk
    kept = remove_unvisited r (base + 2)

    r-Apart : Apart (ids r)
    r-Apart = subst Apart (sym b.visits.same_ids) h.plain.apart

    kept_of : (q : ℕ) (c : Blk) → blk_of r q ≡ ok c → entered c base ≡ true → blk_of kept q ≡ ok c
    kept_of q c e old =
        let over : done c base ≡ true =
          met_done drop_ret require_params base build_Traversal (ids s) r q c b.visits e old in
        remove_unvisited-keeps r (base + 2) q c e over

    kept_from :
        (q : ℕ) (c : Blk) → blk_of kept q ≡ ok c → (blk_of r q ≡ ok c) × (done c base ≡ true)
    kept_from q c e = remove_unvisited-only r (base + 2) q c r-Apart e

    -- A jump of a block that stays leads to one that stays.
    kept-Edge : (z q : ℕ) (c : Blk) → blk_of kept z ≡ ok c → Edge c q → Has q (ids kept)
    kept-Edge z q c e edge =
        let (at, over) = kept_from z c e in
        let (d, ed, dd) = b.content.over z q c at over edge in
        blk_of-Has-ids kept q d (kept_of q d ed (ground arith))

    marked : (q : ℕ) (c : Blk) → blk_of kept q ≡ ok c → c.visited ≡ base + 2
    marked q c e =
        let (at, over) = kept_from q c e in let (low, high) = b.visits.marks q c at in ground arith

    pub again_Visits :
        Has p (ids kept)
        → Visits as_is collect_args (base + 2) collect_Traversal (ids kept) (p ∷ []) kept
    again_Visits has = record {
      same_ids = refl;
      on_stack =
          λ q k. elim k [ inl e ↦ subst (λ i. Has i (ids kept)) (sym e) has | inr l ↦ absurd l ];
      edges = λ z q c e edge. kept-Edge z q c e edge;
      marks = λ z c e. let mark = marked z c e in (omega arith, omega arith);
      waiting = λ z c e old nd. true_or_false old (again_unmet z c e);
      explored = λ z q c e old edge. true_or_false old (again_unmet z c e);
    }
      where
        again_unmet : (z : ℕ) (c : Blk) → blk_of kept z ≡ ok c → entered c (base + 2) ≡ false
        again_unmet z c e = let mark = marked z c e in ground arith

    again_undone :
        (q : ℕ) (c : Blk)
        → blk_of kept q ≡ ok c
        → (done c (base + 2) ≡ false) × ((c.args1 ≡ []) × (c.args2 ≡ []))
    again_undone q c e =
        let mark = marked q c e in (ground arith, b.content.no_args q c (kept_from q c e).0)

    -- What is reachable stays, and is reachable from there.
    again_From : (q : ℕ) → Reachable s p q → From as_is kept (Reached (base + 2) kept (p ∷ [])) q
    again_From q (root _ e) = root q (inr (inl e))
    again_From q (jump z _ f n) =
        let (c, e, edge) = b.forth z q n in
        let (d, ed, old) = b.led z f in
        let same : d ≡ c = ok-injective (sym ed ∙ e) in
        jump z q (again_From z f)
          (c, kept_of z c e (subst (λ x. entered x base ≡ true) same old), drop_ret-Edge c q edge)

    -- Behind the second traversal.
    module _ (r2 : List Blk)
        (v2 : Visits as_is collect_args (base + 2) collect_Traversal (ids kept) [] r2)
        (h2 : Collecting (base + 2) kept [] r2)
        (met2 : (q : ℕ)
          → From as_is kept (Reached (base + 2) kept (p ∷ [])) q
          → Met (base + 2) r2 q) where
      stays : (q : ℕ) → Has q (ids r2) → Reachable s p q
      stays q has =
          let (c, e) = Has-ids-Stored kept q (subst (λ l. Has q l) v2.same_ids has) in
          let (at, over) = kept_from q c e in b.met q (c, at, ground arith)

      arrives : (q : ℕ) → Reachable s p q → Has q (ids r2)
      arrives q f = let (c, e, old) = met2 q (again_From q f) in blk_of-Has-ids r2 q c e

      finished : (q : ℕ) (c : Blk) → blk_of r2 q ≡ ok c → done c (base + 2) ≡ true
      finished q c e =
          let (d, ed, old) = met2 q (again_From q (stays q (blk_of-Has-ids r2 q c e))) in
          let same : d ≡ c = ok-injective (sym ed ∙ e) in
          met_done as_is collect_args (base + 2) collect_Traversal (ids kept) r2 q c v2 e
            (subst (λ x. entered x (base + 2) ≡ true) same old)

      -- The parameters of a successor are those it has behind the first traversal.
      params_in :
          (z q : ℕ) (c : Blk)
          → blk_of kept z ≡ ok c
          → Edge c q
          → (x y : Blk) × (blk_of kept q ≡ ok x) × (blk_of r2 q ≡ ok y) × (x.params ≡ y.params)
      params_in z q c e edge =
          let (y, ey) =
            Has-ids-Stored r2 q (subst (λ l. Has q l) (sym v2.same_ids) (kept-Edge z q c e edge)) in
          let (x, ex, px) = h2 q y ey in (x, y, ex, ey, sym (ap (λ t. t.params) px.same))

      params_before :
          (z q : ℕ) (c : Blk)
          → blk_of kept z ≡ ok c
          → Edge c q
          → (x y : Blk) × (blk_of r q ≡ ok x) × (blk_of r2 q ≡ ok y) × (x.params ≡ y.params)
      params_before z q c e edge =
          let (x, y, ex, ey, same) = params_in z q c e edge in
          (x, y, (kept_from q x ex).0, ey, same)

      solved2 : (q : ℕ) (c : Blk) → blk_of r2 q ≡ ok c → Solved r2 c
      solved2 q c e =
          let (d, ed, pd) = h2 q c e in
          let (at, over) = kept_from q d ed in
          let (ps, qs, e1, e2, eq) = b.content.solved q d at over in
          (
            ps,
            qs,
            ap (params_of r2) (ap (λ x. x.s1) pd.same)
                ∙ sym (params_of-carried r r2 d.s1 (λ z k. params_before q z d ed (inl k)))
                ∙ e1,
            ap (params_of r2) (ap (λ x. x.s2) pd.same)
                ∙ sym (params_of-carried r r2 d.s2 (λ z k. params_before q z d ed (inr k)))
                ∙ e2,
            λ u.
                ap (λ x. among x.params u) pd.same
                ∙ eq u
                ∙ ap (λ x. live x (λ t. among ps t || among qs t) u) (sym pd.same),
          )

      passes2 :
          (q : ℕ) (c : Blk)
          → blk_of r2 q ≡ ok c
          → (params_of r2 c.s1 ≡ ok c.args1) × (params_of r2 c.s2 ≡ ok c.args2)
      passes2 q c e =
          let (d, ed, pd) = h2 q c e in
          let (e1, e2) = pd.passed (finished q c e) in
          (
            ap (params_of r2) (ap (λ x. x.s1) pd.same)
                ∙ sym (params_of-carried kept r2 d.s1 (λ z k. params_in q z d ed (inl k)))
                ∙ e1,
            ap (params_of r2) (ap (λ x. x.s2) pd.same)
                ∙ sym (params_of-carried kept r2 d.s2 (λ z k. params_in q z d ed (inr k)))
                ∙ e2,
          )

      collected-Form : Form s p r2
      collected-Form = record {
        apart = subst Apart (sym v2.same_ids) (remove_unvisited-Apart r (base + 2) r-Apart);
        only = stays;
        all = arrives;
        source = λ q c e.
            let (d, ed, pd) = h2 q c e in
            let (x, ex, (i, c0, c1)) = b.content.source q d (kept_from q d ed).0 in
            (
              x,
              ex,
              (
                ap (λ t. t.insns) pd.same ∙ i,
                ap (λ t. t.cmp0) pd.same ∙ c0,
                ap (λ t. t.cmp1) pd.same ∙ c1,
              ),
            );
        tmps = λ q c e.
            let (d, ed, pd) = h2 q c e in
            subst (λ x. All IsTmp x.params) (sym pd.same) (b.content.tmps q d (kept_from q d ed).0);
        solved = solved2;
        passes = passes2;
      }

    collect_params-Form :
        Has p (ids kept)
        → (r2 : List Blk) × (collect_params kept p (base + 2) ≡ ok r2) × Form s p r2
    collect_params-Form has =
        let (r2, e, v2, h2, _, met2) =
          collect_params-passes (base + 2) kept p (again_Visits has) again_undone in
        (r2, e, collected-Form r2 v2 h2 met2)

  -- Both traversals end, from the mark that the entry block has at the start of each.
  pub passes-Form :
      Has p (ids s)
      → (r : List Blk) × (build_params s p base ≡ ok r)
        × ((c : Blk) × (blk_of r p ≡ ok c) × (c.visited ≡ base + 2) × (c.id ≡ p))
        × ((r2 : List Blk) × (collect_params (remove_unvisited r (base + 2)) p (base + 2) ≡ ok r2)
            × Form s p r2)
  passes-Form has =
      let (r, e, b) = build_params-Built has in
      let (c, at, old) = b.led p (root p refl) in
      let stored = kept_of r b p c at old in
      (
        r,
        e,
        (c, at, marked r b p c stored, blk_of-id r p c at),
        collect_params-Form r b (blk_of-Has-ids (kept r b) p c stored),
      )

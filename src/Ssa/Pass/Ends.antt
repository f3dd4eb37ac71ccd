-- ===== src/Ssa/Pass/Ends.antt =====
-- `build_params` ends on every graph, with cycles or without.
use mathlib.Core.Path.{subst}
use qbt.Prelude.{
  ℕ, ◌+◌, ◌*◌, ◌≡◌, refl, ap, sym, ◌∙◌, inl, inr, List, [], ◌∷◌, ◌++◌, Option, none, some, ok,
  arith, length, ◌==◌, Bool-cases, if◌then◌else◌, Has, All, All-append,
}
use qbt.Nodes.{Val, Blk}
use qbt.Nodes.Blocks.{blk_of, put_blk}
use qbt.Nodes.Blocks.Laws.{ids, blk_of-id, blk_of-put_blk, blk_of-Has, Has-ids-Stored}
use qbt.Ssa.Scope.{IsTmp}
use qbt.Ssa.Params.{params_of, require_params, other_target}
use qbt.Ssa.Params.Equation.{require_params-live}
use qbt.Ssa.Walk.{entered, done, mark, push, Walking}
use qbt.Ssa.Walk.Steps.{Round, skip, first, second}
use qbt.Ssa.Walk.Visits.{Met, Visits, written}
use qbt.Ssa.Walk.Ends.{walk_ends, round_cases}
use qbt.Ssa.Pass.{drop_ret, build_params}
use qbt.Ssa.Pass.Traversals.{build_Traversal, drop_ret-id}
use qbt.Ssa.Pass.Solve.{drop_ret-params}
use qbt.Ssa.Pass.Form.{Plain, Reachable, start_Visits, roots_only, roots_all}

module _ (base : ℕ) where
  abbrev Tmps : List ℕ → List Blk → Type 0
  Tmps stack s = (p : ℕ) (b : Blk) → blk_of s p ≡ ok b → All IsTmp b.params

  abbrev Visiting : List ℕ → List ℕ → List Blk → Type 0
  Visiting all stack s = Visits drop_ret require_params base build_Traversal all stack s

  module _ (all : List ℕ) (p : ℕ) (rest : List ℕ) (s : List Blk) (b : Blk) (at : blk_of s p ≡ ok b)
      (v : Visiting all (p ∷ rest) s) (h : Tmps (p ∷ rest) s) where
    prepared_tmps : All IsTmp (drop_ret b).params
    prepared_tmps = subst (All IsTmp) (sym (drop_ret-params b)) (h p b at)

    Tmps-written :
        (c : Blk)
        → c.id ≡ b.id
        → All IsTmp c.params
        → (stack : List ℕ) → Tmps stack (put_blk (put_blk s (drop_ret b)) c)
    Tmps-written c same tmps stack q d e =
        elim (written drop_ret require_params base build_Traversal s p q b c d at same e) [
          | inl (pq, dc) ↦ subst (λ x. All IsTmp x.params) (sym dc) tmps
          | inr (ne, old) ↦ h q d old
        ]

    prepared_at :
        (q : ℕ)
        → blk_of (put_blk s (drop_ret b)) q ≡ (if p == q then ok (drop_ret b) else blk_of s q)
    prepared_at q =
        let here : (drop_ret b).id ≡ p = drop_ret-id b ∙ blk_of-id s p b at in
        blk_of-put_blk s (drop_ret b) q (b, ap (blk_of s) here ∙ at)
        ∙ ap (λ i. if i == q then ok (drop_ret b) else blk_of s q) here

    -- A successor is stored, and its parameters are temporaries.
    params_there :
        (o : Option ℕ)
        → ((q : ℕ) → o ≡ some q → Has q all)
        → (ps : List Val) × (params_of (put_blk s (drop_ret b)) o ≡ ok ps) × All IsTmp ps
    unfolding params_of
    params_there none f = ([], refl, tt)
    params_there (some q) f = elim (Bool-cases (p == q)) [
      | inl e ↦ ((drop_ret b).params, rw (prepared_at q, e) refl, prepared_tmps)
      | inr e ↦
          let (d, ed) = Has-ids-Stored s q (subst (λ l. Has q l) (sym v.same_ids) (f q refl)) in
          (d.params, rw (prepared_at q, e, ed) refl, h q d ed)
    ]

    make : (w : Walking) × Round drop_ret require_params base p rest s w × Tmps w.stack w.blks
    make =
        let (ps, e1, h1) = params_there (drop_ret b).s1 (λ q e. v.edges p q b at (inl e)) in
        let (qs, e2, h2) = params_there (drop_ret b).s2 (λ q e. v.edges p q b at (inr e)) in
        let (new, did, tmps, _) =
          require_params-live (put_blk s (drop_ret b)) (drop_ret b) ps qs e1 e2 h1 h2 in
        let c = record (drop_ret b) { params = (drop_ret b).params ++ new } in
        elim (Bool-cases (done b base)) [
          | inl over ↦ (record { blks = s; stack = rest }, skip b at over, λ q d e. h q d e)
          | inr busy ↦ elim (Bool-cases (entered b base)) [
            | inl old ↦ (
              record { blks = put_blk (put_blk s (drop_ret b)) (mark c); stack = rest },
              second b c at old busy did,
              Tmps-written (mark c) (drop_ret-id b)
                  (All-append IsTmp (drop_ret b).params new prepared_tmps tmps) rest,
            )
            | inr new_block ↦ (
              record {
                blks = put_blk (put_blk s (drop_ret b)) (mark (drop_ret b));
                stack = push (other_target (drop_ret b)) (push (drop_ret b).s1 (p ∷ rest));
              },
              first b at new_block,
              Tmps-written (mark (drop_ret b)) (drop_ret-id b) prepared_tmps
                  (push (other_target (drop_ret b)) (push (drop_ret b).s1 (p ∷ rest))),
            )
          ]
        ]

  make-Round :
      (all : List ℕ) (p : ℕ) (rest : List ℕ) (s : List Blk)
      → Visiting all (p ∷ rest) s
      → Tmps (p ∷ rest) s
      → (w : Walking) × Round drop_ret require_params base p rest s w × Tmps w.stack w.blks
  make-Round all p rest s v h =
      let (b, at, _) = round_cases drop_ret require_params base build_Traversal all p rest s v in
      make all p rest s b at v h

-- The traversal that gives the blocks their parameters ends, within the fuel, on every graph in
-- which jumps lead to blocks; it meets exactly the blocks that jumps lead to, and all parameters
-- that it gives are temporaries.
pub build_params-ends :
    (s : List Blk) (base p : ℕ)
    → Plain s base
    → Has p (ids s)
    → (r : List Blk) × (build_params s p base ≡ ok r)
      × ((q : ℕ) → Met base r q → Reachable s p q)
      × ((q : ℕ) → Reachable s p q → Met base r q)
      × ((q : ℕ) (b : Blk) → blk_of r q ≡ ok b → All IsTmp b.params)
unfolding build_params
build_params-ends s base p h has =
    let (r, e, v, tmps, met, led, _, _) =
      walk_ends drop_ret require_params base build_Traversal (ids s) (Tmps base)
        (make-Round base (ids s)) (3 * length s + 1) (p ∷ []) s (start_Visits s base h p has)
        (λ q b at. subst (All IsTmp) (sym (h.no_params b (blk_of-Has s q b at))) tt)
        (omega arith) in
    (
      r,
      e,
      (λ q m. roots_only s base h p q (met q m)),
      (λ q f. led q (roots_all s base h p q f)),
      tmps,
    )

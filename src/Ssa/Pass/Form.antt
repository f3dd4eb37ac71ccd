-- ===== src/Ssa/Pass/Form.antt =====
-- src/ssa.c: a function without cycles, and what its blocks are in front of the renaming.
use mathlib.Core.Path.{subst}
use qbt.Prelude.{
  true_or_false, ℕ, ◌<◌, ◌≡◌, refl, ap, sym, inl, inr, List, [], ◌∷◌, false, Option, none, some, ok,
  arith, Has, All,
}
use qbt.Nodes.{Blk}
use qbt.Nodes.Blocks.{blk_of}
use qbt.Nodes.Blocks.Laws.{ids, Apart, blk_of-Has, blk_of-id}
use qbt.Ssa.Scope.{IsTmp}
use qbt.Ssa.Params.{params_of, require_params}
use qbt.Ssa.Walk.{entered, done}
use qbt.Ssa.Walk.Steps.{Edge}
use qbt.Ssa.Walk.Visits.{Reached, Visits}
use qbt.Ssa.Walk.Reaches.{Jump, From, root, jump}
use qbt.Ssa.Pass.{drop_ret}
use qbt.Ssa.Pass.Traversals.{build_Traversal}
use qbt.Ssa.Pass.Content.{Content, Solved, SameBody}

-- The blocks as the parser leaves them, with jumps to blocks of the function.
pub record Plain (s : List Blk) (base : ℕ) : Type 0 where
  pub apart : Apart (ids s)
  pub unmarked : (b : Blk) → Has b s → b.visited ≡ base
  pub no_params : (b : Blk) → Has b s → b.params ≡ []
  pub no_args : (b : Blk) → Has b s → (b.args1 ≡ []) × (b.args2 ≡ [])
  pub stored : (b : Blk) → Has b s → (q : ℕ) → Edge (drop_ret b) q → Has q (ids s)

-- Jumps go down in rank.
pub record Acyclic (s : List Blk) (base : ℕ) (rank : ℕ → ℕ) : Type 0 where
  pub plain : Plain s base
  pub descending : (b : Blk) → Has b s → (q : ℕ) → Edge (drop_ret b) q → rank q < rank b.id

-- The blocks that can be executed, by the jumps of the function.
abbrev pub Reachable : List Blk → ℕ → ℕ → Type 0
Reachable s p = From drop_ret s (λ x. x ≡ p)

-- The parameters and arguments are in place.
pub record Form (s : List Blk) (p : ℕ) (r : List Blk) : Type 0 where
  pub apart : Apart (ids r)
  pub only : (q : ℕ) → Has q (ids r) → Reachable s p q
  pub all : (q : ℕ) → Reachable s p q → Has q (ids r)
  pub source :
      (q : ℕ) (b : Blk) → blk_of r q ≡ ok b → (d : Blk) × (blk_of s q ≡ ok d) × SameBody b d
  pub tmps : (q : ℕ) (b : Blk) → blk_of r q ≡ ok b → All IsTmp b.params
  pub solved : (q : ℕ) (b : Blk) → blk_of r q ≡ ok b → Solved r b
  pub passes :
      (q : ℕ) (b : Blk)
      → blk_of r q ≡ ok b
      → (params_of r b.s1 ≡ ok b.args1) × (params_of r b.s2 ≡ ok b.args2)

-- Two stores with the same parameters at an address.
pub params_of-carried :
    (s r : List Blk) (o : Option ℕ)
    → ((q : ℕ)
        → o ≡ some q
        → (x y : Blk) × (blk_of s q ≡ ok x) × (blk_of r q ≡ ok y) × (x.params ≡ y.params))
    → params_of s o ≡ params_of r o
unfolding params_of
params_of-carried s r none h = refl
params_of-carried s r (some q) h = let (x, y, ex, ey, same) = h q refl in rw (ex, ey) (ap ok same)

module _ (s : List Blk) (base : ℕ) (h : Plain s base) where
  pub unmet : (q : ℕ) (b : Blk) → blk_of s q ≡ ok b → entered b base ≡ false
  unmet q b e = let mark : b.visited ≡ base = h.unmarked b (blk_of-Has s q b e) in ground arith

  undone : (q : ℕ) (b : Blk) → blk_of s q ≡ ok b → done b base ≡ false
  undone q b e = let mark : b.visited ≡ base = h.unmarked b (blk_of-Has s q b e) in ground arith

  pub start_Visits :
      (p : ℕ)
      → Has p (ids s)
      → Visits drop_ret require_params base build_Traversal (ids s) (p ∷ []) s
  start_Visits p has = record {
    same_ids = refl;
    on_stack = λ q k. elim k [ inl e ↦ subst (λ i. Has i (ids s)) (sym e) has | inr l ↦ absurd l ];
    edges = λ z q b e edge. h.stored b (blk_of-Has s z b e) q edge;
    marks = λ z b e.
        let mark : b.visited ≡ base = h.unmarked b (blk_of-Has s z b e) in
        (omega arith, omega arith);
    waiting = λ z b e old nd. true_or_false old (unmet z b e);
    explored = λ z q b e old edge. true_or_false old (unmet z b e);
  }

  start_root : (p q : ℕ) → Reached base s (p ∷ []) q → q ≡ p
  start_root p q (inl (b, e, old)) = true_or_false old (unmet q b e)
  start_root p q (inr (inl e)) = e
  start_root p q (inr (inr l)) = absurd l

  -- Where nothing was met, what will be is on the stack.
  pub roots_only : (p q : ℕ) → From drop_ret s (Reached base s (p ∷ [])) q → Reachable s p q
  roots_only p q (root _ k) = root q (start_root p q k)
  roots_only p q (jump z _ f n) = jump z q (roots_only p z f) n

  pub roots_all : (p q : ℕ) → Reachable s p q → From drop_ret s (Reached base s (p ∷ [])) q
  roots_all p q (root _ e) = root q (inr (inl e))
  roots_all p q (jump z _ f n) = jump z q (roots_all p z f) n

module _ (s : List Blk) (base : ℕ) (rank : ℕ → ℕ) (h : Acyclic s base rank) where
  pub start_Content : Content s base rank s
  start_Content = record {
    tmps = λ z b e. subst (All IsTmp) (sym (h.plain.no_params b (blk_of-Has s z b e))) tt;
    unset = λ z b e nd. h.plain.no_params b (blk_of-Has s z b e);
    no_args = λ z b e. h.plain.no_args b (blk_of-Has s z b e);
    over = λ z q b e over edge. true_or_false over (undone s base h.plain z b e);
    solved = λ z b e over. true_or_false over (undone s base h.plain z b e);
    source = λ z b e. (b, e, (refl, refl, refl));
  }

  pub start_ranked : (z q : ℕ) → Jump drop_ret s z q → rank q < rank z
  start_ranked z q (b, e, edge) =
      subst (λ i. rank q < rank i) (blk_of-id s z b e) (h.descending b (blk_of-Has s z b e) q edge)

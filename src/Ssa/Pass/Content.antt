-- ===== src/Ssa/Pass/Content.antt =====
-- What `build_params` has made of the blocks so far: a block that is done has as parameters what is
-- live in front of it, by the parameters of its successors, and its successors are done.
use mathlib.Core.Path.{subst}
use qbt.Prelude.{
  true_or_false, ℕ, ◌≡◌, ◌≢◌, refl, ap, sym, ◌∙◌, ◌⊎◌, inl, inr, List, [], true, false, ◌||◌,
  Option, none, some, ok, ok-injective, arith, ◌==◌, if◌then◌else◌, All,
}
use qbt.Nodes.{Val, Blk}
use qbt.Nodes.Blocks.{blk_of, put_blk}
use qbt.Nodes.Blocks.Laws.{blk_of-id, blk_of-put_blk}
use qbt.Ssa.Scope.{IsTmp}
use qbt.Ssa.Params.{params_of, require_params}
use qbt.Ssa.Params.Tables.{among}
use qbt.Ssa.Params.Live.{live}
use qbt.Ssa.Walk.{done}
use qbt.Ssa.Walk.Steps.{Edge, SameShape, lookup-ne}
use qbt.Ssa.Walk.Visits.{written}
use qbt.Ssa.Walk.Order.{Over, Over-forth}
use qbt.Ssa.Pass.{drop_ret}
use qbt.Ssa.Pass.Traversals.{build_Traversal, drop_ret-id, drop_ret-visited}

-- The parameters of a block that satisfy the equation.
abbrev pub Solved : List Blk → Blk → Type 0
Solved s b =
    (ps qs : List Val) × (params_of s b.s1 ≡ ok ps)
    × (params_of s b.s2 ≡ ok qs)
    × ((t : ℕ) → among b.params t ≡ live b (λ u. among ps u || among qs u) t)

pub params_of-same :
    (s r : List Blk) (o : Option ℕ)
    → ((q : ℕ) → o ≡ some q → blk_of r q ≡ blk_of s q)
    → params_of r o ≡ params_of s o
unfolding params_of
params_of-same s r none h = refl
params_of-same s r (some q) h = rw (h q refl) refl

-- The same code, but for the jumps.
abbrev pub SameBody : Blk → Blk → Type 0
SameBody b d = (b.insns ≡ d.insns) × (b.cmp0 ≡ d.cmp0) × (b.cmp1 ≡ d.cmp1)

SameBody-trans : (a b c : Blk) → SameBody a b → SameBody b c → SameBody a c
SameBody-trans a b c (e1, e2, e3) (f1, f2, f3) = (e1 ∙ f1, e2 ∙ f2, e3 ∙ f3)

module _ (s0 : List Blk) (base : ℕ) (rank : ℕ → ℕ) where
  abbrev pub Finished : List Blk → ℕ → Type 0
  Finished s q = Over drop_ret require_params base build_Traversal rank s q

  pub record Content (s : List Blk) : Type 0 where
    pub tmps : (p : ℕ) (b : Blk) → blk_of s p ≡ ok b → All IsTmp b.params
    pub unset : (p : ℕ) (b : Blk) → blk_of s p ≡ ok b → done b base ≡ false → b.params ≡ []
    pub no_args : (p : ℕ) (b : Blk) → blk_of s p ≡ ok b → (b.args1 ≡ []) × (b.args2 ≡ [])
    pub over :
        (p q : ℕ) (b : Blk) → blk_of s p ≡ ok b → done b base ≡ true → Edge b q → Finished s q
    pub solved : (p : ℕ) (b : Blk) → blk_of s p ≡ ok b → done b base ≡ true → Solved s b
    pub source :
        (p : ℕ) (b : Blk) → blk_of s p ≡ ok b → (d : Blk) × (blk_of s0 p ≡ ok d) × SameBody b d

  module _ (s : List Blk) (p : ℕ) (b c : Blk) (at : blk_of s p ≡ ok b)
      (shape : SameShape c (drop_ret b)) (busy : done b base ≡ false) where
    abbrev after : List Blk
    after = put_blk (put_blk s (drop_ret b)) c

    same_id : c.id ≡ b.id
    same_id = shape.id ∙ drop_ret-id b

    pub Finished-ne : (q : ℕ) → Finished s q → p ≢ q
    Finished-ne q (d, e, over) pq =
        let same : b ≡ d = ok-injective (sym at ∙ ap (blk_of s) pq ∙ e) in
        true_or_false (ap (λ x. done x base) same ∙ over) busy

    elsewhere : (q : ℕ) → Finished s q → blk_of after q ≡ blk_of s q
    elsewhere q f =
        lookup-ne drop_ret require_params base drop_ret-id drop_ret-visited s p q b c at same_id
          (Finished-ne q f)

    -- The equation of a block with finished successors is not disturbed.
    Solved-written : (d : Blk) → ((q : ℕ) → Edge d q → Finished s q) → Solved s d → Solved after d
    Solved-written d f (ps, qs, e1, e2, eq) = (
      ps,
      qs,
      params_of-same s after d.s1 (λ q h. elsewhere q (f q (inl h))) ∙ e1,
      params_of-same s after d.s2 (λ q h. elsewhere q (f q (inr h))) ∙ e2,
      eq,
    )

    pub Content-written :
        Content s
        → All IsTmp c.params
        → (done c base ≡ false → c.params ≡ [])
        → (c.args1 ≡ []) × (c.args2 ≡ [])
        → (done c base ≡ true → (q : ℕ) → Edge c q → Finished s q)
        → (done c base ≡ true → Solved s c)
        → SameBody c b
        → Content after
    Content-written h tmps unset no_args over solved body = record {
      tmps = λ z d e. elim (view z d e) [
        | inl (pz, dc) ↦ subst (λ x. All IsTmp x.params) (sym dc) tmps
        | inr (ne, old) ↦ h.tmps z d old
      ];
      unset = λ z d e nd. elim (view z d e) [
        | inl (pz, dc) ↦ ap (λ x. x.params) dc ∙ unset (sym (ap (λ x. done x base) dc) ∙ nd)
        | inr (ne, old) ↦ h.unset z d old nd
      ];
      no_args = λ z d e. elim (view z d e) [
        | inl (pz, dc) ↦ (ap (λ x. x.args1) dc ∙ no_args.0, ap (λ x. x.args2) dc ∙ no_args.1)
        | inr (ne, old) ↦ h.no_args z d old
      ];
      over = λ z q d e hd edge. elim (view z d e) [
        | inl (pz, dc) ↦
            forth q (over (sym (ap (λ x. done x base) dc) ∙ hd) q (subst (λ x. Edge x q) dc edge))
        | inr (ne, old) ↦ forth q (h.over z q d old hd edge)
      ];
      solved = λ z d e hd. elim (view z d e) [
        | inl (pz, dc) ↦
            let dc_done = sym (ap (λ x. done x base) dc) ∙ hd in
            subst (Solved after) (sym dc) (Solved-written c (over dc_done) (solved dc_done))
        | inr (ne, old) ↦
            Solved-written d (λ q edge. h.over z q d old hd edge) (h.solved z d old hd)
      ];
      source = λ z d e. elim (view z d e) [
        | inl (pz, dc) ↦
            let (x, ex, same) = h.source p b at in
            (
              x,
              ap (blk_of s0) (sym pz) ∙ ex,
              subst (λ y. SameBody y x) (sym dc) (SameBody-trans c b x body same),
            )
        | inr (ne, old) ↦ h.source z d old
      ];
    }
      where
        view :
            (z : ℕ) (d : Blk)
            → blk_of after z ≡ ok d
            → ((p ≡ z) × (d ≡ c)) ⊎ ((p ≢ z) × (blk_of s z ≡ ok d))
        view z d e = written drop_ret require_params base build_Traversal s p z b c d at same_id e

        forth : (q : ℕ) → Finished s q → Finished after q
        forth q f =
            Over-forth drop_ret require_params base build_Traversal rank s p b c at shape busy q f

    -- In the store in which the block on top was prepared, the finished blocks are the same.
    pub prepared_elsewhere : (q : ℕ) → Finished s q → blk_of (put_blk s (drop_ret b)) q ≡ blk_of s q
    prepared_elsewhere q f =
        let pid : (drop_ret b).id ≡ p = drop_ret-id b ∙ blk_of-id s p b at in
        let other : ((drop_ret b).id == q) ≡ false =
          differ ((drop_ret b).id) pid (Finished-ne q f) in
        blk_of-put_blk s (drop_ret b) q (b, ap (blk_of s) pid ∙ at)
        ∙ ap (λ x. if x then ok (drop_ret b) else blk_of s q) other
      where
        differ : (i : ℕ) → i ≡ p → p ≢ q → (i == q) ≡ false
        differ i e ne = ground arith

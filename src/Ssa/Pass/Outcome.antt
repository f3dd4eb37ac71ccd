-- ===== src/Ssa/Pass/Outcome.antt =====
-- src/ssa.c: what the pass makes of a function without cycles.
use qbt.Prelude.{
  ℕ, ◌+◌, ◌≡◌, refl, ap, sym, ◌∙◌, inl, inr, List, [], ◌∷◌, Option, none, some, ok, ok-injective,
  bind-ok, arith, length, All, Has, ◌||◌,
}
use mathlib.Core.Path.{subst}
use qbt.Seq.{vec_at}
use qbt.Nodes.{Val, Blk, Fn}
use qbt.Nodes.Blocks.{blk_of}
use qbt.Nodes.Blocks.Laws.{ids, Has-blk_of, blk_of-Has-ids, Has-ids-Stored}
use qbt.Ssa.{rename_blks}
use qbt.Ssa.Scope.{IsTmp}
use qbt.Ssa.Fresh.{Scoped, all_defined, fresh}
use qbt.Ssa.Single.{rename_blks-fresh}
use qbt.Ssa.Params.{params_of}
use qbt.Ssa.Params.Tables.{among}
use qbt.Ssa.Params.Ready.{live-Scoped}
use qbt.Ssa.Pass.{ssa}
use qbt.Ssa.Renamed.{rename_blks-blk_of, rename_blks-Stored, rename_blks-params_of}
use qbt.Ssa.Pass.Form.{Acyclic, Form, Reachable}
use qbt.Ssa.Pass.Join.{passes-Form}

All-from-Has : (P : Blk → Type 0) (bs : List Blk) → ((b : Blk) → Has b bs → P b) → All P bs
All-from-Has P [] h = tt
All-from-Has P (b ∷ bs) h = (h b (inl refl), All-from-Has P bs (λ c k. h c (inr k)))

module _ (s : List Blk) (p : ℕ) (r : List Blk) (h : Form s p r) where
  params_of-IsTmp : (o : Option ℕ) (ps : List Val) → params_of r o ≡ ok ps → All IsTmp ps
  unfolding params_of
  params_of-IsTmp none ps e = subst (All IsTmp) (ok-injective e) tt
  params_of-IsTmp (some q) ps e =
      let (b, at, same) = bind-ok (blk_of r q) _ e in
      subst (All IsTmp) (ok-injective same) (h.tmps q b at)

  Form-Scoped : (b : Blk) → Has b r → Scoped b
  Form-Scoped b has =
      let at = Has-blk_of r b h.apart has in
      let (ps, qs, e1, e2, eq) = h.solved b.id b at in
      let (f1, f2) = h.passes b.id b at in
      let same1 : b.args1 ≡ ps = ok-injective (sym f1 ∙ e1) in
      let same2 : b.args2 ≡ qs = ok-injective (sym f2 ∙ e2) in
      live-Scoped b (λ u. among ps u || among qs u) (h.tmps b.id b at)
        (params_of-IsTmp b.s1 b.args1 f1) (params_of-IsTmp b.s2 b.args2 f2)
        (λ t live_there. eq t ∙ live_there)
        (λ t passed.
          ap (λ l. among l t || among qs t) (sym same1)
          ∙ ap (λ l. among b.args1 t || among l t) (sym same2)
          ∙ passed)

first_of : (s : List Blk) (e : Blk) → vec_at s 0 ≡ ok e → Has e s
first_of [] e h = absurd cc
first_of (b ∷ bs) e h = inl (sym (ok-injective h))

-- On a function without cycles, as `Acyclic` says it, the pass succeeds: it brings the blocks into form, and their
-- definitions are the temporaries below the count that it returns, each once and in order.
pub ssa-ok :
    (f : Fn) (rank : ℕ → ℕ) (e : Blk)
    → vec_at f.blks 0 ≡ ok e
    → Acyclic f.blks e.visited rank
    → (r bs : List Blk) × (n : ℕ) × (ssa f ≡ ok (record f { blks = bs }, n))
      × Form f.blks e.id r
      × (rename_blks r 0 ≡ ok (bs, n))
      × (all_defined bs ≡ fresh 0 n)
unfolding ssa
ssa-ok f rank e first h =
    let has =
      blk_of-Has-ids f.blks e.id e (Has-blk_of f.blks e h.plain.apart (first_of f.blks e first)) in
    let (built, eb, (c, at, mark, same), (r, er, form)) =
      passes-Form f.blks e.visited rank h e.id has in
    let (bs, en, all, _) =
      rename_blks-fresh r 0 (All-from-Has Scoped r (Form-Scoped f.blks e.id r form)) in
    let count : 0 + length (all_defined r) ≡ length (all_defined r) = omega arith in
    let renamed = en ∙ ap (λ k. ok (bs, k)) count in
    (
      r,
      bs,
      length (all_defined r),
      rw (first, eb, at, mark, same, er, renamed) refl,
      form,
      renamed,
      all,
    )

-- As many arguments as the successor has parameters.
abbrev pub Fits : List Blk → Option ℕ → List Val → Type 0
Fits blks o args = (ps : List Val) × (params_of blks o ≡ ok ps) × (length args ≡ length ps)

-- On a function without cycles, as `Acyclic` says it, the pass succeeds, and keeps exactly the blocks that jumps lead to
-- from the first one.
pub ssa-Reachable :
    (f : Fn) (rank : ℕ → ℕ) (e : Blk)
    → vec_at f.blks 0 ≡ ok e
    → Acyclic f.blks e.visited rank
    → (bs : List Blk) × (n : ℕ) × (ssa f ≡ ok (record f { blks = bs }, n))
      × ((q : ℕ) → Has q (ids bs) → Reachable f.blks e.id q)
      × ((q : ℕ) → Reachable f.blks e.id q → Has q (ids bs))
ssa-Reachable f rank e first h =
    let (r, bs, n, es, form, renamed, _) = ssa-ok f rank e first h in
    (
      bs,
      n,
      es,
      λ q has.
          let (c, at) = Has-ids-Stored bs q has in
          let (b, eb, _) = rename_blks-blk_of r bs 0 n q c renamed at in
          form.only q (blk_of-Has-ids r q b eb),
      λ q led.
          let (b, at) = Has-ids-Stored r q (form.all q led) in
          let (c, ec, _) = rename_blks-Stored r bs 0 n q b renamed at in blk_of-Has-ids bs q c ec,
    )

-- On a function without cycles, as `Acyclic` says it, the pass succeeds, and each block of the result passes to each of its
-- successors as many arguments as that has parameters.
pub ssa-Fits :
    (f : Fn) (rank : ℕ → ℕ) (e : Blk)
    → vec_at f.blks 0 ≡ ok e
    → Acyclic f.blks e.visited rank
    → (bs : List Blk) × (n : ℕ) × (ssa f ≡ ok (record f { blks = bs }, n))
      × ((q : ℕ) (c : Blk) → blk_of bs q ≡ ok c → Fits bs c.s1 c.args1 × Fits bs c.s2 c.args2)
ssa-Fits f rank e first h =
    let (r, bs, n, es, form, renamed, _) = ssa-ok f rank e first h in
    (
      bs,
      n,
      es,
      λ q c at.
          let (b, eb, sized) = rename_blks-blk_of r bs 0 n q c renamed at in
          let (f1, f2) = form.passes q b eb in
          let (ps, e1, n1) = rename_blks-params_of r bs 0 n b.s1 b.args1 renamed f1 in
          let (qs, e2, n2) = rename_blks-params_of r bs 0 n b.s2 b.args2 renamed f2 in
          (
            (ps, ap (params_of bs) sized.s1 ∙ e1, sized.args1 ∙ sym n1),
            (qs, ap (params_of bs) sized.s2 ∙ e2, sized.args2 ∙ sym n2),
          ),
    )

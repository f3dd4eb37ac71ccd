-- ===== src/Ssa/Renamed.antt =====
-- src/ssa.c: the renaming leaves the graph and the number of parameters and arguments.
use mathlib.Core.Path.{subst}
use qbt.Prelude.{
  ℕ, suc, ◌≡◌, refl, ap, sym, ◌∙◌, inl, inr, List, [], ◌∷◌, Option, none, some, true, false,
  Bool-cases, Result, ok, ok-injective, bind-ok, length, traverse, ◌==◌, if◌then◌else◌,
}
use qbt.Nodes.{Val, Blk}
use qbt.Nodes.Blocks.{blk_of}
use qbt.Ssa.Params.{params_of}
use qbt.Ssa.{
  rename_def, rename_params, rename_insns, rename_use, rename_temps, rename_blks, rewritten,
  Renaming,
}

-- The same place in the graph, and as many parameters and arguments.
pub record Sized (b c : Blk) : Type 0 where
  pub id : c.id ≡ b.id
  pub s1 : c.s1 ≡ b.s1
  pub s2 : c.s2 ≡ b.s2
  pub params : length c.params ≡ length b.params
  pub args1 : length c.args1 ≡ length b.args1
  pub args2 : length c.args2 ≡ length b.args2

length-traverse :
    (f : Val → Result Val) (vs ws : List Val) → traverse f vs ≡ ok ws → length ws ≡ length vs
length-traverse f [] ws e = ap length (sym (ok-injective e))
length-traverse f (v ∷ vs) ws e =
    let (w, e1, r1) = bind-ok (f v) _ e in
    let (us, e2, r2) = bind-ok (traverse f vs) _ r1 in
    ap length (sym (ok-injective r2)) ∙ ap suc (length-traverse f vs us e2)

length-rename_params :
    (ps : List Val) (s s1 : Renaming) (qs : List Val)
    → rename_params ps s ≡ ok (qs, s1)
    → length qs ≡ length ps
unfolding rename_params
length-rename_params [] s s1 qs e = ap (λ t. length t.0) (sym (ok-injective e))
length-rename_params (p ∷ ps) s s1 qs e =
    let ((q, s2), e1, r1) = bind-ok (rename_def p s) _ e in
    let ((rs, s3), e2, r2) = bind-ok (rename_params ps s2) _ r1 in
    ap (λ t. length t.0) (sym (ok-injective r2)) ∙ ap suc (length-rename_params ps s2 s3 rs e2)

rename_temps-Sized : (b c : Blk) (i j : ℕ) → rename_temps b i ≡ ok (c, j) → Sized b c
unfolding rename_temps
rename_temps-Sized b c i j e =
    let start : Renaming = record { rmap = []; next = i } in
    let ((params, s1), e1, r1) = bind-ok (rename_params b.params start) _ e in
    let ((insns, s2), e2, r2) = bind-ok (rename_insns b.insns s1) _ r1 in
    let (cmp0, e3, r3) = bind-ok (rename_use s2.rmap b.cmp0) _ r2 in
    let (cmp1, e4, r4) = bind-ok (rename_use s2.rmap b.cmp1) _ r3 in
    let (args1, e5, r5) = bind-ok (traverse (rewritten s2.rmap) b.args1) _ r4 in
    let (args2, e6, r6) = bind-ok (traverse (rewritten s2.rmap) b.args2) _ r5 in
    let same = sym (ok-injective r6) in
    record {
      id = ap (λ t. t.0.id) same;
      s1 = ap (λ t. t.0.s1) same;
      s2 = ap (λ t. t.0.s2) same;
      params = ap (λ t. length t.0.params) same ∙ length-rename_params b.params start s1 params e1;
      args1 =
          ap (λ t. length t.0.args1) same ∙ length-traverse (rewritten s2.rmap) b.args1 args1 e5;
      args2 =
          ap (λ t. length t.0.args2) same ∙ length-traverse (rewritten s2.rmap) b.args2 args2 e6;
    }

empty_blk_of : (q : ℕ) (c : Blk) → blk_of [] q ≡ ok c → ⊥
unfolding blk_of
empty_blk_of q c k = cc

-- A renamed block is that of the same identifier.
pub rename_blks-blk_of :
    (bs cs : List Blk) (i j q : ℕ) (c : Blk)
    → rename_blks bs i ≡ ok (cs, j)
    → blk_of cs q ≡ ok c
    → (b : Blk) × (blk_of bs q ≡ ok b) × Sized b c
unfolding rename_blks blk_of
rename_blks-blk_of [] cs i j q c e at =
    absurd (empty_blk_of q c (ap (λ t. blk_of t.0 q) (ok-injective e) ∙ at))
rename_blks-blk_of (b ∷ bs) cs i j q c e at =
    let ((d, k), e1, r1) = bind-ok (rename_temps b i) _ e in
    let ((ds, n), e2, r2) = bind-ok (rename_blks bs k) _ r1 in
    let sized = rename_temps-Sized b d i k e1 in
    let found : blk_of (d ∷ ds) q ≡ ok c = ap (λ t. blk_of t.0 q) (ok-injective r2) ∙ at in
    elim (Bool-cases (d.id == q)) [
      | inl h ↦
          let here : (b.id == q) ≡ true = ap (λ x. x == q) (sym sized.id) ∙ h in
          let same : d ≡ c =
            ok-injective (sym (ap (λ t. if t then ok d else blk_of ds q) h) ∙ found) in
          (b, rw here refl, subst (Sized b) same sized)
      | inr h ↦
          let other : (b.id == q) ≡ false = ap (λ x. x == q) (sym sized.id) ∙ h in
          let (x, ex, hx) =
            rename_blks-blk_of bs ds k n q c e2
              (sym (ap (λ t. if t then ok d else blk_of ds q) h) ∙ found) in
          (x, rw other ex, hx)
    ]

pub rename_blks-Stored :
    (bs cs : List Blk) (i j q : ℕ) (b : Blk)
    → rename_blks bs i ≡ ok (cs, j)
    → blk_of bs q ≡ ok b
    → (c : Blk) × (blk_of cs q ≡ ok c) × Sized b c
unfolding rename_blks blk_of
rename_blks-Stored [] cs i j q b e at = absurd cc
rename_blks-Stored (a ∷ bs) cs i j q b e at =
    let ((d, k), e1, r1) = bind-ok (rename_temps a i) _ e in
    let ((ds, n), e2, r2) = bind-ok (rename_blks bs k) _ r1 in
    let sized = rename_temps-Sized a d i k e1 in
    let place : (x : Blk) → blk_of (d ∷ ds) q ≡ ok x → blk_of cs q ≡ ok x =
      λ x ex. ap (λ t. blk_of t.0 q) (sym (ok-injective r2)) ∙ ex in
    elim (Bool-cases (a.id == q)) [
      | inl h ↦
          let here : (d.id == q) ≡ true = ap (λ x. x == q) sized.id ∙ h in
          let same : a ≡ b =
            ok-injective (sym (ap (λ t. if t then ok a else blk_of bs q) h) ∙ at) in
          (d, place d (rw here refl), subst (λ x. Sized x d) same sized)
      | inr h ↦
          let other : (d.id == q) ≡ false = ap (λ x. x == q) sized.id ∙ h in
          let (x, ex, hx) =
            rename_blks-Stored bs ds k n q b e2
              (sym (ap (λ t. if t then ok a else blk_of bs q) h) ∙ at) in
          (x, place x (rw other ex), hx)
    ]

-- A successor keeps the number of its parameters.
pub rename_blks-params_of :
    (bs cs : List Blk) (i j : ℕ) (o : Option ℕ) (ps : List Val)
    → rename_blks bs i ≡ ok (cs, j)
    → params_of bs o ≡ ok ps
    → (qs : List Val) × (params_of cs o ≡ ok qs) × (length qs ≡ length ps)
unfolding params_of
rename_blks-params_of bs cs i j none ps e h = ([], refl, ap length (ok-injective h))
rename_blks-params_of bs cs i j (some q) ps e h =
    let (b, at, same) = bind-ok (blk_of bs q) _ h in
    let (c, ec, sized) = rename_blks-Stored bs cs i j q b e at in
    (c.params, rw ec refl, sized.params ∙ ap length (ok-injective same))

-- ===== src/Opt/Tests.antt =====
-- The passes at a function of two blocks.
use mathlib.Core.Path.{subst}
use qbt.Prelude.{
  ok, ℕ, false, ◌-◌, ◌<◌, ◌≡◌, refl, inl, inr, List, [], ◌∷◌, Option, none, some, ◌>>=◌, All,
  All-Has, Has, arith,
}
use qbt.Prelude.Int.{ℤ}
use qbt.Nodes.{InsnType, ValType, Val, tmp, noclass, Insn, insn_create, Blk, Fn}
use qbt.Nodes.Blocks.Laws.{ids}
use qbt.Correct.{kind_of, correct}
use qbt.Correct.Blocks.{Addressless, Corrected}
use qbt.Ssa.Fresh.{all_defined, fresh}
use qbt.Ssa.Walk.Steps.{Edge}
use qbt.Ssa.Pass.{drop_ret, ssa}
use qbt.Ssa.{rename_blks}
use qbt.Ssa.Pass.Form.{Acyclic, Form}
use qbt.Abi.{abi0}
use qbt.Regalloc.{regalloc}
use qbt.Opt.{optimize}
use qbt.Opt.Front.{optimize-front}

abbrev block : ℕ → InsnType → Option ℕ → List Insn → Blk
block i t s1 insns = record {
  name = none;
  id = i;
  btype = t;
  cmp0 = noclass;
  cmp1 = noclass;
  s1 = s1;
  s2 = none;
  insns = insns;
  params = [];
  args1 = [];
  args2 = [];
  to = none;
  visited = 0;
}

abbrev seven : Val
seven = Val.imm (ℤ.pos 7) ValType.i27

-- A temporary is set in the first block and taken from 7 in the second.
abbrev blks : List Blk
blks =
    block 1 InsnType.j (some 2)
      (insn_create InsnType.copy ValType.i27 (tmp 0) seven noclass (ℤ.pos 0) ∷ [])
    ∷ block 2 InsnType.ret none
        (insn_create InsnType.sub ValType.i27 (tmp 0) seven (tmp 0) (ℤ.pos 0) ∷ [])
    ∷ []

abbrev taking : Fn
taking = record {
  name = none;
  ntmp = 1;
  nblk = 2;
  max_callee_save = 0;
  max_call_save = 0;
  has_calls = false;
  blks = blks;
  labels = [];
  tmps = [];
}

blks-Addressless : All Addressless blks
unfolding kind_of
blks-Addressless =
    (record { insns = (tt, tt); cmp0 = refl }, (record { insns = (tt, tt); cmp0 = refl }, tt))

abbrev depth : ℕ → ℕ
depth i = 5 - i

abbrev Down : Blk → Type 0
Down b = (q : ℕ) → Edge (drop_ret b) q → Has q (ids blks) × (depth q < depth b.id)

blks-Down : All Down blks
unfolding drop_ret qbt.Nodes.same_type
blks-Down = (
  λ q edge. elim edge [
    | inl e ↦
        let same : 2 ≡ q = cc in
        subst (λ x. Has x (ids blks) × (depth x < 4)) same (inr (inl refl), omega arith)
    | inr e ↦ absurd (no_some q e)
  ],
  (λ q edge. elim edge [ inl e ↦ absurd (no_some q e) | inr e ↦ absurd (no_some q e) ], tt),
)
  where
    no_some : (q : ℕ) → none ≡ some q → ⊥
    no_some q e = cc

blks-Acyclic : Acyclic blks 0 depth
blks-Acyclic = record {
  plain = record {
    apart = ((λ h. grind arith), ((λ h. grind arith), tt));
    unmarked = λ b has. All-Has (λ c. c.visited ≡ 0) blks (refl, (refl, tt)) has;
    no_params = λ b has. All-Has (λ c. c.params ≡ []) blks (refl, (refl, tt)) has;
    no_args = λ b has.
        All-Has (λ c. (c.args1 ≡ []) × (c.args2 ≡ [])) blks ((refl, refl), ((refl, refl), tt)) has;
    stored = λ b has q edge. (All-Has Down blks blks-Down has q edge).0;
  };
  descending = λ b has q edge. (All-Has Down blks blks-Down has q edge).1;
}

optimize-front_example :
    (bs r cs : List Blk) × (m n : ℕ) × (correct taking 1 ≡ ok (record taking { blks = bs }, m))
    × All Corrected bs
    × (ssa (record taking { blks = bs; ntmp = m }) ≡ ok (record taking { blks = cs; ntmp = m }, n))
    × Form bs 1 r
    × (rename_blks r 0 ≡ ok (cs, n))
    × (all_defined cs ≡ fresh 0 n)
    × (optimize taking
        ≡ (do lowered ← abi0 (record taking { blks = cs; ntmp = m }); regalloc lowered))
optimize-front_example =
    optimize-front taking depth
      (block 1 InsnType.j (some 2)
        (insn_create InsnType.copy ValType.i27 (tmp 0) seven noclass (ℤ.pos 0) ∷ []))
      refl blks-Addressless blks-Acyclic

-- ===== src/Ssa/Tests.antt =====
-- The theorem about the renaming at one small function.
use qbt.Prelude.{ℕ, ◌≡◌, refl, inl, inr, List, [], ◌∷◌, none, ok, length}
use qbt.Prelude.Int.{ℤ}
use qbt.Nodes.{InsnType, ValType, tmp, noclass, Insn, insn_create, Blk}
use qbt.Ssa.{rename_blks}
use qbt.Ssa.Fresh.{all_defined, Scoped}
use qbt.Ssa.Single.{rename_blks-fresh}

abbrev sum : ℕ → ℕ → Insn
sum d a = insn_create InsnType.add ValType.i27 (tmp d) (tmp a) (tmp a) (ℤ.pos 0)

-- t3 comes in, is doubled twice by way of t5, and goes on.
abbrev doubling : Blk
doubling = record {
  name = none;
  id = 1;
  btype = InsnType.bnz;
  cmp0 = tmp 5;
  cmp1 = noclass;
  s1 = none;
  s2 = none;
  insns = sum 5 3 ∷ sum 3 5 ∷ [];
  params = tmp 3 ∷ [];
  args1 = tmp 3 ∷ [];
  args2 = [];
  to = none;
  visited = 0;
}

doubling-Scoped : Scoped doubling
doubling-Scoped = record {
  params = (refl, tt);
  insns = ((inl refl), (inl refl), ((inl refl), (inl refl), tt));
  cmp0 = inr (inl refl);
  cmp1 = tt;
  args1 = (refl, tt);
  args1_known = (inl refl, tt);
  args2 = tt;
  args2_known = tt;
}

rename_blks-fresh_example :
    (cs : List Blk) × (rename_blks (doubling ∷ doubling ∷ []) 0 ≡ ok (cs, 6))
    × (all_defined cs ≡ tmp 0 ∷ tmp 1 ∷ tmp 2 ∷ tmp 3 ∷ tmp 4 ∷ tmp 5 ∷ [])
    × (length cs ≡ 2)
rename_blks-fresh_example =
    rename_blks-fresh (doubling ∷ doubling ∷ []) 0 (doubling-Scoped, (doubling-Scoped, tt))

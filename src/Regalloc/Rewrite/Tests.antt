-- ===== src/Regalloc/Rewrite/Tests.antt =====
-- The theorem about the rewrite at one block.
use qbt.Prelude.{◌≡◌, refl, List, [], ◌∷◌, none, ok}
use qbt.Prelude.Int.{ℤ}
use qbt.Nodes.{InsnType, ValType, Val, tmp, reg, noclass, insn_create, Blk}
use qbt.Regalloc.Rewrite.{do_rewrites}
use qbt.Regalloc.Rewrite.Coloured.{BlkNoTmp, colour_blk, do_rewrites-colour}

abbrev block : Blk
block = record {
  name = none;
  id = 1;
  btype = InsnType.bnz;
  cmp0 = tmp 1;
  cmp1 = noclass;
  s1 = none;
  s2 = none;
  insns = insn_create InsnType.add ValType.i27 (tmp 1) (tmp 0) (reg 4) (ℤ.pos 0) ∷ [];
  params = tmp 0 ∷ [];
  args1 = tmp 1 ∷ [];
  args2 = [];
  to = none;
  visited = 0;
}

abbrev registers : List Val
registers = reg 11 ∷ reg 12 ∷ []

do_rewrites-colour_example :
    (do_rewrites block registers ≡ ok (colour_blk registers block))
    × BlkNoTmp (colour_blk registers block)
do_rewrites-colour_example = do_rewrites-colour block registers (record {
  params = ((refl, (11, refl)), tt);
  insns = (((11, refl), tt, (12, refl)), tt);
  cmp0 = (12, refl);
  cmp1 = tt;
  args1 = ((refl, (12, refl)), tt);
  args2 = tt;
})

-- ===== src/Regalloc/Rewrite.antt =====
-- src/regalloc.c: every temporary of a block gives way to its register (`do_rewrites`).
pub mod Coloured
mod Tests
use qbt.Prelude.{List, Result, ok, ◌>>=◌, traverse, if◌then◌else◌}
use qbt.Nodes.{Val, is_tmp, Insn, Blk}
use qbt.Rules.{rewrite_tmp}

-- `if (v.class == TMP) v = rewrite_tmp(rmap, v)`
unfoldable pub rewrite_val : List Val → Val → Result Val
rewrite_val rmap v = if is_tmp v then rewrite_tmp rmap v else ok v

unfoldable pub rewrite_insn : List Val → Insn → Result Insn
rewrite_insn rmap i = do
  in0 ← rewrite_val rmap i.in0
  in1 ← rewrite_val rmap i.in1
  out ← rewrite_val rmap i.out
  ok (record i { out = out; in0 = in0; in1 = in1 })

unfoldable pub do_rewrites : Blk → List Val → Result Blk
do_rewrites b rmap = do
  params ← traverse (rewrite_tmp rmap) b.params
  insns ← traverse (rewrite_insn rmap) b.insns
  cmp0 ← rewrite_val rmap b.cmp0
  cmp1 ← rewrite_val rmap b.cmp1
  args1 ← traverse (rewrite_tmp rmap) b.args1
  args2 ← traverse (rewrite_tmp rmap) b.args2
  ok (record b {
    cmp0 = cmp0;
    cmp1 = cmp1;
    insns = insns;
    params = params;
    args1 = args1;
    args2 = args2;
  })

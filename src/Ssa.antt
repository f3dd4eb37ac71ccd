-- ===== src/Ssa.antt =====
-- src/ssa.c: every block gets temporaries of its own, each with one definition (`rename_temps`).
pub mod Params
pub mod Walk
pub mod Pass
pub mod Scope
pub mod Fresh
pub mod Single
pub mod Renamed
mod Tests
use qbt.Prelude.{
  ℕ, suc, List, [], ◌∷◌, Bool, Result, ok, ◌>>=◌, ◌>>◌, assert, leb, length, set, traverse,
  if◌then◌else◌,
}
use qbt.Seq.{vec_at}
use qbt.Nodes.{Val, tmp, noclass, is_tmp, r_of, Insn, Blk}
use qbt.Rules.{grow}

-- Rules lead to temporaries.
unfoldable pub add_tmp_rule : List Val → Val → Val → Result (List Val)
add_tmp_rule rmap from to = do
  assert (is_tmp from)
  assert (is_tmp to)
  ok (set (grow noclass rmap (r_of from)) (r_of from) to)

unfoldable pub rewritten : List Val → Val → Result Val
rewritten rmap from = do
  assert (is_tmp from)
  assert (leb (r_of from) (length rmap))
  v ← vec_at rmap (r_of from)
  assert (is_tmp v)
  ok v

-- The rules of the block, and the counter `i`.
pub record Renaming : Type 0 where
  pub rmap : List Val
  pub next : ℕ

-- `if (v.class == TMP) v = rewrite_tmp(&rmap, v)`
unfoldable pub rename_use : List Val → Val → Result Val
rename_use rmap v = if is_tmp v then rewritten rmap v else ok v

unfoldable pub rename_def : Val → Renaming → Result (Val × Renaming)
rename_def v s = do
  rmap ← add_tmp_rule s.rmap v (tmp s.next)
  r ← rewritten rmap v
  ok (r, record { rmap = rmap; next = suc s.next })

unfoldable pub rename_params : List Val → Renaming → Result (List Val × Renaming)
rename_params [] s = ok ([], s)
rename_params (p ∷ ps) s = do
  (q, s1) ← rename_def p s
  (qs, s2) ← rename_params ps s1
  ok (q ∷ qs, s2)

unfoldable pub rename_insn : Insn → Renaming → Result (Insn × Renaming)
rename_insn n s = do
  in0 ← rename_use s.rmap n.in0
  in1 ← rename_use s.rmap n.in1
  (out, s1) ← (if is_tmp n.out then rename_def n.out s else ok (n.out, s))
  ok (record n { out = out; in0 = in0; in1 = in1 }, s1)

unfoldable pub rename_insns : List Insn → Renaming → Result (List Insn × Renaming)
rename_insns [] s = ok ([], s)
rename_insns (n ∷ ns) s = do
  (m, s1) ← rename_insn n s
  (ms, s2) ← rename_insns ns s1
  ok (m ∷ ms, s2)

unfoldable pub rename_temps : Blk → ℕ → Result (Blk × ℕ)
rename_temps b i = do
  (params, s1) ← rename_params b.params (record { rmap = []; next = i })
  (insns, s2) ← rename_insns b.insns s1
  cmp0 ← rename_use s2.rmap b.cmp0
  cmp1 ← rename_use s2.rmap b.cmp1
  args1 ← traverse (rewritten s2.rmap) b.args1
  args2 ← traverse (rewritten s2.rmap) b.args2
  ok (
    record b {
      params = params;
      insns = insns;
      cmp0 = cmp0;
      cmp1 = cmp1;
      args1 = args1;
      args2 = args2;
    },
    s2.next,
  )

-- The loop of `ssa` over the blocks.
unfoldable pub rename_blks : List Blk → ℕ → Result (List Blk × ℕ)
rename_blks [] i = ok ([], i)
rename_blks (b ∷ bs) i = do (c, j) ← rename_temps b i; (cs, k) ← rename_blks bs j; ok (c ∷ cs, k)

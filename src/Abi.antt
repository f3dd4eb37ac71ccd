-- ===== src/Abi.antt =====
-- src/abi.c: the instructions that pass arguments and results become moves to and from the
-- argument registers. A rewritten block is a new list of instructions.
pub mod Regs
pub mod Passed
pub mod Range
pub mod Lowered
mod Tests
use qbt.Prelude.{
  ℕ, List, Bool, true, false, ◌||◌, Result, ok, fault, ◌>>=◌, ◌>>◌, assert, array_bounds, aborted,
  demand, traverse, get_elem?, ltb,
}
use qbt.Prelude.Int.{ℤ, pos, negsuc}
use qbt.Nodes.{
  InsnType, same_type, ValType, Val, reg, tmp, imm, mem, ref, noclass, is_imm, is_tmp, is_reg,
  is_ref, v_of, Insn, insn_create, set_insn_flags, setup_flag, teardown_flag, both_flags, Blk, Fn,
}
use qbt.Abi.Regs.{ar_map}

-- `ar_map[nth]`, a fault where the index is outside the array
unfoldable pub nth_ar : ℤ → Result Val
nth_ar (pos nth) = do r ← demand array_bounds (get_elem? ar_map nth); ok (reg r)
nth_ar (negsuc _) = fault array_bounds

-- `nth >= 0 && nth < 25`
abbrev pub accepted : ℤ → Bool
accepted (pos nth) = ltb nth 25
accepted (negsuc _) = false

-- The assertions on the index operand, and the index.
unfoldable pub stated_index : Val → Result ℤ
stated_index i = do assert (is_imm i); assert (accepted (v_of i)); ok (v_of i)

unfoldable pub rewrite_param : Insn → Result Insn
rewrite_param n = do
  assert (same_type n.type InsnType.param)
  nth ← stated_index n.in1
  r ← nth_ar nth
  ok (insn_create InsnType.move ValType.i27 n.out r noclass (pos 0))

unfoldable pub rewrite_retval : Insn → Result Insn
rewrite_retval n = do
  assert (same_type n.type InsnType.retval)
  nth ← stated_index n.in1
  r ← nth_ar nth
  ok (set_insn_flags (insn_create InsnType.move ValType.i27 n.out r noclass (pos 0)) teardown_flag)

-- The instruction that brings a value into the register for an index. The register is looked up
-- only for a class that can be passed.
unfoldable pub pass_value : ℤ → Val → Result Insn
pass_value nth (reg a) = do
  r ← nth_ar nth
  ok (insn_create InsnType.move ValType.i27 r (reg a) noclass (pos 0))
pass_value nth (tmp t) = do
  r ← nth_ar nth
  ok (insn_create InsnType.move ValType.i27 r (tmp t) noclass (pos 0))
pass_value nth (imm v t) = do
  r ← nth_ar nth
  ok (insn_create InsnType.copy ValType.i27 r (imm v t) noclass (pos 0))
pass_value nth (ref s) = do
  r ← nth_ar nth
  ok (insn_create InsnType.copy ValType.i27 r (ref s) noclass (pos 0))
pass_value nth _ = fault aborted

unfoldable pub rewrite_arg : Insn → Result Insn
rewrite_arg n = do
  assert (same_type n.type InsnType.arg)
  nth ← stated_index n.in1
  i ← pass_value nth n.in0
  ok (set_insn_flags i setup_flag)

unfoldable pub rewrite_retarg : Insn → Result Insn
rewrite_retarg n = do
  assert (same_type n.type InsnType.retarg)
  nth ← stated_index n.in1
  pass_value nth n.in0

-- The body of the loop in `abi0`.
unfoldable pub lower_as : InsnType → Insn → Result Insn
lower_as InsnType.param n = rewrite_param n
lower_as InsnType.retval n = rewrite_retval n
lower_as InsnType.arg n = rewrite_arg n
lower_as InsnType.retarg n = rewrite_retarg n
lower_as InsnType.call n = ok (set_insn_flags n both_flags)
lower_as _ n = ok n

unfoldable pub lower : Insn → Result Insn
lower n = lower_as n.type n

unfoldable pub abi0_blk : Blk → Result Blk
abi0_blk b = do insns ← traverse lower b.insns; ok (record b { insns = insns })

unfoldable pub abi0 : Fn → Result Fn
abi0 f = do blks ← traverse abi0_blk f.blks; ok (record f { blks = blks })

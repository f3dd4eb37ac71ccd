-- ===== src/Asm/Select.antt =====
-- src/asm.c: the lines for one instruction.
pub mod Subtract
use qbt.Prelude.{
  ℕ, zero, suc, List, [], ◌∷◌, Bool, true, false, Result, ok, fault, ◌>>=◌, ◌>>◌, assert,
  assert_failed, aborted, if◌then◌else◌,
}
use qbt.Prelude.Int.{ℤ, pos, negsuc, neg}
use qbt.Nodes.{InsnType, same_type, ValType, Val, reg, imm, ref, is_reg, v_of, same_val, Insn, Fn}
use qbt.Asm.Syntax.{
  Name, sp, fp, ra, Width, Line, st, ld, mv, add, sub, addi, slt, slti, li, call, jalr, rname,
}
use qbt.Asm.Frame.{call_save_offset}

unfoldable pub output_move : Insn → Result (List Line)
output_move n =
    if same_val n.out n.in0 then ok [] else (do d ← rname n.out; a ← rname n.in0; ok (mv d a ∷ []))

-- `assert(0 && ...)`
abbrev illegal : Result (List Line)
illegal = fault assert_failed

unfoldable pub output_add : Insn → Result (List Line)
output_add n = second n.in1
  where
    second : Val → Result (List Line)
    second (reg r) = do d ← rname n.out; a ← rname n.in0; b ← rname (reg r); ok (add d a b ∷ [])
    second (imm v _) = do d ← rname n.out; a ← rname n.in0; ok (addi d a v ∷ [])
    second _ = illegal

-- The number behind `-%lli` where it is not negative, else the number as it is.
abbrev pub sub_immediate : ℤ → ℤ
sub_immediate (pos v) = neg v
sub_immediate (negsuc v) = negsuc v

unfoldable pub output_sub : Insn → Result (List Line)
output_sub n = second n.in1
  where
    second : Val → Result (List Line)
    second (reg r) = do d ← rname n.out; a ← rname n.in0; b ← rname (reg r); ok (sub d a b ∷ [])
    second (imm v _) = do d ← rname n.out; a ← rname n.in0; ok (addi d a (sub_immediate v) ∷ [])
    second _ = illegal

unfoldable pub output_copy : Insn → Result (List Line)
output_copy n = do d ← rname n.out; ok (li d (v_of n.in0) ∷ [])

unfoldable pub output_call : Insn → Result (List Line)
output_call n = callee n.in0
  where
    callee : Val → Result (List Line)
    callee (ref name) = ok (call ra name ∷ [])
    callee (reg r) = do a ← rname (reg r); ok (jalr ra 0 a ∷ [])
    callee _ = illegal

unfoldable pub output_save : Fn → Insn → Result (List Line)
output_save f n = do r ← rname n.in0; ok (st Width.w r (call_save_offset f (v_of n.in1)) fp ∷ [])

unfoldable pub output_restore : Fn → Insn → Result (List Line)
output_restore f n = do r ← rname n.in0; ok (ld Width.w r (call_save_offset f (v_of n.in1)) fp ∷ [])

abbrev width_of : ValType → Width
width_of ValType.i9 = Width.t
width_of _ = Width.w

unfoldable pub output_store : Insn → Result (List Line)
output_store n = do a ← rname n.in1; b ← rname n.in0; ok (st (width_of n.vtype) a n.v b ∷ [])

unfoldable pub output_load : Insn → Result (List Line)
output_load n = do a ← rname n.out; b ← rname n.in0; ok (ld (width_of n.vtype) a n.v b ∷ [])

unfoldable pub output_lt : Insn → Result (List Line)
output_lt i = second i.in1
  where
    second : Val → Result (List Line)
    second (imm v _) = do d ← rname i.out; a ← rname i.in0; ok (slti d a v ∷ [])
    second b = do d ← rname i.out; a ← rname i.in0; c ← rname b; ok (slt d a c ∷ [])

-- The negative of a size; `-%lli` of a negative number is no number, and the assembler's choice.
unfoldable pub output_alloc : Insn → Result (List Line)
output_alloc i = do d ← rname i.out; ok (addi sp sp (minus i.v) ∷ mv d sp ∷ [])
  where
    minus : ℤ → ℤ
    minus (pos v) = neg v
    minus (negsuc v) = pos (suc v)

unfoldable pub output_dealloc : Insn → List Line
output_dealloc i = addi sp sp i.v ∷ []

unfoldable pub output_insn : Fn → Insn → Result (List Line)
output_insn f n = by_type n.type
  where
    by_type : InsnType → Result (List Line)
    by_type InsnType.lt = output_lt n
    by_type InsnType.move = output_move n
    by_type InsnType.add = output_add n
    by_type InsnType.sub = output_sub n
    by_type InsnType.copy = output_copy n
    by_type InsnType.call = output_call n
    by_type InsnType.store = output_store n
    by_type InsnType.load = output_load n
    by_type InsnType.alloc = output_alloc n
    by_type InsnType.dealloc = ok (output_dealloc n)
    by_type InsnType.save = output_save f n
    by_type InsnType.restore = output_restore f n
    by_type _ = fault aborted

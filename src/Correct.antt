-- ===== src/Correct.antt =====
-- src/correct.c: the operands that an instruction may not have are put in temporaries, and a
-- temporary whose address is taken is read and written through the address. Each correction inserts
-- an instruction into the list that the loop goes through.
pub mod Expand
pub mod Loop
pub mod Pattern
pub mod Blocks
mod Tests
use qbt.Prelude.{
  ℕ, zero, suc, ◌+◌, ◌*◌, List, [], ◌∷◌, ◌++◌, Bool, true, false, ◌&&◌, not, Result, ok, fault,
  out_of_fuel, ◌>>=◌, ◌>>◌, assert, ltb, length, get_elem?, set, take, drop, leb, if◌then◌else◌,
}
use qbt.Prelude.Int.{pos}
use qbt.Seq.{vec_at, vec_put, vec_insert, vec_append}
use qbt.Nodes.{
  Val, tmp, noclass, is_tmp, is_imm, is_ref, hasclass, r_of, InsnType, same_type, ValType, Insn,
  insn_create, Blk, Fn,
}
use qbt.Rules.{grow, has_rewrite_rule}

-- The index into `in`.
pub data Operand : Type 0 where
  left right : Operand

abbrev pub operand : Operand → Insn → Val
operand left i = i.in0
operand right i = i.in1

abbrev pub put_operand : Operand → Val → Insn → Insn
put_operand left v i = record i { in0 = v }
put_operand right v i = record i { in1 = v }

-- The instructions of the block, the addresses of temporaries, and the next temporary.
pub record Correcting : Type 0 where
  pub insns : List Insn
  pub addrs : List Val
  pub ri : ℕ

-- A new temporary in the place of the operand, and an instruction in front that gives it a value.
unfoldable pub spill : InsnType → Val → ℕ → Insn → Operand → Correcting → Result Correcting
spill o v ii i idx s = do
  stored ← vec_put s.insns ii (put_operand idx (tmp s.ri) i)
  insns ← vec_insert stored (insn_create o ValType.i27 (tmp s.ri) v noclass (pos 0)) ii
  ok (record s { insns = insns; ri = suc s.ri })

abbrev pub spill_ref : ℕ → Insn → Operand → Correcting → Result Correcting
spill_ref ii i idx s = spill InsnType.addr (operand idx i) ii i idx s

abbrev pub spill_imm : ℕ → Insn → Operand → Correcting → Result Correcting
spill_imm ii i idx s = spill InsnType.copy (operand idx i) ii i idx s

-- The second test of the source is not reached, as the first one returns.
unfoldable pub correct_arith : ℕ → Insn → Correcting → Result Correcting
correct_arith ii i s =
    if is_imm i.in0
    then (do
      insns ← vec_put s.insns ii (record i { in0 = i.in1; in1 = i.in0 })
      ok (record s { insns = insns }))
    else ok s

unfoldable pub correct_left : ℕ → Insn → Correcting → Result Correcting
correct_left ii i s = if is_imm i.in0 then spill_imm ii i left s else ok s

unfoldable pub correct_store : ℕ → Insn → Correcting → Result Correcting
correct_store ii i s = if is_imm i.in1 then spill_imm ii i right s else ok s

unfoldable pub correct_branch : ℕ → Insn → Correcting → Result Correcting
correct_branch ii i s =
    if is_imm i.in0
    then spill_imm ii i left s
    else if is_imm i.in1
    then spill_imm ii i right s
    else ok s

-- The rules of this file lead from temporaries to temporaries.
unfoldable pub add_addr_rule : List Val → Val → Val → Result (List Val)
add_addr_rule rmap from to = do
  assert (is_tmp from)
  assert (is_tmp to)
  ok (set (grow noclass rmap (r_of from)) (r_of from) to)

unfoldable pub rewritten_addr : List Val → Val → Result Val
rewritten_addr rmap t = do
  assert (is_tmp t)
  assert (ltb (r_of t) (length rmap))
  r ← vec_at rmap (r_of t)
  assert (hasclass r)
  ok r

unfoldable pub correct_addr : Insn → Correcting → Result Correcting
correct_addr i s =
    if is_tmp i.in0
    then (do addrs ← add_addr_rule s.addrs i.in0 i.out; ok (record s { addrs = addrs }))
    else ok s

unfoldable pub load_rewrite : ℕ → Insn → Operand → Correcting → Result Correcting
load_rewrite ii i idx s = do
  addr ← rewritten_addr s.addrs (operand idx i)
  spill InsnType.load addr ii i idx s

-- The store goes behind the instruction.
unfoldable pub store_rewrite : ℕ → Insn → Correcting → Result Correcting
store_rewrite ii i s = do
  addr ← rewritten_addr s.addrs i.out
  stored ← vec_put s.insns ii (record i { out = tmp s.ri })
  insns ←
      vec_insert stored (insn_create InsnType.store ValType.i27 (tmp s.ri) addr noclass (pos 0))
        (suc ii)
  ok (record s { insns = insns; ri = suc s.ri })

-- The cases of the switch.
pub data Kind : Type 0 where
  arith_insn positional_insn branch_insn relation_insn store_insn addr_insn other_insn : Kind

unfoldable pub kind_of : InsnType → Kind
kind_of InsnType.add = arith_insn
kind_of InsnType.mul = arith_insn
kind_of InsnType.sub = positional_insn
kind_of InsnType.div = positional_insn
kind_of InsnType.rem = positional_insn
kind_of InsnType.lshift = positional_insn
kind_of InsnType.rshift = positional_insn
kind_of InsnType.beq = branch_insn
kind_of InsnType.bne = branch_insn
kind_of InsnType.ble = branch_insn
kind_of InsnType.bge = branch_insn
kind_of InsnType.blt = branch_insn
kind_of InsnType.bgt = branch_insn
kind_of InsnType.bnz = branch_insn
kind_of InsnType.bez = branch_insn
kind_of InsnType.lt = relation_insn
kind_of InsnType.le = relation_insn
kind_of InsnType.gt = relation_insn
kind_of InsnType.ge = relation_insn
kind_of InsnType.eq = relation_insn
kind_of InsnType.ne = relation_insn
kind_of InsnType.store = store_insn
kind_of InsnType.addr = addr_insn
kind_of _ = other_insn

unfoldable pub correct_kind : Kind → ℕ → Insn → Correcting → Result Correcting
correct_kind arith_insn ii i s = correct_arith ii i s
correct_kind positional_insn ii i s = correct_left ii i s
correct_kind branch_insn ii i s = correct_branch ii i s
correct_kind relation_insn ii i s = correct_left ii i s
correct_kind store_insn ii i s = correct_store ii i s
correct_kind addr_insn ii i s = correct_addr i s
correct_kind other_insn ii i s = ok s

-- From the references on.
unfoldable pub correct_rest : ℕ → Insn → Correcting → Result Correcting
correct_rest ii i s =
    if not (same_type i.type InsnType.call) && is_ref i.in0
    then spill_ref ii i left s
    else if is_ref i.in1
    then spill_ref ii i right s
    else correct_kind (kind_of i.type) ii i s

-- The source drops the next temporary that `store_rewrite` returns, and goes on with its own copy of
-- the instruction.
unfoldable pub correct_insn : ℕ → Insn → Correcting → Result Correcting
correct_insn ii i s =
    if is_tmp i.in0 && has_rewrite_rule s.addrs i.in0
    then load_rewrite ii i left s
    else if is_tmp i.in1 && has_rewrite_rule s.addrs i.in1
    then load_rewrite ii i right s
    else if is_tmp i.out && has_rewrite_rule s.addrs i.out
    then (do stored ← store_rewrite ii i s; correct_rest ii i (record stored { ri = s.ri }))
    else correct_rest ii i s

-- The loop over the instructions, from index `ii` on.
unfoldable pub correct_insns : ℕ → ℕ → Correcting → Result Correcting
correct_insns zero ii s = if ltb ii (length s.insns) then fault out_of_fuel else ok s
correct_insns (suc n) ii s =
    if ltb ii (length s.insns)
    then (do i ← vec_at s.insns ii; t ← correct_insn ii i s; correct_insns n (suc ii) t)
    else ok s

-- A branch operand, if it is an immediate: `v` is copied to a temporary behind the instructions.
unfoldable pub correct_cmp : Val → Val → Correcting → Val × Correcting
correct_cmp c v s =
    if is_imm c
    then (
      tmp s.ri,
      record s {
        insns =
            vec_append s.insns (insn_create InsnType.copy ValType.i27 (tmp s.ri) v noclass (pos 0));
        ri = suc s.ri;
      },
    )
    else (c, s)

-- The second operand is copied from the first one.
unfoldable pub correct_blk : Blk → List Val → ℕ → Result (Blk × List Val × ℕ)
correct_blk b addrs ri = do
  s ← correct_insns (16 * length b.insns) 0 (record { insns = b.insns; addrs = addrs; ri = ri })
  let (cmp0, s1) = correct_cmp b.cmp0 b.cmp0 s
  let (cmp1, s2) = correct_cmp b.cmp1 cmp0 s1
  ok (record b { insns = s2.insns; cmp0 = cmp0; cmp1 = cmp1 }, s2.addrs, s2.ri)

unfoldable pub correct_blks : List Blk → List Val → ℕ → Result (List Blk × ℕ)
correct_blks [] addrs ri = ok ([], ri)
correct_blks (b ∷ bs) addrs ri = do
  (c, addrs1, ri1) ← correct_blk b addrs ri
  (cs, ri2) ← correct_blks bs addrs1 ri1
  ok (c ∷ cs, ri2)

unfoldable pub correct : Fn → ℕ → Result (Fn × ℕ)
correct f ri = do (blks, last) ← correct_blks f.blks [] ri; ok (record f { blks = blks }, last)

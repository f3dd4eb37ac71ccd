-- ===== src/Asm.antt =====
-- src/asm.c: a function as lines of assembly (`output`).
pub mod Syntax
pub mod Frame
pub mod Select
pub mod Moves
mod Tests
use Prim.Native.String.{String}
use mathlib.Core.Path.{refl}
use qbt.Prelude.{
  ℕ, List, [], ◌∷◌, ◌++◌, Bool, true, false, Option, none, some, Result, ok, fault, ◌>>=◌, ◌>>◌,
  assert_failed, aborted, dangling, demand, traverse, ◌==◌, ◌&&◌, not, if◌then◌else◌,
}
use qbt.Nodes.{InsnType, same_type, Val, Insn, Blk, Fn}
use qbt.Nodes.Blocks.{same_target, blk_of}
use qbt.Asm.Syntax.{Name, x, ra, Line, fn_label, blk_label, ret, jal, branch, Test, rname}
use qbt.Asm.Frame.{save_state, restore_state}
use qbt.Asm.Select.{output_insn}
use qbt.Asm.Moves.{output_moves}

-- `assert(b->s2)` and the identifier of the block.
unfoldable pub target : Blk → Result ℕ
target b = demand assert_failed b.s2

-- Two registers are compared.
unfoldable pub output_compare : Test → Blk → Fn → Result (List Line)
output_compare t b f = do
  s2 ← target b
  n0 ← rname b.cmp0
  n1 ← rname b.cmp1
  ok (branch t n0 n1 f.name s2 ∷ [])

-- A register is compared with x0.
unfoldable pub output_zero : Test → Blk → Fn → Result (List Line)
output_zero t b f = do s2 ← target b; n0 ← rname b.cmp0; ok (branch t n0 (x 0) f.name s2 ∷ [])

unfoldable pub output_ret : Fn → List Line
output_ret f = restore_state f ++ ret ra ∷ []

unfoldable pub output_j : Blk → Fn → Result (List Line)
output_j b f = jump b.to
  where
    jump : Option String → Result (List Line)
    jump none = ok []
    jump (some _) =
        if same_target b.s1 b.s2
        then ok []
        else (do s2 ← demand dangling b.s2; ok (jal (x 0) f.name s2 ∷ []))

unfoldable pub output_branch : Blk → Fn → Result (List Line)
output_branch b f = by_type b.btype
  where
    by_type : InsnType → Result (List Line)
    by_type InsnType.ret = ok (output_ret f)
    by_type InsnType.j = output_j b f
    by_type InsnType.blt = output_compare Test.blt b f
    by_type InsnType.ble = output_compare Test.ble b f
    by_type InsnType.bne = output_compare Test.bne b f
    by_type InsnType.bnz = output_zero Test.bne b f
    by_type InsnType.bez = output_zero Test.beq b f
    by_type _ = fault aborted

-- The moves of the arguments for a successor, if there is one.
unfoldable pub moves_to : List Blk → Option ℕ → List Val → Result (List Line)
moves_to blks none args = ok []
moves_to blks (some s) args = do t ← blk_of blks s; output_moves t.params args

abbrev pub concat : List (List Line) → List Line
concat [] = []
concat (l ∷ ls) = l ++ concat ls

unfoldable pub output_blk : Fn → Blk → Result (List Line)
output_blk f b = do
  body ← traverse (output_insn f) b.insns
  moves2 ← moves_to f.blks b.s2 b.args2
  last ← output_branch b f
  moves1 ← (if same_type b.btype InsnType.j then ok [] else moves_to f.blks b.s1 b.args1)
  ok (blk_label f.name b.id ∷ (concat body ++ (moves2 ++ (last ++ moves1))))

unfoldable pub output : Fn → Result (List Line)
output f = do
  blks ← traverse (output_blk f) f.blks
  ok (fn_label f.name ∷ (save_state f ++ concat blks))

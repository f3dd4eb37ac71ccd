-- ===== src/Asm/Moves.antt =====
-- src/asm.c: the arguments of a jump moved to the parameters of its target, in an order and over a
-- spare register so that none is lost (`output_moves`, `move_one`).
pub mod Run
pub mod Swap
pub mod Direct
pub mod Disjoint
use qbt.Prelude.{
  ℕ, zero, suc, List, [], ◌∷◌, ◌++◌, Result, ok, fault, ◌>>=◌, ◌>>◌, assert, out_of_fuel, length,
  replicate, ◌==◌, if◌then◌else◌,
}
use qbt.Prelude.Int.{ℤ, pos}
use qbt.Seq.{vec_at, vec_put}
use qbt.Nodes.{InsnType, ValType, Val, reg, noclass, same_val, insn_create}
use qbt.Abi.Regs.{rtmp0, upto}
use qbt.Asm.Syntax.{Line}
use qbt.Asm.Select.{output_move}

pub data MoveStatus : Type 0 where
  to_move being_moved moved : MoveStatus

-- The vectors that the moves change, and the lines so far.
pub record Moving : Type 0 where
  pub args : List Val
  pub status : List MoveStatus
  pub lines : List Line

unfoldable pub emit_move : Val → Val → Moving → Result Moving
emit_move to from m = do
  ls ← output_move (insn_create InsnType.move ValType.notype to from noclass (ℤ.pos 0))
  ok (record m { lines = m.lines ++ ls })

unfoldable pub set_status : ℕ → MoveStatus → Moving → Result Moving
set_status i st m = do status ← vec_put m.status i st; ok (record m { status = status })

-- An argument that is in the register about to be written, by its status.
unfoldable pub rescue : (ℕ → Moving → Result Moving) → ℕ → Val → MoveStatus → Moving → Result Moving
rescue one ai a to_move m = one ai m
rescue one ai a being_moved m = do
  m1 ← emit_move (reg rtmp0) a m
  args ← vec_put m1.args ai (reg rtmp0)
  ok (record m1 { args = args })
rescue one ai a moved m = ok m

-- The loop over the arguments; `one` is the recursive call.
unfoldable pub rescue_all : (ℕ → Moving → Result Moving) → Val → List ℕ → Moving → Result Moving
rescue_all one p [] m = ok m
rescue_all one p (ai ∷ ais) m = do
  a ← vec_at m.args ai
  m1 ← (if same_val a p then (do s ← vec_at m.status ai; rescue one ai a s m) else ok m)
  rescue_all one p ais m1

-- `a` is read before the loop, and not again behind it.
-- Each recursive call is on an argument still to be moved, so their number is enough fuel.
unfoldable pub move_over : (ℕ → Moving → Result Moving) → ℕ → Val → Val → Moving → Result Moving
move_over one pi p a m = do
  m1 ← set_status pi being_moved m
  m2 ← rescue_all one p (upto 0 (length m1.args)) m1
  m3 ← emit_move p a m2
  set_status pi moved m3

unfoldable pub move_one : ℕ → List Val → ℕ → Moving → Result Moving
move_one zero params pi m = fault out_of_fuel
move_one (suc fuel) params pi m = do
  let one = move_one fuel params
  p ← vec_at params pi
  a ← vec_at m.args pi
  if same_val p a then ok m else move_over one pi p a m

unfoldable pub move_pending : ℕ → List Val → ℕ → MoveStatus → Moving → Result Moving
move_pending fuel params pi to_move m = move_one fuel params pi m
move_pending fuel params pi _ m = ok m

unfoldable pub move_all : ℕ → List Val → List ℕ → Moving → Result Moving
move_all fuel params [] m = ok m
move_all fuel params (pi ∷ pis) m = do
  s ← vec_at m.status pi
  m1 ← move_pending fuel params pi s m
  move_all fuel params pis m1

unfoldable pub output_moves : List Val → List Val → Result (List Line)
output_moves params args = do
  assert (length params == length args)
  let start : Moving = record {
    args = args;
    status = replicate (length params) to_move;
    lines = [];
  }
  m ← move_all (suc (length params)) params (upto 0 (length params)) start
  ok m.lines

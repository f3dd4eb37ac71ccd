-- ===== src/Asm/Moves/Swap.antt =====
-- src/asm.c: two arguments that trade places with two parameters.
use qbt.Prelude.{ℕ, ◌≤◌, ◌≡◌, ◌≢◌, List, [], ◌∷◌, ok, true, false, arith, leb, ◌==◌}
use qbt.Nodes.{reg, same_val}
use qbt.Abi.Regs.{rtmp0, upto}
use qbt.Asm.Syntax.{x, Line, mv, rname}
use qbt.Asm.Select.{output_move}
use qbt.Asm.Moves.{
  emit_move, set_status, rescue, rescue_all, move_over, move_one, move_pending, move_all,
  output_moves,
}
use qbt.Asm.Moves.Run.{run_moves}

swap-lines :
    (a b : ℕ)
    → a ≤ 80
    → b ≤ 80
    → a ≢ b
    → b ≢ rtmp0
    → output_moves (reg a ∷ reg b ∷ []) (reg b ∷ reg a ∷ [])
      ≡ ok (mv (x rtmp0) (x b) ∷ mv (x b) (x a) ∷ mv (x a) (x b) ∷ [])
unfolding output_moves move_all move_pending move_one move_over rescue_all rescue set_status
    emit_move output_move rname same_val upto
swap-lines a b la lb ne nt =
    let ab : (a == b) ≡ false = ground arith in
    let ba : (b == a) ≡ false = ground arith in
    let aa : (a == a) ≡ true = ground arith in
    let bb : (b == b) ≡ true = ground arith in
    let at : leb a 80 ≡ true = ground arith in
    let bt : leb b 80 ≡ true = ground arith in
    let tb : (44 == b) ≡ false = ground arith in simp (ab, ba, aa, bb, at, bt, tb)

-- Of two different registers, the second not the spare one, that are to trade their values, both
-- have the first's value behind the moves: the second's is lost, but for the spare register.
pub output_moves-swap :
    {A : Type 0} (a b : ℕ) (regs : ℕ → A)
    → a ≤ 80
    → b ≤ 80
    → a ≢ b
    → a ≢ rtmp0
    → b ≢ rtmp0
    → (ls : List Line) × (output_moves (reg a ∷ reg b ∷ []) (reg b ∷ reg a ∷ []) ≡ ok ls)
      × (run_moves ls regs a ≡ regs a)
      × (run_moves ls regs b ≡ regs a)
      × (run_moves ls regs rtmp0 ≡ regs b)
output_moves-swap a b regs la lb ne na nb =
    let ab : (a == b) ≡ false = ground arith in
    let ba : (b == a) ≡ false = ground arith in
    let aa : (a == a) ≡ true = ground arith in
    let bb : (b == b) ≡ true = ground arith in
    let at : (a == 44) ≡ false = ground arith in
    let ta : (44 == a) ≡ false = ground arith in
    let tb : (44 == b) ≡ false = ground arith in
    (
      mv (x rtmp0) (x b) ∷ mv (x b) (x a) ∷ mv (x a) (x b) ∷ [],
      swap-lines a b la lb ne nb,
      simp (aa, bb, ab, at),
      simp (ba, bb, at),
      simp (ta, tb),
    )

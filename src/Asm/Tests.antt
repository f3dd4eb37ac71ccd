-- ===== src/Asm/Tests.antt =====
-- The theorems about src/asm.c at small functions.
use qbt.Prelude.{
  ◌<◌, ◌+◌, ◌↔◌, ℕ, ◌≤◌, ◌≡◌, refl, List, [], ◌∷◌, none, ok, true, arith, get_elem?, some,
}
use qbt.Prelude.Int.{ℤ}
use qbt.Nodes.{InsnType, ValType, reg, noclass, Insn, insn_create, Fn}
use qbt.Asm.Syntax.{Line, x, addi}
use qbt.Asm.Frame.{frame_size, save_state, restore_state}
use qbt.Asm.Frame.Slots.{Slot, fploc, Apart, fploc-Apart}
use qbt.Asm.Select.{output_insn}
use qbt.Asm.Select.Subtract.{subtraction, minus, IsNonneg, output_insn-sub_iff}
use qbt.Asm.Frame.Machine.{Machine, run}
use qbt.Asm.Frame.Saved.{restore_state-save_state}
use qbt.Abi.Regs.{save_reg}
use qbt.Asm.Moves.{output_moves}
use qbt.Asm.Moves.Run.{run_moves}
use qbt.Asm.Moves.Swap.{output_moves-swap}
use qbt.Asm.Moves.Direct.{Avoids}
use qbt.Asm.Moves.Disjoint.{output_moves-direct}

-- Two callee-save registers and three slots around calls.
abbrev framed : Fn
framed = record {
  name = none;
  ntmp = 0;
  nblk = 0;
  max_callee_save = 2;
  max_call_save = 3;
  has_calls = true;
  blks = [];
  labels = [];
  tmps = [];
}

fploc-Apart_example :
    (3 ≤ fploc framed (Slot.callee 1))
    × (fploc framed (Slot.callee 1) ≤ frame_size framed)
    × Apart (fploc framed (Slot.callee 1)) (fploc framed (Slot.call 0))
fploc-Apart_example =
    fploc-Apart framed (Slot.callee 1) (Slot.call 0) (omega arith) (omega arith) (λ e. cc)

abbrev x5_minus : Insn
x5_minus = insn_create InsnType.sub ValType.i27 (reg 5) (reg 5) noclass (ℤ.pos 0)

output_insn-sub_iff_example :
    (k : ℤ) × (output_insn framed (subtraction x5_minus 5 5 (ℤ.negsuc 6) ValType.i27)
      ≡ ok (addi (x 5) (x 5) k ∷ []))
    × ((k ≡ minus (ℤ.negsuc 6)) ↔ IsNonneg (ℤ.negsuc 6))
output_insn-sub_iff_example =
    output_insn-sub_iff framed x5_minus 5 5 (ℤ.negsuc 6) ValType.i27 (omega arith) (omega arith)

abbrev entered : Machine
entered = record { regs = λ n. 100 + n; words = λ a. 0 }

abbrev returned : Machine
returned = run (restore_state framed) (run (save_state framed) entered)

restore_state-save_state_example :
    (returned.regs 1 ≡ 101)
    × (returned.regs 2 ≡ 102)
    × (true ≡ true → returned.regs 26 ≡ 126)
    × ((j : ℕ) → j < 2 → returned.regs (save_reg j) ≡ 100 + save_reg j)
unfolding frame_size
restore_state-save_state_example =
    restore_state-save_state framed entered (run (save_state framed) entered) (omega arith)
      (refl, λ a low high. refl)

output_moves-swap_example :
    (ls : List Line) × (output_moves (reg 4 ∷ reg 5 ∷ []) (reg 5 ∷ reg 4 ∷ []) ≡ ok ls)
    × (run_moves ls (λ n. n) 4 ≡ 4)
    × (run_moves ls (λ n. n) 5 ≡ 4)
    × (run_moves ls (λ n. n) 44 ≡ 5)
output_moves-swap_example =
    output_moves-swap 4 5 (λ n. n) (omega arith) (omega arith) (λ e. omega arith) (λ e. omega arith)
      (λ e. omega arith)

output_moves-direct_example :
    (ls : List Line) × (output_moves (reg 4 ∷ reg 5 ∷ []) (reg 11 ∷ reg 11 ∷ []) ≡ ok ls)
    × ((i p a : ℕ)
        → get_elem? (4 ∷ 5 ∷ []) i ≡ some p
        → get_elem? (11 ∷ 11 ∷ []) i ≡ some a
        → run_moves ls (λ n. n) p ≡ a)
    × ((q : ℕ) → Avoids q (4 ∷ 5 ∷ []) → run_moves ls (λ n. n) q ≡ q)
output_moves-direct_example =
    output_moves-direct (4 ∷ 5 ∷ []) (11 ∷ 11 ∷ []) (λ n. n) refl (omega arith, (omega arith, tt))
      (omega arith, (omega arith, tt)) ((λ e. omega arith, tt), (tt, tt))
      ((λ e. omega arith, (λ e. omega arith, tt)), ((λ e. omega arith, (λ e. omega arith, tt)), tt))

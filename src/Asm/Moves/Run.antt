-- ===== src/Asm/Moves/Run.antt =====
-- What the moves between registers do when they run.
use qbt.Prelude.{ℕ, List, [], ◌∷◌, write}
use qbt.Asm.Syntax.{x, Line, mv}

module _ {A : Type 0} where
  abbrev pub run_moves : List Line → (ℕ → A) → ℕ → A
  run_moves [] regs = regs
  run_moves (mv (x d) (x a) ∷ ls) regs = run_moves ls (write regs d (regs a))
  run_moves (_ ∷ ls) regs = run_moves ls regs

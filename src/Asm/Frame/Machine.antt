-- ===== src/Asm/Frame/Machine.antt =====
-- What the lines of a prologue and an epilogue do when they run: registers and words of memory are
-- natural numbers, and the words are taken to lie at the addresses that are used (`Frame.Slots`
-- shows that those in the frame do not overlap).
use qbt.Prelude.{ℕ, suc, ◌+◌, ◌-◌, List, [], ◌∷◌, ◌++◌, ◌≡◌, refl, write}
use qbt.Prelude.Int.{ℤ, pos, negsuc}
use qbt.Abi.Regs.{rsp, rfp, rra, save_reg}
use qbt.Asm.Syntax.{Name, Line}

pub record Machine : Type 0 where
  pub regs : ℕ → ℕ
  pub words : ℕ → ℕ

-- The number of a named register.
abbrev pub number : Name → ℕ
number (Name.x n) = n
number (Name.s i) = save_reg i
number Name.sp = rsp
number Name.fp = rfp
number Name.ra = rra

abbrev pub displace : ℕ → ℤ → ℕ
displace a (pos k) = a + k
displace a (negsuc k) = a - suc k

abbrev pub step : Line → Machine → Machine
step (Line.st _ r k b) m = record m {
  words = write m.words (displace (m.regs (number b)) k) (m.regs (number r));
}
step (Line.ld _ r k b) m = record m {
  regs = write m.regs (number r) (m.words (displace (m.regs (number b)) k));
}
step (Line.mv d a) m = record m { regs = write m.regs (number d) (m.regs (number a)) }
step (Line.addi d a k) m = record m {
  regs = write m.regs (number d) (displace (m.regs (number a)) k);
}
step _ m = m

abbrev pub run : List Line → Machine → Machine
run [] m = m
run (l ∷ ls) m = run ls (step l m)

pub run-append : (xs ys : List Line) (m : Machine) → run (xs ++ ys) m ≡ run ys (run xs m)
run-append [] ys m = refl
run-append (x ∷ xs) ys m = run-append xs ys (step x m)
